-- ===== src/Uvm/CopyPage.antt =====
-- One round of `uvmcopy`.
use my_os_proj.Base.{
  ℕ, ◌+◌, ◌-◌, ◌%◌, ◌≤◌, ◌<◌, ◌≡◌, ◌≢◌, ◌⊎◌, inl, inr, refl, ◌∙◌, arith, true, false, List, [], ◌∷◌,
  ltb, leb, ◌==◌, ◌&&◌,
}
use my_os_proj.Memory.{Memory, memset, memmove}
use my_os_proj.Memory.Words.{memset-SameOutside, memmove-SameOutside, SameOutside}
use my_os_proj.Kernel.{Platform, Kernel, ok, maxva}
use my_os_proj.Kalloc.FreeList.{IsFrame}
use my_os_proj.Kalloc.Laws.{kalloc-cons, kalloc-nil}
use my_os_proj.Pte.{is_valid, pte2pa, pte_flags}
use my_os_proj.Walk.Lookup.{walk-slot}
use my_os_proj.Paging.{Roles, free, used, root, Inv, view, slot}
use my_os_proj.Vm.Step.{Space}
use my_os_proj.Vm.Release.{is_leaf, slot_ne, slot_entry, valid_leaf}
use my_os_proj.Uvm.{copy_page}
use my_os_proj.Uvm.Fresh.{Fresh, mappages-fresh}

-- The page `p` as `kalloc` and `memmove` leave it.
abbrev pub moved : (k : Kernel) (p src : ℕ) → Memory
moved k p src = memmove (memset k.mem p 5 4096) p src 4096

-- The page is copied, or no memory is left for it.
pub record Copied (P : Platform) (role : Roles) (k : Kernel) (old new a : ℕ) : Type 0 where
  pub page : ℕ
  pub contents : Memory
  pub after : Kernel
  pub roles : Roles
  pub pages : List ℕ
  pub run : copy_page P old new a k ≡ ok true after
  pub fresh : Fresh P role k new a (pte_flags (view k.mem old a)) page contents roles pages after
  pub same : (i : ℕ) → i < 4096 → contents (page + i) ≡ k.mem (pte2pa (view k.mem old a) + i)

pub record NotCopied (P : Platform) (role : Roles) (k : Kernel) (old new a : ℕ) : Type 0 where
  pub after : Kernel
  pub roles : Roles
  pub pages : List ℕ
  pub run : copy_page P old new a k ≡ ok false after
  pub space : Space P role k (view k.mem) roles pages after
  pub unused : (x : ℕ) → role x ≡ free → roles x ≢ used

moved-SameOutside : (k : Kernel) (p src : ℕ) → SameOutside p k.mem (moved k p src)
moved-SameOutside k p src x out =
    memmove-SameOutside _ p src x out ∙ memset-SameOutside k.mem p 5 x out

moved_byte :
    (k : Kernel) (p src i : ℕ)
    → i < 4096
    → (src + 4096 ≤ p) ⊎ (p + 4096 ≤ src)
    → moved k p src (p + i) ≡ k.mem (src + i)
unfolding memmove memset
moved_byte k p src i h apart =
    let inside : (leb p (p + i) && ltb (p + i) (p + 4096)) ≡ true = ground arith in
    let index : p + i - p ≡ i = omega arith in
    let outside : (leb p (src + i) && ltb (src + i) (p + 4096)) ≡ false = ground arith in
    rw (inside, index, outside) refl

-- The page that an entry leads to.
abbrev pub source_page : (m : Memory) (pt a : ℕ) → ℕ
source_page m pt a = pte2pa (view m pt a)

module _ {P : Platform} {role : Roles} {k : Kernel} (old new a : ℕ) (old_root : role old ≡ root)
    (new_root : role new ≡ root) (al : a % 4096 ≡ 0) (low : a + 4096 ≤ maxva)
    (leaf_there : is_leaf (view k.mem old a) ≡ true)
    (owned : role (pte2pa (view k.mem old a)) ≡ used)
    (source : IsFrame P (pte2pa (view k.mem old a)))
    (clear : is_valid (view k.mem new a) ≡ false) where
  pub copy_page-round :
      (ps : List ℕ) → Inv P role ps k → NotCopied P role k old new a ⊎ Copied P role k old new a
  unfolding copy_page
  copy_page-round [] inv =
      let there : (slot k.mem old a == 0) ≡ false =
        ground (arith, slot_ne inv old a old_root (omega arith) leaf_there) in
      let valid = (valid_leaf inv old a old_root (omega arith) leaf_there).0 in
      inl (record {
        after = k;
        roles = role;
        pages = [];
        run = rw (walk-slot old a k (omega arith), there, valid, kalloc-nil k inv.pool) refl;
        unused = λ x e u. cc;
        space = record {
          inv = inv;
          keeps = λ x ne. refl;
          bytes = λ p x e d lo hi. refl;
          views = λ q va e h. refl;
        };
      })
  copy_page-round (p ∷ ps) inv =
      let f = inv.pool.1 in
      let there : (slot k.mem old a == 0) ≡ false =
        ground (arith, slot_ne inv old a old_root (omega arith) leaf_there) in
      let valid = (valid_leaf inv old a old_root (omega arith) leaf_there).0 in
      let entry = slot_entry inv old a old_root (omega arith) leaf_there in
      let nonzero : (p == 0) ≡ false = ground (arith, P.kernbase-le-end, f.above) in
      let got = kalloc-cons k p inv.pool.0 (omega (arith, P.kernbase-le-end, f.above)) in
      let apart : (source_page k.mem old a) ≢ p =
        λ e. cc (inv.listed_free p (ground arith), owned) in
      elim (mappages-fresh inv (moved k p (source_page k.mem old a))
        (moved-SameOutside k p (source_page k.mem old a)) new a (pte_flags (view k.mem old a))
        new_root al low (omega arith) clear) [
          | inl refused ↦ inl (record {
            after = refused.after;
            roles = refused.roles;
            pages = refused.pages;
            run =
                rw
                  (
                    walk-slot old a k (omega arith),
                    there,
                    valid,
                    got,
                    nonzero,
                    entry,
                    refused.run,
                    refused.free_run,
                  )
                  refl;
            space = refused.space;
            unused = refused.unused;
          })
          | inr accepted ↦ inr (record {
            page = p;
            contents = moved k p (source_page k.mem old a);
            after = accepted.after;
            roles = accepted.roles;
            pages = accepted.pages;
            run =
                rw
                  (walk-slot old a k (omega arith), there, valid, got, nonzero, entry, accepted.run)
                  refl;
            fresh = accepted.fresh;
            same = λ i h.
                moved_byte k p (source_page k.mem old a) i h
                  (omega (arith, f.aligned, source.aligned, apart));
          })
        ]
