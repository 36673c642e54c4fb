-- ===== src/Uvm/AllocPage.antt =====
-- One round of `uvmalloc`.
use my_os_proj.Base.{
  ℕ, ◌+◌, ◌%◌, ◌≤◌, ◌<◌, ◌≡◌, ◌≢◌, ◌⊎◌, inl, inr, refl, ◌∙◌, arith, false, List, [], ◌∷◌, ◌==◌,
}
use my_os_proj.Memory.{Memory, memset}
use my_os_proj.Memory.Words.{memset-SameOutside, SameOutside}
use my_os_proj.Kernel.{Platform, Kernel, Cmd, ok, maxva, and_then}
use my_os_proj.Kalloc.Laws.{kalloc-cons, kalloc-nil}
use my_os_proj.Pte.{is_valid}
use my_os_proj.Paging.{Roles, free, used, root, Inv, view}
use my_os_proj.Vm.Step.{Space}
use my_os_proj.Uvm.{uvmdealloc, alloc_page, user_perm}
use my_os_proj.Uvm.Fresh.{Fresh, mappages-fresh}

-- A round of `uvmalloc` with memory for it.
pub record Cleared (P : Platform) (role : Roles) (k : Kernel) (pt a oldsz : ℕ) (next : Cmd ℕ)
    : Type 0 where
  pub page : ℕ
  pub contents : Memory
  pub after : Kernel
  pub roles : Roles
  pub pages : List ℕ
  pub run : alloc_page P pt a oldsz next k ≡ next after
  pub fresh : Fresh P role k pt a user_perm page contents roles pages after
  pub zeros : (i : ℕ) → i < 4096 → contents (page + i) ≡ 0

-- And one without: the rest of the function takes back the other pages.
pub record Starved (P : Platform) (role : Roles) (k : Kernel) (pt a oldsz : ℕ) (next : Cmd ℕ)
    : Type 0 where
  pub after : Kernel
  pub roles : Roles
  pub pages : List ℕ
  pub run : alloc_page P pt a oldsz next k ≡ and_then (uvmdealloc P pt a oldsz after) (λ sz. ok 0)
  pub space : Space P role k (view k.mem) roles pages after
  pub unused : (x : ℕ) → role x ≡ free → roles x ≢ used

-- The page as `kalloc` and `memset` leave it.
abbrev zeroed : Kernel → ℕ → Memory
zeroed k p = memset (memset k.mem p 5 4096) p 0 4096

zeroed-SameOutside : (k : Kernel) (p : ℕ) → SameOutside p k.mem (zeroed k p)
zeroed-SameOutside k p x out = memset-SameOutside _ p 0 x out ∙ memset-SameOutside k.mem p 5 x out

zeroed_byte : (k : Kernel) (p i : ℕ) → i < 4096 → zeroed k p (p + i) ≡ 0
unfolding memset
zeroed_byte k p i h = ground arith

module _ {P : Platform} {role : Roles} {k : Kernel} (pt a oldsz : ℕ) (is_root : role pt ≡ root)
    (al : a % 4096 ≡ 0) (low : a + 4096 ≤ maxva) (clear : is_valid (view k.mem pt a) ≡ false)
    (next : Cmd ℕ) where
  pub alloc_page-round :
      (ps : List ℕ)
      → Inv P role ps k
      → Starved P role k pt a oldsz next ⊎ Cleared P role k pt a oldsz next
  unfolding alloc_page
  alloc_page-round [] inv = inl (record {
    after = k;
    roles = role;
    pages = [];
    run = rw (kalloc-nil k inv.pool) refl;
    unused = λ x e u. cc;
    space = record {
      inv = inv;
      keeps = λ x ne. refl;
      bytes = λ p x e d lo hi. refl;
      views = λ q va e h. refl;
    };
  })
  alloc_page-round (p ∷ ps) inv =
      let f = inv.pool.1 in
      let there : (p == 0) ≡ false = ground (arith, P.kernbase-le-end, f.above) in
      let got = kalloc-cons k p inv.pool.0 (omega (arith, P.kernbase-le-end, f.above)) in
      elim (mappages-fresh inv (zeroed k p) (zeroed-SameOutside k p) pt a user_perm is_root al low
        (omega arith) clear) [
          | inl refused ↦ inl (record {
            after = refused.after;
            roles = refused.roles;
            pages = refused.pages;
            run = rw (got, there, refused.run, refused.free_run) refl;
            space = refused.space;
            unused = refused.unused;
          })
          | inr accepted ↦ inr (record {
            page = p;
            contents = zeroed k p;
            after = accepted.after;
            roles = accepted.roles;
            pages = accepted.pages;
            run = rw (got, there, accepted.run) refl;
            fresh = accepted.fresh;
            zeros = zeroed_byte k p;
          })
        ]
