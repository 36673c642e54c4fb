-- ===== src/Vm/Release.antt =====
-- One round of `uvmunmap`.
use my_os_proj.Base.{
  ℕ, ◌+◌, ◌/◌, ◌%◌, ◌<◌, ◌≤◌, ◌≡◌, ◌≢◌, inr, refl, sym, ◌∙◌, ap, arith, Bool, true, false, List,
  ◌∷◌, ◌∉◌, if◌then◌else◌, ◌&&◌, ◌==◌, not,
}
use my_os_proj.Memory.{load64}
use my_os_proj.Kernel.{Platform, Kernel, ok, maxva}
use my_os_proj.Kalloc.FreeList.{IsFrame}
use my_os_proj.Kalloc.Laws.{freed, kfree-ok, freed-SameOutside}
use my_os_proj.Pte.{pte2pa, is_valid, pte_flags, pte_v}
use my_os_proj.Walk.{walk}
use my_os_proj.Walk.Alloc.{Walked}
use my_os_proj.Walk.Lookup.{walk-slot}
use my_os_proj.Paging.{Roles, free, used, root, level_of, assign, Inv, view, slot}
use my_os_proj.Paging.Slots.{view_from-none, view_from-slot_from}
use my_os_proj.Paging.Growth.{Growth-refl}
use my_os_proj.Paging.User.{view_from-changed}
use my_os_proj.Paging.Plain.{slot_from-plain}
use my_os_proj.Paging.Freed.{freed-Inv, assigned_other}
use my_os_proj.Paging.Leaf.{written}
use my_os_proj.Vm.{unmap_page}
use my_os_proj.Vm.Step.{Space, with_page, written-Space}

-- A change of address spaces that may free user pages: the pages that are not on the list `pages`
-- of the free ones keep their roles, the user pages among them their bytes, and the leaf entry of
-- `va` below the root `q` is now `new q va`.
pub record Release (P : Platform) (role : Roles) (k : Kernel) (new : (q va : ℕ) → ℕ) (roles : Roles)
    (pages : List ℕ) (after : Kernel) : Type 0 where
  pub inv : Inv P roles pages after
  pub keeps : (x : ℕ) → x ∉ pages → roles x ≡ role x
  pub roots : (q : ℕ) → role q ≡ root → roles q ≡ root
  pub bytes :
      (p x : ℕ)
      → role p ≡ used
      → p ∉ pages
      → p % 4096 ≡ 0
      → p ≤ x
      → x < p + 4096
      → after.mem x ≡ k.mem x
  pub views : (q va : ℕ) → role q ≡ root → va < maxva → view after.mem q va ≡ new q va

-- The entries that `uvmunmap` accepts.
abbrev pub is_leaf : ℕ → Bool
is_leaf e = is_valid e && not (pte_flags e == pte_v)

module _ {P : Platform} {role : Roles} {ps : List ℕ} {k : Kernel} (inv : Inv P role ps k) (pt a : ℕ)
    (is_root : role pt ≡ root) (low : a < maxva)
    (leaf_there : is_leaf (view k.mem pt a) ≡ true) where
  pub slot_ne : slot k.mem pt a ≢ 0
  slot_ne z =
      let none_there = view_from-none inv 2 pt a (ap level_of is_root) z in
      cc (rw none_there at leaf_there)

  pub slot_entry : load64 k.mem (slot k.mem pt a) ≡ view k.mem pt a
  slot_entry = sym (view_from-slot_from k.mem 2 pt a slot_ne)

  pub valid_leaf :
      (is_valid (load64 k.mem (slot k.mem pt a)) ≡ true)
      × ((pte_flags (load64 k.mem (slot k.mem pt a)) == pte_v) ≡ false)
  valid_leaf = rw slot_entry (ground arith)

  abbrev found : Walked P role k 2 pt a (walk pt a false k)
  found = record {
    pte = slot k.mem pt a;
    after = k;
    roles = role;
    pages = ps;
    run = walk-slot pt a k low;
    growth = Growth-refl inv;
    found = inr (slot_ne, refl);
  }

  kept : Space P role k (with_page k.mem pt a 0) role ps (written (slot k.mem pt a) 0 k)
  kept = written-Space found is_root low 0 (omega arith) refl slot_ne

  -- Without `do_free`.
  pub unmap_page-keep :
      (unmap_page P pt a false k ≡ ok tt (written (slot k.mem pt a) 0 k))
      × Release P role k (with_page k.mem pt a 0) role ps (written (slot k.mem pt a) 0 k)
  unfolding unmap_page
  unmap_page-keep =
      let nonzero : (slot k.mem pt a == 0) ≡ false = ground (arith, slot_ne) in
      (
        rw (walk-slot pt a k low, nonzero, valid_leaf.0, valid_leaf.1),
        record {
          inv = kept.inv;
          keeps = λ x out. refl;
          roots = λ q e. e;
          bytes = λ p x e out al lo hi. kept.bytes p x e al lo hi;
          views = kept.views;
        },
      )

  -- With `do_free`, where the entry leads to a page in use.
  module _ (p : ℕ) (leads : pte2pa (view k.mem pt a) ≡ p) (in_use : role p ≡ used)
      (frame : IsFrame P p) where
    freed_page-Inv : Inv P (assign role p free) (p ∷ ps) (freed p k)
    freed_page-Inv = freed-Inv inv p in_use frame

    root_stays : (q : ℕ) → role q ≡ root → assign role p free q ≡ root
    root_stays q e = assigned_other inv p in_use frame q (λ u. cc) ∙ e

    same_slot : slot (freed p k).mem pt a ≡ slot k.mem pt a
    same_slot =
        slot_from-plain inv p (ap level_of in_use) frame (freed p k).mem (freed-SameOutside k p) 2
          pt a (ap level_of is_root)

    same_view : (q va : ℕ) → role q ≡ root → view (freed p k).mem q va ≡ view k.mem q va
    same_view q va e =
        view_from-changed inv p in_use frame (freed p k).mem (freed-SameOutside k p) 2 q va
          (ap level_of e)

    abbrev found_after :
        Walked P (assign role p free) (freed p k) 2 pt a (walk pt a false (freed p k))
    found_after = record {
      pte = slot k.mem pt a;
      after = freed p k;
      roles = assign role p free;
      pages = p ∷ ps;
      run = walk-slot pt a (freed p k) low ∙ ap (λ s. ok s (freed p k)) same_slot;
      growth = Growth-refl freed_page-Inv;
      found = inr (slot_ne, sym same_slot);
    }

    given :
        Space P
          (assign role p free)
          (freed p k)
          (with_page (freed p k).mem pt a 0)
          (assign role p free)
          (p ∷ ps)
          (written (slot k.mem pt a) 0 (freed p k))
    given =
        written-Space found_after (root_stays pt is_root) low 0 (omega arith) (sym same_slot)
          slot_ne

    assigned_ne : (x : ℕ) → x ∉ (p ∷ ps) → assign role p free x ≡ role x
    assigned_ne x out = ground arith

    pub unmap_page-free :
        (unmap_page P pt a true k ≡ ok tt (written (slot k.mem pt a) 0 (freed p k)))
        × Release P role k
            (with_page k.mem pt a 0)
            (assign role p free)
            (p ∷ ps)
            (written (slot k.mem pt a) 0 (freed p k))
    unfolding unmap_page
    unmap_page-free =
        let nonzero : (slot k.mem pt a == 0) ≡ false = ground (arith, slot_ne) in
        let page : pte2pa (load64 k.mem (slot k.mem pt a)) ≡ p =
          ap (λ e. pte2pa e) slot_entry ∙ leads in
        (
          rw (
            walk-slot pt a k low,
            nonzero,
            valid_leaf.0,
            valid_leaf.1,
            page,
            kfree-ok P k p frame,
          ),
          record {
            inv = given.inv;
            keeps = assigned_ne;
            roots = root_stays;
            bytes = λ q x e out al lo hi.
                given.bytes q x (assigned_ne q out ∙ e) al lo hi
                ∙ freed-SameOutside k p x (ground (arith, frame.aligned));
            views = λ q va e low'.
                given.views q va (root_stays q e) low'
                ∙ ap (λ v. if (q == pt) && (va / 4096 == a / 4096) then 0 else v)
                    (same_view q va e);
          },
        )
