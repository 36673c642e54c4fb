-- ===== src/Paging/Freed.antt =====
-- A user page that `kfree` takes: the page tables and the other pages do not see it.
use my_os_proj.Base.{
  ℕ, suc, ◌≡◌, ◌≢◌, inl, inr, sym, ◌∙◌, ap, arith, some, List, ◌∷◌, ◌==◌, ==_iff, Bool-cases,
}
use my_os_proj.Kernel.{Platform, Kernel}
use my_os_proj.Kalloc.FreeList.{IsFrame}
use my_os_proj.Kalloc.Laws.{freed, freed-FreeList, freed-SameOutside}
use my_os_proj.Pte.{pte2pa, is_valid}
use my_os_proj.Paging.{Roles, free, used, level_of, assign, Inv}
use my_os_proj.Paging.Plain.{entry_same}
use my_os_proj.Paging.User.{not_listed}

module _ {P : Platform} {role : Roles} {ps : List ℕ} {k : Kernel} (inv : Inv P role ps k) (p : ℕ)
    (in_use : role p ≡ used) (frame : IsFrame P p) where
  assigned_level : (q l : ℕ) → level_of (assign role p free q) ≡ some l → level_of (role q) ≡ some l
  assigned_level q l e = elim (Bool-cases (p == q)) [
    | inl same ↦ cc (rw same at e)
    | inr other ↦ (rw other at e)
  ]

  pub assigned_other : (q : ℕ) → role q ≢ used → assign role p free q ≡ role q
  assigned_other q ne = elim (Bool-cases (p == q)) [
    | inl same ↦ absurd (ne (ap role (sym ((==_iff p q).0 same)) ∙ in_use))
    | inr other ↦ rw other
  ]

  pub freed-Inv : Inv P (assign role p free) (p ∷ ps) (freed p k)
  freed-Inv = record {
    pool =
        freed-FreeList P k p ps inv.pool frame
          (not_listed inv p in_use frame (freed p k).mem (freed-SameOutside k p));
    free_listed = λ q e. ground (arith, inv.free_listed q);
    listed_free = λ q i. ground (arith, inv.listed_free q);
    frames = λ q l e. inv.frames q l (assigned_level q l e);
    links = λ q l i e h valid.
        let level = assigned_level q (suc l) e in
        let same =
          entry_same inv p (ap level_of in_use) frame (freed p k).mem (freed-SameOutside k p) q
            (suc l) i level h in
        let target = inv.links q l i level h (ap (λ w. is_valid w) (sym same) ∙ valid) in
        ap (λ w. assign role p free (pte2pa w)) same ∙ assigned_other _ (λ u. cc) ∙ target;
  }
