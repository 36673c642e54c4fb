-- ===== src/Paging/Taken.antt =====
-- A free page that `kalloc` hands out as a user page: the page tables and the other pages do not
-- see it, whatever is written to the page.
use my_os_proj.Base.{
  ℕ, suc, ◌≡◌, ◌≢◌, inl, inr, sym, ◌∙◌, ap, arith, some, List, ◌∷◌, ◌==◌, ==_iff, Bool-cases,
}
use my_os_proj.Memory.{Memory, load64}
use my_os_proj.Memory.Words.{SameOutside}
use my_os_proj.Kernel.{Platform, Kernel}
use my_os_proj.Kalloc.FreeList.{IsFrame, Chain-SameOutside}
use my_os_proj.Pte.{pte2pa, is_valid}
use my_os_proj.Paging.{Roles, free, used, level_of, assign, Inv}
use my_os_proj.Paging.Plain.{entry_same}

module _ {P : Platform} {role : Roles} {p : ℕ} {ps : List ℕ} {k : Kernel}
    (inv : Inv P role (p ∷ ps) k) (g : Memory) (same : SameOutside p k.mem g) where
  abbrev handed : Kernel
  handed = record { mem = g; freelist = load64 k.mem p }

  pub taken-IsFrame : IsFrame P p
  taken-IsFrame = inv.pool.1

  pub taken_free : role p ≡ free
  taken_free = inv.listed_free p (ground arith)

  pub taken_other : (q : ℕ) → role q ≢ free → assign role p used q ≡ role q
  taken_other q ne = elim (Bool-cases (p == q)) [
    | inl eq ↦ absurd (ne (ap role (sym ((==_iff p q).0 eq)) ∙ taken_free))
    | inr other ↦ rw other
  ]

  taken_level : (q l : ℕ) → level_of (assign role p used q) ≡ some l → level_of (role q) ≡ some l
  taken_level q l e = elim (Bool-cases (p == q)) [
    | inl eq ↦ cc (rw eq at e)
    | inr other ↦ (rw other at e)
  ]

  pub taken-Inv : Inv P (assign role p used) ps (record { mem = g; freelist = load64 k.mem p })
  taken-Inv = record {
    pool =
        Chain-SameOutside P k.mem g (load64 k.mem p) ps p same taken-IsFrame inv.pool.2 inv.pool.3;
    free_listed = λ q e. ground (arith, inv.free_listed q);
    listed_free = λ q i. ground (arith, inv.listed_free q, inv.pool.2);
    frames = λ q l e. inv.frames q l (taken_level q l e);
    links = λ q l i e h valid.
        let level = taken_level q (suc l) e in
        let eq =
          entry_same inv p (ap level_of taken_free) taken-IsFrame g same q (suc l) i level h in
        let target = inv.links q l i level h (ap (λ w. is_valid w) (sym eq) ∙ valid) in
        ap (λ w. assign role p used (pte2pa w)) eq ∙ taken_other _ (λ u. cc) ∙ target;
  }
