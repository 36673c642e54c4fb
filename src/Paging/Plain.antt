-- ===== src/Paging/Plain.antt =====
-- A change in a page that is no page table: no table sees it.
use my_os_proj.Base.{
  ℕ, zero, suc, ◌+◌, ◌*◌, ◌<◌, ◌≡◌, ◌≢◌, inl, inr, refl, ap, arith, none, some, List, Bool-cases,
}
use my_os_proj.Memory.{Memory, load64}
use my_os_proj.Memory.Words.{SameOutside, load64-SameOutside}
use my_os_proj.Kernel.{Platform, Kernel}
use my_os_proj.Kalloc.FreeList.{IsFrame}
use my_os_proj.Pte.{px, is_valid}
use my_os_proj.Pte.Laws.{px-lt}
use my_os_proj.Walk.{pte_at}
use my_os_proj.Paging.{Roles, level_of, Inv, view_from, slot_from}

module _ {P : Platform} {role : Roles} {ps : List ℕ} {k : Kernel} (inv : Inv P role ps k) (p : ℕ)
    (no_table : level_of (role p) ≡ none) (frame : IsFrame P p) (g : Memory)
    (same : SameOutside p k.mem g) where
  open inv use {frames, links}

  pub entry_same :
      (q l i : ℕ)
      → level_of (role q) ≡ some l
      → i < 512
      → load64 g (q + 8 * i) ≡ load64 k.mem (q + 8 * i)
  entry_same q l i e h =
      let f = frames q l e in
      let apart : q ≢ p = λ eq. cc (ap (λ x. level_of (role x)) eq, no_table) in
      load64-SameOutside k.mem g p (q + 8 * i) same (omega arith)

  pub view_from-plain :
      (l q va : ℕ) → level_of (role q) ≡ some l → view_from g l q va ≡ view_from k.mem l q va
  unfolding view_from
  view_from-plain zero q va e = entry_same q 0 (px 0 va) e (px-lt 0 va)
  view_from-plain (suc l) q va e =
      rw (entry_same q (suc l) (px (suc l) va) e (px-lt (suc l) va))
        (elim (Bool-cases (is_valid (load64 k.mem (pte_at (suc l) q va)))) [
          | inl v ↦ rw v (
              view_from-plain l _ va
                (ap level_of (links q l (px (suc l) va) e (px-lt (suc l) va) v)))
          | inr v ↦ rw v
        ])

  pub slot_from-plain :
      (l q va : ℕ) → level_of (role q) ≡ some l → slot_from g l q va ≡ slot_from k.mem l q va
  unfolding slot_from
  slot_from-plain zero q va e = refl
  slot_from-plain (suc l) q va e =
      rw (entry_same q (suc l) (px (suc l) va) e (px-lt (suc l) va))
        (elim (Bool-cases (is_valid (load64 k.mem (pte_at (suc l) q va)))) [
          | inl v ↦ rw v (
              slot_from-plain l _ va
                (ap level_of (links q l (px (suc l) va) e (px-lt (suc l) va) v)))
          | inr v ↦ rw v
        ])
