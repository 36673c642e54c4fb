-- ===== src/Paging/Slots.antt =====
-- Where leaf entries stand: each in a table of level 0, and two virtual pages never in one place.
use my_os_proj.Base.{
  ℕ, zero, suc, ◌+◌, ◌*◌, ◌/◌, ◌<◌, ◌≡◌, ◌≢◌, inl, inr, refl, sym, ◌∙◌, ap, arith, true, some, List,
  Bool-cases,
}
use my_os_proj.Memory.{Memory, load64}
use my_os_proj.Kernel.{Platform, Kernel, maxva}
use my_os_proj.Pte.{px, pte2pa, is_valid}
use my_os_proj.Pte.Laws.{px-lt, page_of_px}
use my_os_proj.Walk.{pte_at}
use my_os_proj.Paging.{Roles, root, table, level_of, Inv, view_from, slot_from, slot}

-- The indices of two addresses agree from level 0 up to `l`.
abbrev SamePath : ℕ → ℕ → ℕ → Type 0
SamePath zero va wa = px 0 va ≡ px 0 wa
SamePath (suc l) va wa = (px (suc l) va ≡ px (suc l) wa) × SamePath l va wa

-- A view is what the slot holds, and 0 where there is none.
pub view_from-slot_from :
    (m : Memory) (l q va : ℕ)
    → slot_from m l q va ≢ 0
    → view_from m l q va ≡ load64 m (slot_from m l q va)
unfolding view_from slot_from
view_from-slot_from m zero q va ne = refl
view_from-slot_from m (suc l) q va ne =
    elim (Bool-cases (is_valid (load64 m (pte_at (suc l) q va)))) [
      | inl v ↦ rw v (view_from-slot_from m l _ va (λ e. ne (rw v e)))
      | inr v ↦ absurd (ne (rw v))
    ]

module _ {P : Platform} {role : Roles} {ps : List ℕ} {k : Kernel} (inv : Inv P role ps k) where
  open inv use {frames, links}

  -- The table of level 0 that holds a slot.
  pub record Home (va a : ℕ) : Type 0 where
    pub page : ℕ
    pub level : level_of (role page) ≡ some 0
    pub place : a ≡ page + 8 * px 0 va

  pub slot_from-Home :
      (l q va : ℕ)
      → level_of (role q) ≡ some l
      → slot_from k.mem l q va ≢ 0
      → Home va (slot_from k.mem l q va)
  unfolding slot_from
  slot_from-Home zero q va e ne = record { page = q; level = e; place = refl }
  slot_from-Home (suc l) q va e ne =
      elim (Bool-cases (is_valid (load64 k.mem (pte_at (suc l) q va)))) [
        | inl v ↦ rw v (
            slot_from-Home l _ va (ap level_of (links q l (px (suc l) va) e (px-lt (suc l) va) v))
              (λ z. ne (rw v z)))
        | inr v ↦ absurd (ne (rw v))
      ]

  valid_of_slot :
      (l q va : ℕ)
      → slot_from k.mem (suc l) q va ≢ 0
      → (is_valid (load64 k.mem (pte_at (suc l) q va)) ≡ true)
        × (slot_from k.mem (suc l) q va
            ≡ slot_from k.mem l (pte2pa (load64 k.mem (pte_at (suc l) q va))) va)
  unfolding slot_from
  valid_of_slot l q va ne = elim (Bool-cases (is_valid (load64 k.mem (pte_at (suc l) q va)))) [
    | inl v ↦ (v, rw v)
    | inr v ↦ absurd (ne (rw v))
  ]

  pub slot_from_injective :
      (l q r va wa : ℕ)
      → level_of (role q) ≡ some l
      → level_of (role r) ≡ some l
      → slot_from k.mem l q va ≢ 0
      → slot_from k.mem l q va ≡ slot_from k.mem l r wa
      → (q ≡ r) × SamePath l va wa
  unfolding slot_from
  slot_from_injective zero q r va wa e f ne same =
      omega (arith, frames q 0 e, frames r 0 f, px-lt 0 va, px-lt 0 wa)
  slot_from_injective (suc l) q r va wa e f ne same =
      let (v, down) = valid_of_slot l q va ne in
      let (v', down') = valid_of_slot l r wa (λ z. ne (same ∙ z)) in
      let role_q = links q l (px (suc l) va) e (px-lt (suc l) va) v in
      let role_r = links r l (px (suc l) wa) f (px-lt (suc l) wa) v' in
      let (child, path) =
        slot_from_injective l _ _ va wa (ap level_of role_q) (ap level_of role_r)
          (λ z. ne (down ∙ z)) (sym down ∙ same ∙ down') in
      let tables : table l q (px (suc l) va) ≡ table l r (px (suc l) wa) =
        sym role_q ∙ ap role child ∙ role_r in
      (cc tables, (cc tables, path))

  pub view_from-none :
      (l q va : ℕ)
      → level_of (role q) ≡ some l
      → slot_from k.mem l q va ≡ 0
      → view_from k.mem l q va ≡ 0
  unfolding view_from slot_from
  view_from-none zero q va e none_there = absurd (omega (arith, frames q 0 e, P.kernbase-le-end))
  view_from-none (suc l) q va e none_there =
      elim (Bool-cases (is_valid (load64 k.mem (pte_at (suc l) q va)))) [
        | inl v ↦ rw v (
            view_from-none l _ va (ap level_of (links q l (px (suc l) va) e (px-lt (suc l) va) v))
              (rw v at none_there))
        | inr v ↦ rw v
      ]

  -- Of the slots below two roots, two are the same only for one root and one page.
  pub slot_injective :
      (q r va wa : ℕ)
      → role q ≡ root
      → role r ≡ root
      → va < maxva
      → wa < maxva
      → slot k.mem q va ≢ 0
      → slot k.mem q va ≡ slot k.mem r wa
      → (q ≡ r) × (va / 4096 ≡ wa / 4096)
  slot_injective q r va wa e f hv hw ne same =
      let (tables, path) =
        slot_from_injective 2 q r va wa (ap level_of e) (ap level_of f) ne same in
      (tables, page_of_px va wa hv hw path.1.1 path.1.0 path.0)
