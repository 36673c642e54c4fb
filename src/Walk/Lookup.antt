-- ===== src/Walk/Lookup.antt =====
-- `walk` without `alloc` and `walkaddr`: they read the page table and change nothing.
use my_os_proj.Base.{
  ℕ, zero, suc, ◌/◌, ◌<◌, ◌≤◌, ◌≡◌, ◌≢◌, inl, inr, refl, sym, ◌∙◌, ap, arith, Bool, true, false,
  List, if◌then◌else◌, ◌&&◌, ◌==◌, Bool-cases, ℕ_discrete, lt→leb, leb,
}
use my_os_proj.Memory.{Memory, load64}
use my_os_proj.Kernel.{Platform, Kernel, ok, panic, walk_panic, maxva}
use my_os_proj.Pte.{pte2pa, is_valid, is_user}
use my_os_proj.Walk.{pte_at, grow, walk_loop, walk, walkaddr}
use my_os_proj.Paging.{Roles, root, level_of, Inv, slot_from, view, slot}
use my_os_proj.Paging.Slots.{view_from-slot_from, view_from-none, slot_injective}

walk_loop_lookup :
    (l q va : ℕ) (k : Kernel) → walk_loop l q va false k ≡ ok (slot_from k.mem l q va) k
unfolding walk_loop grow slot_from
walk_loop_lookup zero q va k = refl
walk_loop_lookup (suc l) q va k =
    elim (Bool-cases (is_valid (load64 k.mem (pte_at (suc l) q va)))) [
      | inl v ↦ rw v (walk_loop_lookup l _ va k)
      | inr v ↦ rw v
    ]

-- Without `alloc`, `walk` returns the slot of the address and changes nothing.
pub walk-slot : (pt va : ℕ) (k : Kernel) → va < maxva → walk pt va false k ≡ ok (slot k.mem pt va) k
unfolding walk
walk-slot pt va k low = rw (lt→leb maxva va low) (walk_loop_lookup 2 pt va k)

pub walk_beyond :
    (pt va : ℕ) (alloc : Bool) (k : Kernel) → maxva ≤ va → walk pt va alloc k ≡ panic walk_panic
unfolding walk
walk_beyond pt va alloc k high = let beyond : leb maxva va ≡ true = ground arith in rw beyond

-- The physical page that a leaf entry gives to user code; 0 for none.
abbrev pub user_page : ℕ → ℕ
user_page e = if is_valid e && is_user e then pte2pa e else 0

-- The page of a virtual address in the address space below a root.
abbrev pub translate : (m : Memory) (pt va : ℕ) → ℕ
translate m pt va = if leb maxva va then 0 else user_page (view m pt va)

-- `walkaddr` is the translation of the address space, for every address, and changes nothing.
pub walkaddr-translate :
    {P : Platform} {role : Roles} {ps : List ℕ} {k : Kernel} (inv : Inv P role ps k) (pt va : ℕ)
    → role pt ≡ root
    → walkaddr pt va k ≡ ok (translate k.mem pt va) k
unfolding walkaddr
walkaddr-translate {k} inv pt va e = elim (Bool-cases (leb maxva va)) [
  | inl high ↦ rw high
  | inr low ↦
      rw (low, walk-slot pt va k (ground arith))
        (elim (ℕ_discrete (slot k.mem pt va) 0) [
          | yes missing ↦ rw (missing, view_from-none inv 2 pt va (ap level_of e) missing)
          | no there ↦
              let nonzero : (slot k.mem pt va == 0) ≡ false = ground arith in
              rw (nonzero, view_from-slot_from k.mem 2 pt va there) (ground arith)
        ])
]

ok-injective : {A : Type 0} {a b : A} {k j : Kernel} → ok a k ≡ ok b j → a ≡ b
ok-injective e = cc

-- Two lookups below root tables that return the same entry, not the null pointer, are lookups in
-- one table and of one page: page tables never share a leaf entry.
pub walk_apart :
    {P : Platform} {role : Roles} {ps : List ℕ} {k : Kernel} (inv : Inv P role ps k)
    (q r va wa pte : ℕ)
    → role q ≡ root
    → role r ≡ root
    → va < maxva
    → wa < maxva
    → walk q va false k ≡ ok pte k
    → walk r wa false k ≡ ok pte k
    → pte ≢ 0
    → (q ≡ r) × (va / 4096 ≡ wa / 4096)
walk_apart {k} inv q r va wa pte e f hv hw found found' ne =
    let s = ok-injective (sym (walk-slot q va k hv) ∙ found) in
    let s' = ok-injective (sym (walk-slot r wa k hw) ∙ found') in
    slot_injective inv q r va wa e f hv hw (λ z. ne (sym s ∙ z)) (s ∙ sym s')
