-- ===== src/Paging/Leaf.antt =====
-- Writing a leaf entry: what else changes.
use my_os_proj.Base.{
  ℕ, zero, suc, ◌+◌, ◌*◌, ◌%◌, ◌^◌, ◌<◌, ◌≤◌, ◌≡◌, ◌≢◌, ◌⊎◌, inl, inr, refl, sym, ◌∙◌, ap, arith,
  false, some, List, ◌∉◌, has, if◌then◌else◌, ◌==◌, ==_iff, Bool-cases, ℕ_discrete,
}
use my_os_proj.Memory.{load64, store64}
use my_os_proj.Memory.Words.{load64-store64_self, load64-store64_ne, store64-SameOutside}
use my_os_proj.Kernel.{Platform, Kernel}
use my_os_proj.Kalloc.FreeList.{Chain-SameOutside}
use my_os_proj.Pte.{px, pte2pa, is_valid}
use my_os_proj.Pte.Laws.{px-lt}
use my_os_proj.Walk.{pte_at}
use my_os_proj.Paging.{Roles, used, level_of, Inv, view_from, slot_from}
use my_os_proj.Paging.Slots.{view_from-slot_from, view_from-none, Home, slot_from-Home}

-- The state after `v` is written to the entry `j` of the table `t`.
abbrev pub written : ℕ → ℕ → Kernel → Kernel
written a v k = record k { mem = store64 k.mem a v }

module _ {P : Platform} {role : Roles} {ps : List ℕ} {k : Kernel} (inv : Inv P role ps k)
    (t j v : ℕ) (level : level_of (role t) ≡ some 0) (small : j < 512) where
  open inv use {pool, free_listed, listed_free, frames, links}

  abbrev k' : Kernel
  k' = written (t + 8 * j) v k

  written_entry :
      (q l i : ℕ)
      → level_of (role q) ≡ some l
      → i < 512
      → (q ≢ t) ⊎ (i ≢ j)
      → load64 (written (t + 8 * j) v k).mem (q + 8 * i) ≡ load64 k.mem (q + 8 * i)
  written_entry q l i e h ne =
      load64-store64_ne k.mem (t + 8 * j) (q + 8 * i) v
        (omega (arith, (frames q l e).aligned, (frames t 0 level).aligned))

  -- The upper tables are not touched.
  upper :
      (q l i : ℕ)
      → level_of (role q) ≡ some (suc l)
      → i < 512
      → load64 (written (t + 8 * j) v k).mem (q + 8 * i) ≡ load64 k.mem (q + 8 * i)
  upper q l i e h =
      written_entry q (suc l) i e h (inl (λ same. cc (ap (λ x. level_of (role x)) same)))

  not_listed : t ∉ ps
  not_listed = elim (Bool-cases (has t ps)) [ inl m ↦ cc (listed_free t m) | inr m ↦ m ]

  pub written-Inv : Inv P role ps (written (t + 8 * j) v k)
  written-Inv = record {
    pool =
        Chain-SameOutside P k.mem (store64 k.mem (t + 8 * j) v) k.freelist ps t
          (store64-SameOutside k.mem t (t + 8 * j) v (omega arith) (omega arith)) (frames t 0 level)
          not_listed pool;
    free_listed = free_listed;
    listed_free = listed_free;
    frames = frames;
    links = λ q l i e h valid.
        let same = upper q l i e h in
        ap (λ w. role (pte2pa w)) same ∙ links q l i e h (ap (λ w. is_valid w) (sym same) ∙ valid);
  }

  pub written_bytes :
      (p x : ℕ)
      → role p ≡ used
      → p % 4096 ≡ 0
      → p ≤ x
      → x < p + 4096
      → (written (t + 8 * j) v k).mem x ≡ k.mem x
  written_bytes p x e al lo hi =
      let apart : p ≢ t = λ same. cc (ap (λ y. level_of (role y)) same, ap level_of e) in
      store64-SameOutside k.mem t (t + 8 * j) v (omega arith) (omega arith) x
        (omega (arith, (frames t 0 level).aligned))

  pub slot_from-written :
      (l q va : ℕ)
      → level_of (role q) ≡ some l
      → slot_from (written (t + 8 * j) v k).mem l q va ≡ slot_from k.mem l q va
  unfolding slot_from
  slot_from-written zero q va e = refl
  slot_from-written (suc l) q va e =
      rw (upper q l (px (suc l) va) e (px-lt (suc l) va))
        (elim (Bool-cases (is_valid (load64 k.mem (pte_at (suc l) q va)))) [
          | inl w ↦ rw w (
              slot_from-written l _ va
                (ap level_of (links q l (px (suc l) va) e (px-lt (suc l) va) w)))
          | inr w ↦ rw w
        ])

  -- The entry that a home holds after the write.
  home_entry :
      (va a : ℕ)
      → Home inv va a
      → v < 2 ^ 64
      → load64 (written (t + 8 * j) v k).mem a ≡ (if a == t + 8 * j then v else load64 k.mem a)
  home_entry va a h fits = elim (Bool-cases (a == t + 8 * j)) [
    | inl same ↦
        rw (same, (==_iff a (t + 8 * j)).0 same) (load64-store64_self k.mem (t + 8 * j) v fits)
    | inr other ↦
        rw (other, h.place)
          (written_entry h.page 0 (px 0 va) h.level (px-lt 0 va)
            (ground (arith, h.place, other, ℕ_discrete h.page t)))
  ]

  -- The entry that is written is seen where the slot is its address, and nowhere else.
  pub view_from-written :
      (l q va : ℕ)
      → level_of (role q) ≡ some l
      → v < 2 ^ 64
      → view_from (written (t + 8 * j) v k).mem l q va
        ≡ (if slot_from k.mem l q va == t + 8 * j then v else view_from k.mem l q va)
  view_from-written l q va e fits = elim (ℕ_discrete (slot_from k.mem l q va) 0) [
    | yes none_there ↦
        let f = frames t 0 level in
        let no_slot : (0 == t + 8 * j) ≡ false = ground (arith, f.above, P.kernbase-le-end) in
        rw (none_there, no_slot)
          (view_from-none written-Inv l q va e (slot_from-written l q va e ∙ none_there)
            ∙ sym (view_from-none inv l q va e none_there))
    | no there ↦
        view_from-slot_from _ l q va (λ z. there (sym (slot_from-written l q va e) ∙ z))
        ∙ ap (load64 (written (t + 8 * j) v k).mem) (slot_from-written l q va e)
        ∙ home_entry va (slot_from k.mem l q va) (slot_from-Home inv l q va e there) fits
        ∙ ap (λ w. if slot_from k.mem l q va == t + 8 * j then v else w)
            (sym (view_from-slot_from k.mem l q va there))
  ]
