-- ===== src/Boot/Listing.antt =====
-- The lines of `vmprint` and the address space.
use native.Mathlib.Nat.{suc-mul, add-mul, zero-mul}
use my_os_proj.Base.{
  ℕ, zero, suc, ◌+◌, ◌*◌, ◌/◌, ◌%◌, ◌^◌, ◌<◌, ◌≤◌, ◌≡◌, inl, inr, refl, sym, ◌∙◌, ap, arith, false,
  List, [], ◌++◌, if◌then◌else◌, ◌==◌, Bool-cases,
}
use my_os_proj.Memory.{Memory, load64}
use my_os_proj.Pte.{px, pte2pa, is_valid}
use my_os_proj.Paging.{view_from, view}
use my_os_proj.Boot.{Line, printwalk_loop, printwalk, vmprint}
use my_os_proj.Boot.Entries.{
  leaf_lines, valid_entries, leaf_lines-append, valid_entries-add, valid_entries_cong,
  valid_entries_none,
}

module _ (m : Memory) where
  -- The leaf entry of a page below a table of the level.
  abbrev pub page_entry : (level pagetable page : ℕ) → ℕ
  page_entry level pagetable page = view_from m level pagetable (4096 * page)

  last_level :
      (n i pagetable : ℕ)
      → i + n ≤ 512
      → leaf_lines (printwalk_loop m 0 (λ _. []) n i pagetable)
        ≡ valid_entries (page_entry 0 pagetable) n i
  unfolding leaf_lines valid_entries printwalk_loop view_from px
  last_level zero i pagetable h = refl
  last_level (suc n) i pagetable h =
      let here : 4096 * i / 2 ^ 12 % 512 ≡ i = omega arith in
      let rest = last_level n (i + 1) pagetable (omega arith) in
      elim (Bool-cases (is_valid (load64 m (pagetable + 8 * i)))) [
        | inl valid ↦ rw (here, valid, rest) refl
        | inr missing ↦ rw (here, missing, rest) refl
      ]

  -- An upper level, whose entries cover `pages` pages each.
  module _ (l pages : ℕ)
      (top : (i r : ℕ) → i < 512 → r < pages → px (suc l) (4096 * (i * pages + r)) ≡ i)
      (low : (q i r : ℕ) → r < pages → page_entry l q (i * pages + r) ≡ page_entry l q r)
      (child : ℕ → List Line)
      (listed : (q : ℕ) → leaf_lines (child q) ≡ valid_entries (page_entry l q) pages 0) where
    table_entry :
        (i r pagetable : ℕ)
        → i < 512
        → r < pages
        → page_entry (suc l) pagetable (i * pages + r) ≡ (
            if is_valid (load64 m (pagetable + 8 * i))
            then page_entry l (pte2pa (load64 m (pagetable + 8 * i))) r
            else 0)
    unfolding view_from
    table_entry i r pagetable small h =
        let e = load64 m (pagetable + 8 * i) in
        rw (top i r small h) (ap (λ x. if is_valid e then x else 0) (low (pte2pa e) i r h))

    block :
        (i pagetable : ℕ)
        → i < 512
        → valid_entries (page_entry (suc l) pagetable) pages (i * pages) ≡ (
            if is_valid (load64 m (pagetable + 8 * i))
            then leaf_lines (child (pte2pa (load64 m (pagetable + 8 * i))))
            else [])
    block i pagetable small = elim (Bool-cases (is_valid (load64 m (pagetable + 8 * i)))) [
      | inl valid ↦
          let q = pte2pa (load64 m (pagetable + 8 * i)) in
          rw valid (
            valid_entries_cong (page_entry (suc l) pagetable) (page_entry l q) pages (i * pages) 0
              (λ r h.
                let here : page_entry (suc l) pagetable (i * pages + r) ≡ page_entry l q r =
                  table_entry i r pagetable small h ∙ rw valid refl in
                here ∙ ap (page_entry l q) (omega arith))
            ∙ sym (listed q))
      | inr missing ↦ rw missing (
          valid_entries_none (page_entry (suc l) pagetable) pages (i * pages) (λ r h.
            let none : page_entry (suc l) pagetable (i * pages + r) ≡ 0 =
              table_entry i r pagetable small h ∙ rw missing refl in
            ap (λ e. is_valid e) none))
    ]

    next_block :
        (n i pagetable : ℕ)
        → valid_entries (page_entry (suc l) pagetable) (suc n * pages) (i * pages)
          ≡ valid_entries (page_entry (suc l) pagetable) pages (i * pages)
            ++ valid_entries (page_entry (suc l) pagetable) (n * pages) ((i + 1) * pages)
    next_block n i pagetable =
        let f = page_entry (suc l) pagetable in
        let count : suc n * pages ≡ pages + n * pages = omega (arith, suc-mul n pages) in
        let start : i * pages + pages ≡ (i + 1) * pages = omega (arith, add-mul i 1 pages) in
        ap (λ x. valid_entries f x (i * pages)) count
        ∙ valid_entries-add f pages (n * pages) (i * pages)
        ∙ ap (λ x. valid_entries f pages (i * pages) ++ valid_entries f (n * pages) x) start

    upper_level :
        (n i pagetable : ℕ)
        → i + n ≤ 512
        → leaf_lines (printwalk_loop m (suc l) child n i pagetable)
          ≡ valid_entries (page_entry (suc l) pagetable) (n * pages) (i * pages)
    unfolding leaf_lines printwalk_loop valid_entries
    upper_level zero i pagetable h =
        ap (λ x. valid_entries (page_entry (suc l) pagetable) x (i * pages)) (sym (zero-mul pages))
    upper_level (suc n) i pagetable h =
        let q = pte2pa (load64 m (pagetable + 8 * i)) in
        let rest = upper_level n (i + 1) pagetable (omega arith) in
        let f = page_entry (suc l) pagetable in
        let above : (suc l == 0) ≡ false = ground arith in
        let behind = valid_entries f (n * pages) ((i + 1) * pages) in
        elim (Bool-cases (is_valid (load64 m (pagetable + 8 * i)))) [
          | inl valid ↦
              let first : valid_entries f pages (i * pages) ≡ leaf_lines (child q) =
                block i pagetable (omega arith) ∙ rw valid refl in
              rw (valid, above)
                (leaf_lines-append (child q) (printwalk_loop m (suc l) child n (i + 1) pagetable)
                  ∙ ap (λ x. leaf_lines (child q) ++ x) rest
                  ∙ ap (λ x. x ++ behind) (sym first)
                  ∙ sym (next_block n i pagetable))
          | inr missing ↦
              let first : valid_entries f pages (i * pages) ≡ [] =
                block i pagetable (omega arith) ∙ rw missing refl in
              rw missing (rest ∙ ap (λ x. x ++ behind) (sym first) ∙ sym (next_block n i pagetable))
        ]

  below_middle : (q i r : ℕ) → r < 512 → page_entry 0 q (i * 512 + r) ≡ page_entry 0 q r
  unfolding view_from px
  below_middle q i r h =
      let same : 4096 * (i * 512 + r) / 2 ^ 12 % 512 ≡ 4096 * r / 2 ^ 12 % 512 = omega arith in
      rw same refl

  below_top : (q i r : ℕ) → r < 262144 → page_entry 1 q (i * 262144 + r) ≡ page_entry 1 q r
  unfolding view_from px
  below_top q i r h =
      let same : 4096 * (i * 262144 + r) / 2 ^ 12 % 512 ≡ 4096 * r / 2 ^ 12 % 512 = omega arith in
      let middle : 4096 * (i * 262144 + r) / 2 ^ 21 % 512 ≡ 4096 * r / 2 ^ 21 % 512 = omega arith in
      rw (same, middle) refl

  index_middle : (i r : ℕ) → i < 512 → r < 512 → px 1 (4096 * (i * 512 + r)) ≡ i
  unfolding px
  index_middle i r small h = omega arith

  index_top : (i r : ℕ) → i < 512 → r < 262144 → px 2 (4096 * (i * 262144 + r)) ≡ i
  unfolding px
  index_top i r small h = omega arith

  printwalk_last : (q : ℕ) → leaf_lines (printwalk m 0 q) ≡ valid_entries (page_entry 0 q) 512 0
  unfolding printwalk
  printwalk_last q = last_level 512 0 q (omega arith)

  printwalk_middle :
      (q : ℕ) → leaf_lines (printwalk m 1 q) ≡ valid_entries (page_entry 1 q) 262144 0
  unfolding printwalk
  printwalk_middle q =
      upper_level 0 512 index_middle below_middle (printwalk m 0) printwalk_last 512 0 q
        (omega arith)

  -- The lines of `vmprint` for the last level show exactly the valid entries of the address space
  -- below the table, of the 2 ^ 27 pages below MAXVA, in the order of the virtual addresses.
  pub vmprint-valid_entries :
      (pagetable : ℕ)
      → leaf_lines (vmprint m pagetable)
        ≡ valid_entries (λ page. view m pagetable (4096 * page)) (2 ^ 27) 0
  unfolding vmprint printwalk
  vmprint-valid_entries pagetable =
      upper_level 1 262144 index_top below_top (printwalk m 1) printwalk_middle 512 0 pagetable
        (omega arith)
