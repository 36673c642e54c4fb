-- ===== src/Pte/Laws.antt =====
-- The fields of the entries that the kernel writes.
use my_os_proj.Base.{ℕ, ◌+◌, ◌*◌, ◌/◌, ◌%◌, ◌^◌, ◌<◌, ◌≡◌, true, arith}
use my_os_proj.Base.Bits.{bit_or_field, bit_or-one}
use my_os_proj.Kernel.{u64, maxva}
use my_os_proj.Pte.{px, pa2pte, pte2pa, is_valid, pte_flags, leaf, branch}

pub px-lt : (level va : ℕ) → px level va < 512
unfolding px
px-lt level va = omega arith

-- Below `maxva` the three indices determine the page of a virtual address.
pub page_of_px :
    (va wa : ℕ)
    → va < maxva
    → wa < maxva
    → px 0 va ≡ px 0 wa
    → px 1 va ≡ px 1 wa
    → px 2 va ≡ px 2 wa
    → va / 4096 ≡ wa / 4096
unfolding px
page_of_px va wa hv hw e f g = omega arith

pub px_of_page :
    (va wa : ℕ)
    → va / 4096 ≡ wa / 4096
    → (px 0 va ≡ px 0 wa) × (px 1 va ≡ px 1 wa) × (px 2 va ≡ px 2 wa)
unfolding px
px_of_page va wa e = omega arith

-- The value of a leaf entry for an address of 56 bits.
pub leaf-eq :
    (pa perm : ℕ) → pa < 2 ^ 56 → perm < 1024 → leaf pa perm ≡ pa / 4096 * 1024 + perm / 2 * 2 + 1
unfolding leaf pa2pte
leaf-eq pa perm hp hq =
    let short : u64 (pa / 2 ^ 12 * 2 ^ 10) ≡ pa / 4096 * 2 ^ 10 = omega arith in
    rw (short, bit_or_field 10 (pa / 4096) perm hq, bit_or-one) (omega arith)

pub branch-eq : (pa : ℕ) → pa < 2 ^ 56 → branch pa ≡ pa / 4096 * 1024 + 1
unfolding branch pa2pte
branch-eq pa hp =
    let short : u64 (pa / 2 ^ 12 * 2 ^ 10) ≡ pa / 4096 * 1024 = omega arith in
    rw (short, bit_or-one) (omega arith)

-- A branch entry is valid and leads to the page; so does a leaf, whose flags are `perm | PTE_V`.
pub branch_fields :
    (pa : ℕ)
    → pa < 2 ^ 56
    → pa % 4096 ≡ 0
    → (is_valid (branch pa) ≡ true) × (pte2pa (branch pa) ≡ pa) × (branch pa < 2 ^ 64)
unfolding pte2pa
branch_fields pa h al = ground (arith, branch-eq pa h)

pub leaf_fields :
    (pa perm : ℕ)
    → pa < 2 ^ 56
    → pa % 4096 ≡ 0
    → perm < 1024
    → (is_valid (leaf pa perm) ≡ true)
      × (pte2pa (leaf pa perm) ≡ pa)
      × (leaf pa perm < 2 ^ 64)
      × (pte_flags (leaf pa perm) ≡ perm / 2 * 2 + 1)
unfolding pte2pa
leaf_fields pa perm h al hq = ground (arith, leaf-eq pa perm h hq)
