-- ===== src/Pte.antt =====
-- Page-table entries and virtual addresses of Sv39, as lab3/vm.c describes them: the macros `PX`,
-- `PA2PTE` and `PTE2PA` that it quotes, and the flag bits of the hardware's format.
pub mod Laws
use Prim.Native.Nat.{bit_or}
use my_os_proj.Base.{ℕ, ◌+◌, ◌*◌, ◌/◌, ◌%◌, ◌^◌, Bool, ◌==◌}
use my_os_proj.Kernel.{u64}

-- `((uint64) va >> (12 + 9 * level)) & 0x1ff`
unfoldable pub px : ℕ → ℕ → ℕ
px level va = va / 2 ^ (12 + 9 * level) % 512

-- `((uint64) pa >> 12) << 10`
unfoldable pub pa2pte : ℕ → ℕ
pa2pte pa = u64 (pa / 2 ^ 12 * 2 ^ 10)

-- `(pte >> 10) << 12`
unfoldable pub pte2pa : ℕ → ℕ
pte2pa pte = u64 (pte / 2 ^ 10 * 2 ^ 12)

-- `pte & (1 << i)`, as a condition
abbrev pub flag : ℕ → ℕ → Bool
flag i pte = pte / 2 ^ i % 2 == 1

abbrev pub pte_v : ℕ
pte_v = 1

abbrev pub pte_r : ℕ
pte_r = 2

abbrev pub pte_w : ℕ
pte_w = 4

abbrev pub pte_x : ℕ
pte_x = 8

abbrev pub pte_u : ℕ
pte_u = 16

abbrev pub is_valid : ℕ → Bool
is_valid pte = flag 0 pte

abbrev pub is_user : ℕ → Bool
is_user pte = flag 4 pte

abbrev pub is_accessed : ℕ → Bool
is_accessed pte = flag 6 pte

-- `PTE_FLAGS(pte)`: the ten flag bits
abbrev pub pte_flags : ℕ → ℕ
pte_flags pte = pte % 2 ^ 10

-- `PA2PTE(pa) | perm | PTE_V`
unfoldable pub leaf : ℕ → ℕ → ℕ
leaf pa perm = bit_or (bit_or (pa2pte pa) perm) pte_v

-- `PA2PTE(pagetable) | PTE_V`
unfoldable pub branch : ℕ → ℕ
branch pa = bit_or (pa2pte pa) pte_v
