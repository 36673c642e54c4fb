-- ===== src/Memory.antt =====
-- Physical memory as the kernel sees it through its direct map: a byte at every address. The C
-- library's `memset` and `memmove`, a 64-bit little-endian load (`*p` for a `uint64 *p`) and the
-- store that goes with it.
pub mod Words
use my_os_proj.Base.{ℕ, ◌+◌, ◌-◌, ◌*◌, ◌/◌, ◌%◌, ◌^◌, Bool, ◌&&◌, ltb, leb, ◌==◌, if◌then◌else◌}

abbrev pub Memory : Type 0
Memory = ℕ → ℕ

abbrev pub within : ℕ → ℕ → ℕ → Bool
within a n x = leb a x && ltb x (a + n)

unfoldable pub load64 : Memory → ℕ → ℕ
load64 m a =
    m a
    + m (a + 1) * 2 ^ 8
    + m (a + 2) * 2 ^ 16
    + m (a + 3) * 2 ^ 24
    + m (a + 4) * 2 ^ 32
    + m (a + 5) * 2 ^ 40
    + m (a + 6) * 2 ^ 48
    + m (a + 7) * 2 ^ 56

unfoldable pub store64 : Memory → ℕ → ℕ → Memory
store64 m a v x = if within a 8 x then v / 2 ^ (8 * (x - a)) % 2 ^ 8 else m x

unfoldable pub store8 : Memory → ℕ → ℕ → Memory
store8 m a v x = if a == x then v % 2 ^ 8 else m x

unfoldable pub store32 : Memory → ℕ → ℕ → Memory
store32 m a v x = if within a 4 x then v / 2 ^ (8 * (x - a)) % 2 ^ 8 else m x

unfoldable pub memset : Memory → ℕ → ℕ → ℕ → Memory
memset m dst c n x = if within dst n x then c % 2 ^ 8 else m x

unfoldable pub memmove : Memory → ℕ → ℕ → ℕ → Memory
memmove m dst src n x = if within dst n x then m (src + (x - dst)) else m x
