-- ===== src/Memory/Words.antt =====
-- What a 64-bit load reads after a store, a `memset` or a `memmove`.
use my_os_proj.Base.{ℕ, ◌+◌, ◌-◌, ◌*◌, ◌/◌, ◌%◌, ◌^◌, ◌≤◌, ◌<◌, ◌≡◌, ◌⊎◌, true, subst, arith}
use native.Mathlib.Nat.{add-zero}
use my_os_proj.Memory.{Memory, within, load64, store64, memset, memmove}

-- A load depends on its eight bytes only.
pub load64_cong :
    (m g : Memory) (a : ℕ) → ((i : ℕ) → i < 8 → g (a + i) ≡ m (a + i)) → load64 g a ≡ load64 m a
unfolding load64
load64_cong m g a h = omega (
  arith,
  let first : g a ≡ m a = subst (λ x. g x ≡ m x) (add-zero a) (h 0 (omega arith)) in first,
  h 1 (omega arith),
  h 2 (omega arith),
  h 3 (omega arith),
  h 4 (omega arith),
  h 5 (omega arith),
  h 6 (omega arith),
  h 7 (omega arith),
)

-- The bytes that a store and a `memset` leave.
store64_byte : (m : Memory) (a v i : ℕ) → i < 8 → store64 m a v (a + i) ≡ v / 2 ^ (8 * i) % 2 ^ 8
unfolding store64
store64_byte m a v i h =
    let offset : a + i - a ≡ i = omega arith in
    let inside : within a 8 (a + i) ≡ true = ground arith in rw (inside, offset)

memset_byte : (m : Memory) (p c n x : ℕ) → p ≤ x → x < p + n → memset m p c n x ≡ c % 2 ^ 8
unfolding memset
memset_byte m p c n x lo hi = ground arith

pub load64-store64_self : (m : Memory) (a v : ℕ) → v < 2 ^ 64 → load64 (store64 m a v) a ≡ v
unfolding load64
load64-store64_self m a v h = omega (
  arith,
  let first : store64 m a v a ≡ v / 2 ^ (8 * 0) % 2 ^ 8 =
        subst (λ x. store64 m a v x ≡ v / 2 ^ (8 * 0) % 2 ^ 8) (add-zero a)
          (byte 0 (omega arith)) in
      first,
  byte 1 (omega arith),
  byte 2 (omega arith),
  byte 3 (omega arith),
  byte 4 (omega arith),
  byte 5 (omega arith),
  byte 6 (omega arith),
  byte 7 (omega arith),
)
  where
    byte : (i : ℕ) → i < 8 → store64 m a v (a + i) ≡ v / 2 ^ (8 * i) % 2 ^ 8
    byte = store64_byte m a v

pub load64-store64_ne :
    (m : Memory) (a b v : ℕ) → (a + 8 ≤ b) ⊎ (b + 8 ≤ a) → load64 (store64 m a v) b ≡ load64 m b
unfolding store64
load64-store64_ne m a b v apart = load64_cong _ _ b (λ i h. ground arith)

pub load64-memset_out :
    (m : Memory) (p c n a : ℕ) → (a + 8 ≤ p) ⊎ (p + n ≤ a) → load64 (memset m p c n) a ≡ load64 m a
unfolding memset
load64-memset_out m p c n a apart = load64_cong _ _ a (λ i h. ground arith)

pub load64-memmove_out :
    (m : Memory) (p s n a : ℕ) → (a + 8 ≤ p) ⊎ (p + n ≤ a) → load64 (memmove m p s n) a ≡ load64 m a
unfolding memmove
load64-memmove_out m p s n a apart = load64_cong _ _ a (λ i h. ground arith)

-- A page that is cleared reads as 0.
pub load64-memset_zero :
    (m : Memory) (p n a : ℕ) → p ≤ a → a + 8 ≤ p + n → load64 (memset m p 0 n) a ≡ 0
unfolding load64
load64-memset_zero m p n a lo hi = omega (
  arith,
  byte a (omega arith) (omega arith),
  byte (a + 1) (omega arith) (omega arith),
  byte (a + 2) (omega arith) (omega arith),
  byte (a + 3) (omega arith) (omega arith),
  byte (a + 4) (omega arith) (omega arith),
  byte (a + 5) (omega arith) (omega arith),
  byte (a + 6) (omega arith) (omega arith),
  byte (a + 7) (omega arith) (omega arith),
)
  where
    byte : (x : ℕ) → p ≤ x → x < p + n → memset m p 0 n x ≡ 0
    byte = memset_byte m p 0 n

-- `g` agrees with `m` at every address outside the page at `p`.
abbrev pub SameOutside : ℕ → Memory → Memory → Type 0
SameOutside p m g = (x : ℕ) → (x < p) ⊎ (p + 4096 ≤ x) → g x ≡ m x

pub load64-SameOutside :
    (m g : Memory) (p a : ℕ)
    → SameOutside p m g
    → (a + 8 ≤ p) ⊎ (p + 4096 ≤ a)
    → load64 g a ≡ load64 m a
load64-SameOutside m g p a same apart = load64_cong m g a (λ i h. same (a + i) (omega arith))

pub memset-SameOutside : (m : Memory) (p c : ℕ) → SameOutside p m (memset m p c 4096)
unfolding memset
memset-SameOutside m p c x out = ground arith

pub memmove-SameOutside : (m : Memory) (p s : ℕ) → SameOutside p m (memmove m p s 4096)
unfolding memmove
memmove-SameOutside m p s x out = ground arith

pub store64-SameOutside :
    (m : Memory) (p a v : ℕ) → p ≤ a → a + 8 ≤ p + 4096 → SameOutside p m (store64 m a v)
unfolding store64
store64-SameOutside m p a v lo hi x out = ground arith
