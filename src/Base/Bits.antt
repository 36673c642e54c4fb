-- ===== src/Base/Bits.antt =====
-- `bit_or` of a shifted number and a short one: the sum of the two.
use Prim.Native.Nat.{max, bit_or, digits, bit_or-bitwise}
use my_os_proj.Base.{
  ℕ, zero, suc, ◌+◌, ◌*◌, ◌/◌, ◌%◌, ◌^◌, ◌≤◌, ◌<◌, ◌≡◌, refl, sym, ap, ◌∙◌, arith, if◌then◌else◌,
  ◌==◌,
}
use native.Mathlib.Nat.{pow-suc, div-div-eq-div-mul}

-- The recursion on digits that `bit_or` stands for.
abbrev or_digits : ℕ → ℕ → ℕ → ℕ
or_digits n a b = digits (λ b. b) max n a b

or_digits_fuel : (n m a b : ℕ) → a ≤ n → a ≤ m → or_digits n a b ≡ or_digits m a b
or_digits_fuel zero zero a b p q = refl
or_digits_fuel zero (suc m) zero b p q = refl
or_digits_fuel zero (suc m) (suc a) b p q = absurd (omega arith)
or_digits_fuel (suc n) zero zero b p q = refl
or_digits_fuel (suc n) zero (suc a) b p q = absurd (omega arith)
or_digits_fuel (suc n) (suc m) zero b p q = refl
or_digits_fuel (suc n) (suc m) (suc a) b p q =
    omega (arith, or_digits_fuel n m (suc a / 2) (b / 2) (omega arith) (omega arith))

pub zero-bit_or : (b : ℕ) → bit_or 0 b ≡ b
zero-bit_or b = bit_or-bitwise 0 b

pub bit_or_step : (a b : ℕ) → bit_or a b ≡ bit_or (a / 2) (b / 2) * 2 + max (a % 2) (b % 2)
bit_or_step zero b = omega (arith, zero-bit_or b, zero-bit_or (b / 2))
bit_or_step (suc a) b = omega (
  arith,
  bit_or-bitwise (suc a) b,
  bit_or-bitwise (suc a / 2) (b / 2),
  or_digits_fuel a (suc a / 2) (suc a / 2) (b / 2) (omega arith) (omega arith),
)

bit_or-zero_fuel : (n a : ℕ) → a ≤ n → bit_or a 0 ≡ a
bit_or-zero_fuel n zero h = refl
bit_or-zero_fuel zero (suc a) h = absurd (omega arith)
bit_or-zero_fuel (suc n) (suc a) h =
    omega (arith, bit_or_step (suc a) 0, bit_or-zero_fuel n (suc a / 2) (omega arith))

pub bit_or-zero : (a : ℕ) → bit_or a 0 ≡ a
bit_or-zero a = bit_or-zero_fuel a a (omega arith)

pub bit_or-one : (a : ℕ) → bit_or a 1 ≡ a / 2 * 2 + 1
bit_or-one a = omega (arith, bit_or_step a 1, bit_or-zero (a / 2))

bit_or_double :
    (w : ℕ)
    → ((x y : ℕ) → y < w → bit_or (x * w) y ≡ x * w + y)
    → (x y : ℕ) → y < w * 2
    → bit_or (x * (w * 2)) y ≡ x * (w * 2) + y
bit_or_double w ih x y h =
    let even : x * (w * 2) ≡ x * w * 2 = omega arith in
    let half : x * (w * 2) / 2 ≡ x * w = omega arith in
    omega (
      arith,
      bit_or_step (x * (w * 2)) y,
      ap (λ a. bit_or a (y / 2)) half,
      ih x (y / 2) (omega arith),
    )

-- x << k | y, for y of k bits
pub bit_or_field : (k x y : ℕ) → y < 2 ^ k → bit_or (x * 2 ^ k) y ≡ x * 2 ^ k + y
bit_or_field zero x y h =
    omega
      (arith, bit_or-zero (x * 1), ap (λ b. bit_or (x * 1) b) (let e : y ≡ 0 = omega arith in e))
bit_or_field (suc k) x y h =
    rw pow-suc (bit_or_double (2 ^ k) (bit_or_field k) x y (rw pow-suc at h))

-- A bit of a number.
abbrev pub bit : ℕ → ℕ → ℕ
bit a j = a / 2 ^ j % 2

double : (i : ℕ) → 2 ^ suc i ≡ 2 * 2 ^ i
double i = omega (arith, pow-suc 2 i)

bit-half : (a j : ℕ) → bit a (suc j) ≡ bit (a / 2) j
bit-half a j =
    ap (λ d. a / d % 2) (double j) ∙ ap (λ q. q % 2) (sym (div-div-eq-div-mul a 2 (2 ^ j)))

pub bit-bit_or : (j a b : ℕ) → bit (bit_or a b) j ≡ max (bit a j) (bit b j)
bit-bit_or zero a b = omega (arith, bit_or_step a b)
bit-bit_or (suc j) a b =
    let half : bit_or a b / 2 ≡ bit_or (a / 2) (b / 2) = omega (arith, bit_or_step a b) in
    rw (bit-half (bit_or a b) j, half, bit-half a j, bit-half b j) (bit-bit_or j (a / 2) (b / 2))

pub bit_or-lt : (w a b : ℕ) → a < 2 ^ w → b < 2 ^ w → bit_or a b < 2 ^ w
bit_or-lt zero a b p q = let none : a ≡ 0 = omega arith in rw (none, zero-bit_or b) q
bit_or-lt (suc w) a b p q = omega (
  arith,
  double w,
  bit_or_step a b,
  bit_or-lt w (a / 2) (b / 2) (omega (arith, double w)) (omega (arith, double w)),
)

pow_half : (i : ℕ) → 2 ^ suc i / 2 ≡ 2 ^ i
pow_half i = omega (arith, double i)

zero_bit : (j : ℕ) → bit 0 j ≡ 0
zero_bit zero = refl
zero_bit (suc j) = bit-half 0 j ∙ zero_bit j

pub bit-pow : (i j : ℕ) → bit (2 ^ i) j ≡ (if i == j then 1 else 0)
bit-pow zero zero = refl
bit-pow zero (suc j) = bit-half 1 j ∙ zero_bit j ∙ ground arith
bit-pow (suc i) zero = ground (arith, double i)
bit-pow (suc i) (suc j) =
    bit-half (2 ^ suc i) j ∙ ap (λ x. bit x j) (pow_half i) ∙ bit-pow i j ∙ ground arith
