-- ===== src/User/Primes/Trial.antt =====
-- Primality by trial division.
use native.Mathlib.Nat.{dvd_trans, dvd_of_mod-eq-zero, mod-eq-zero_of_dvd}
use my_os_proj.Base.{
  ℕ, zero, suc, ◌%◌, ◌<◌, ◌≤◌, ◌≡◌, ap, inl, inr, refl, arith, Bool, true, false, not, ◌&&◌, ◌||◌,
  ltb, ◌==◌, List, [], ◌∷◌, if◌then◌else◌, Bool-cases,
}

-- No number from 2 on and below `b` divides `x`.
unfoldable pub no_divisor : (b x : ℕ) → Bool
no_divisor zero x = true
no_divisor (suc d) x = no_divisor d x && (ltb d 2 || not (x % d == 0))

abbrev pub is_prime : ℕ → Bool
is_prime p = ltb 1 p && no_divisor p p

unfoldable pub keep : (ℕ → Bool) → List ℕ → List ℕ
keep p [] = []
keep p (x ∷ xs) = let rest = keep p xs in if p x then x ∷ rest else rest

divisor_here : (c x d : ℕ) → 2 ≤ d → d ≡ c → x % d ≡ 0 → no_divisor (suc c) x ≡ false
unfolding no_divisor
divisor_here c x d two same e =
    let small : ltb c 2 ≡ false = ground arith in
    let divides : (x % c == 0) ≡ true = ground (arith, ap (λ k. x % k) same) in
    elim (Bool-cases (no_divisor c x)) [ inl t ↦ rw (t, small, divides) refl | inr f ↦ rw f refl ]

-- A divisor below `b`.
pub divisor_below : (b x d : ℕ) → 2 ≤ d → d < b → x % d ≡ 0 → no_divisor b x ≡ false
unfolding no_divisor
divisor_below zero x d two lt e = absurd (omega arith)
divisor_below (suc c) x d two lt e = elim (Bool-cases (d == c)) [
  | inl here ↦ divisor_here c x d two (ground (arith, here)) e
  | inr below ↦ rw (divisor_below c x d two (ground (arith, below)) e) refl
]

-- The divisor that a test finds.
find_divisor : (b x : ℕ) → no_divisor b x ≡ false → (d : ℕ) × ((2 ≤ d) × (d < b) × (x % d ≡ 0))
unfolding no_divisor
find_divisor zero x h = cc
find_divisor (suc c) x h = elim (Bool-cases (no_divisor c x)) [
  | inl t ↦ (c, (ground (arith, t), omega arith, ground (arith, t)))
  | inr f ↦ let (d, (two, lt, e)) = find_divisor c x f in (d, (two, omega arith, e))
]

-- What a composite number divides has a smaller divisor.
pub no_divisor-composite : (b x : ℕ) → no_divisor b b ≡ false → x % b ≡ 0 → no_divisor b x ≡ false
no_divisor-composite b x h e =
    let (d, (two, lt, e')) = find_divisor b b h in
    divisor_below b x d two lt (
      mod-eq-zero_of_dvd d {n = x}
        (dvd_trans _ (dvd_of_mod-eq-zero d {n = b} e') (dvd_of_mod-eq-zero b {n = x} e)))

-- The test with one more divisor.
pub no_divisor-suc : (b x : ℕ) → 2 ≤ b → no_divisor (suc b) x ≡ (no_divisor b x && not (x % b == 0))
unfolding no_divisor
no_divisor-suc b x two = let big : ltb b 2 ≡ false = ground arith in rw big refl

-- After a composite number the test is the same.
pub no_divisor-suc_composite :
    (b x : ℕ) → 2 ≤ b → no_divisor b b ≡ false → no_divisor (suc b) x ≡ no_divisor b x
no_divisor-suc_composite b x two h = elim (Bool-cases (x % b == 0)) [
  | inl divides ↦
      rw (no_divisor-suc b x two, no_divisor-composite b x h (ground (arith, divides))) refl
  | inr other ↦ elim (Bool-cases (no_divisor b x)) [
    | inl t ↦ rw (no_divisor-suc b x two, other, t) refl
    | inr f ↦ rw (no_divisor-suc b x two, f) refl
  ]
]

-- A prime passes the tests up to itself.
pub no_divisor_prefix : (b c x : ℕ) → b ≤ c → no_divisor c x ≡ true → no_divisor b x ≡ true
no_divisor_prefix b c x le h = elim (Bool-cases (no_divisor b x)) [
  | inl t ↦ t
  | inr f ↦
      let (d, (two, lt, e)) = find_divisor b x f in
      let no : no_divisor c x ≡ false = divisor_below c x d two (omega arith) e in cc
]

-- `keep` at a list.
pub keep-cons_true :
    (p : ℕ → Bool) (x : ℕ) (xs : List ℕ) → p x ≡ true → keep p (x ∷ xs) ≡ x ∷ keep p xs
unfolding keep
keep-cons_true p x xs e = rw e refl

pub keep-cons_false :
    (p : ℕ → Bool) (x : ℕ) (xs : List ℕ) → p x ≡ false → keep p (x ∷ xs) ≡ keep p xs
unfolding keep
keep-cons_false p x xs e = rw e refl
