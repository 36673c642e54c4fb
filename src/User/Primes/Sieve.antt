-- ===== src/User/Primes/Sieve.antt =====
-- The sieve prints the numbers that trial division finds.
use my_os_proj.Base.{
  ℕ, zero, suc, ◌+◌, ◌-◌, ◌%◌, ◌^◌, ◌<◌, ◌≤◌, ◌≡◌, ◌⊎◌, inl, inr, refl, sym, ◌∙◌, ap, subst, arith,
  Bool, true, false, ltb, leb, ◌==◌, List, [], ◌∷◌, ◌++◌, length, Bool-cases,
}
use my_os_proj.User.Primes.{
  Outcome, finished, print, minus_one_int, is_multiple, sift, last_read, count_up, linear_pipe,
  main,
}
use my_os_proj.User.Primes.Trial.{
  no_divisor, is_prime, keep, keep-cons_true, keep-cons_false, no_divisor-suc,
  no_divisor-suc_composite, no_divisor_prefix,
}

keep_cong : (p q : ℕ → Bool) (xs : List ℕ) → ((x : ℕ) → p x ≡ q x) → keep p xs ≡ keep q xs
unfolding keep
keep_cong p q [] h = refl
keep_cong p q (x ∷ xs) h = rw (h x, keep_cong p q xs h) refl

-- On ints that are not negative, the remainder is that of the numbers.
is_multiple_eq :
    (x num : ℕ) → x < 2 ^ 31 → 2 ≤ num → num < 2 ^ 31 → is_multiple x num ≡ (x % num == 0)
is_multiple_eq x num lx two ln =
    let positive : (num == 0) ≡ false = ground arith in
    let x_small : ltb x (2 ^ 31) ≡ true = ground arith in
    let num_small : ltb num (2 ^ 31) ≡ true = ground arith in rw (positive, x_small, num_small) refl

-- The round of a process on numbers that the earlier ones do not divide.
sift-keep :
    (b rounds i : ℕ)
    → 2 ≤ b
    → b < 2 ^ 31
    → i + rounds ≤ 2 ^ 31
    → sift b (keep (no_divisor b) (count_up rounds i))
      ≡ keep (no_divisor (suc b)) (count_up rounds i)
unfolding sift keep count_up
sift-keep b zero i two small low = refl
sift-keep b (suc rounds) i two small low = elim (Bool-cases (no_divisor b i)) [
  | inl t ↦
      rw (t, no_divisor-suc b i two, t, is_multiple_eq i b (omega arith) two small)
        (rw (sift-keep b rounds (i + 1) two small (omega arith)) refl)
  | inr f ↦ rw (f, no_divisor-suc b i two, f) (sift-keep b rounds (i + 1) two small (omega arith))
]

-- The last number that is read is one of those that were written.
last_read_bound :
    (p : ℕ → Bool) (rounds i d m : ℕ)
    → i + rounds ≤ m
    → (keep p (count_up rounds i) ≡ []) ⊎ (last_read d (keep p (count_up rounds i)) < m)
unfolding keep count_up last_read
last_read_bound p zero i d m h = inl refl
last_read_bound p (suc rounds) i d m h = elim (Bool-cases (p i)) [
  | inl t ↦ rw t (
      inr (elim (last_read_bound p rounds (i + 1) i m (omega arith)) [
        | inl none_left ↦ rw none_left (omega arith)
        | inr lt ↦ lt
      ]))
  | inr f ↦ rw f (last_read_bound p rounds (i + 1) d m (omega arith))
]

-- Where the first test keeps nothing, a stricter one keeps nothing.
keep_none :
    (p q : ℕ → Bool) (rounds i : ℕ)
    → ((x : ℕ) → i ≤ x → q x ≡ true → p x ≡ true)
    → keep p (count_up rounds i) ≡ []
    → keep q (count_up rounds i) ≡ []
unfolding keep count_up
keep_none p q zero i h e = refl
keep_none p q (suc rounds) i h e = elim (Bool-cases (p i)) [
  | inl t ↦ absurd (ground arith)
  | inr f ↦ elim (Bool-cases (q i)) [
    | inl u ↦ let v : p i ≡ true = h i (omega arith) u in cc
    | inr u ↦ rw u (keep_none p q rounds (i + 1) (λ x le. h x (omega arith)) (ground (arith, e, f)))
  ]
]

length-sift : (n : ℕ) (xs : List ℕ) → length (sift n xs) ≤ length xs
unfolding sift
length-sift n [] = omega arith
length-sift n (x ∷ xs) = ground (arith, length-sift n xs)

length-keep : (p : ℕ → Bool) (rounds i : ℕ) → length (keep p (count_up rounds i)) ≤ rounds
unfolding keep count_up
length-keep p zero i = omega arith
length-keep p (suc rounds) i = ground (arith, length-keep p rounds (i + 1))

-- The numbers that reach the process for the divisor `b`, and those of them that are prime.
abbrev arrived : (b rounds : ℕ) → List ℕ
arrived b rounds = keep (no_divisor b) (count_up rounds b)

abbrev pub primes_from : (b rounds : ℕ) → List ℕ
primes_from b rounds = keep is_prime (count_up rounds b)

is_prime_eq : (b : ℕ) → 2 ≤ b → is_prime b ≡ no_divisor b b
is_prime_eq b two = let big : ltb 1 b ≡ true = ground arith in rw big refl

arrived-composite :
    (b rounds : ℕ)
    → 2 ≤ b
    → no_divisor b b ≡ false
    → (arrived b (suc rounds) ≡ arrived (b + 1) rounds)
      × (primes_from b (suc rounds) ≡ primes_from (b + 1) rounds)
unfolding count_up
arrived-composite b rounds two h =
    let next : suc b ≡ b + 1 = omega arith in
    (
      keep-cons_false (no_divisor b) b (count_up rounds (b + 1)) h
          ∙ keep_cong (no_divisor b) (no_divisor (b + 1)) (count_up rounds (b + 1)) (λ x. sym (
              subst (λ c. no_divisor c x ≡ no_divisor b x) next
                (no_divisor-suc_composite b x two h))),
      keep-cons_false is_prime b (count_up rounds (b + 1)) (is_prime_eq b two ∙ h),
    )

-- What the process of a prime reads after it.
abbrev behind : (b rounds : ℕ) → List ℕ
behind b rounds = keep (no_divisor b) (count_up rounds (b + 1))

arrived-prime :
    (b rounds : ℕ)
    → 2 ≤ b
    → b + 1 + rounds ≤ 2 ^ 31
    → no_divisor b b ≡ true
    → (arrived b (suc rounds) ≡ b ∷ behind b rounds)
      × (sift b (behind b rounds) ≡ arrived (b + 1) rounds)
      × (primes_from b (suc rounds) ≡ b ∷ primes_from (b + 1) rounds)
unfolding count_up
arrived-prime b rounds two low h =
    let next : suc b ≡ b + 1 = omega arith in
    (
      keep-cons_true (no_divisor b) b (count_up rounds (b + 1)) h,
      sift-keep b rounds (b + 1) two (omega arith) low
          ∙ ap (λ c. keep (no_divisor c) (count_up rounds (b + 1))) next,
      keep-cons_true is_prime b (count_up rounds (b + 1)) (is_prime_eq b two ∙ h),
    )

module _ (capacity junk : ℕ) (can_fork : ℕ → Bool) (forks : (n : ℕ) → can_fork n ≡ true) where
  -- What the processes print from a list on: some numbers, and perhaps the junk of a process with
  -- nothing to read.
  abbrev pub Prints : Outcome → List ℕ → Type 0
  Prints o ps = (o ≡ finished ps) ⊎ (o ≡ finished (ps ++ junk ∷ []))

  Prints-print : (n : ℕ) (o : Outcome) (ps : List ℕ) → Prints o ps → Prints (print n o) (n ∷ ps)
  Prints-print n o ps (inl e) = inl (ap (print n) e)
  Prints-print n o ps (inr e) = inr (ap (print n) e)

  -- A process with nothing to read.
  nothing_left :
      (fuel : ℕ) → linear_pipe capacity junk can_fork (suc fuel) [] ≡ finished (junk ∷ [])
  unfolding linear_pipe sift last_read
  nothing_left fuel = let room : ltb capacity 0 ≡ false = ground arith in rw room refl

  -- The last process.
  last_one :
      (fuel n : ℕ) → linear_pipe capacity junk can_fork (suc fuel) (n ∷ []) ≡ finished (n ∷ [])
  unfolding linear_pipe sift last_read
  last_one fuel n = let room : ltb capacity 0 ≡ false = ground arith in rw room refl

  passes_on :
      (fuel n x : ℕ) (xs : List ℕ)
      → length (sift n (x ∷ xs)) ≤ capacity
      → last_read minus_one_int (x ∷ xs) < minus_one_int
      → linear_pipe capacity junk can_fork (suc fuel) (n ∷ x ∷ xs)
        ≡ print n (linear_pipe capacity junk can_fork fuel (sift n (x ∷ xs)))
  unfolding linear_pipe
  passes_on fuel n x xs room other =
      let fits : ltb capacity (length (sift n (x ∷ xs))) ≡ false = ground arith in
      let more : (last_read minus_one_int (x ∷ xs) == minus_one_int) ≡ false = ground arith in
      rw (fits, more, forks n) refl

  abbrev run : (fuel : ℕ) → List ℕ → Outcome
  run fuel xs = linear_pipe capacity junk can_fork fuel xs

  -- The process of a prime, by what it reads after it; `later` is about the processes behind.
  prime_step :
      (rounds b fuel : ℕ) (rest : List ℕ)
      → 2 ≤ b
      → rounds ≤ capacity
      → b + 1 + rounds ≤ 2 ^ 31
      → rest ≡ behind b rounds
      → sift b (behind b rounds) ≡ arrived (b + 1) rounds
      → Prints (run fuel (arrived (b + 1) rounds)) (primes_from (b + 1) rounds)
      → Prints (run (suc fuel) (b ∷ rest)) (b ∷ primes_from (b + 1) rounds)
  prime_step rounds b fuel [] two room low same sifted later =
      let no_more : primes_from (b + 1) rounds ≡ [] =
        keep_none (no_divisor b) is_prime rounds (b + 1)
          (λ x le h. no_divisor_prefix b x x (omega arith) (ground (arith, h))) (sym same) in
      inl (last_one fuel b ∙ ap (λ ps. finished (b ∷ ps)) (sym no_more))
  prime_step rounds b fuel (x ∷ xs) two room low same sifted later =
      let passed : sift b (x ∷ xs) ≡ arrived (b + 1) rounds = ap (sift b) same ∙ sifted in
      let fits : length (sift b (x ∷ xs)) ≤ capacity =
        omega (arith, ap length passed, length-keep (no_divisor (b + 1)) rounds (b + 1)) in
      let other : last_read minus_one_int (x ∷ xs) < minus_one_int =
        elim (last_read_bound (no_divisor b) rounds (b + 1) minus_one_int minus_one_int
          (omega arith)) [
            | inl none_left ↦ let no : x ∷ xs ≡ [] = same ∙ none_left in cc
            | inr lt ↦ subst (λ ys. last_read minus_one_int ys < minus_one_int) (sym same) lt
          ] in
      subst (λ o. Prints o (b ∷ primes_from (b + 1) rounds))
        (sym (passes_on fuel b x xs fits other))
        (Prints-print b (run fuel (sift b (x ∷ xs))) (primes_from (b + 1) rounds)
          (subst (λ ys. Prints (run fuel ys) (primes_from (b + 1) rounds)) (sym passed) later))

  linear_pipe-Prints :
      (rounds b fuel : ℕ)
      → 2 ≤ b
      → rounds ≤ capacity
      → b + rounds ≤ 2 ^ 31
      → length (arrived b rounds) < fuel
      → Prints (run fuel (arrived b rounds)) (primes_from b rounds)
  unfolding keep count_up
  linear_pipe-Prints rounds b zero two room low enough = absurd (omega arith)
  linear_pipe-Prints zero b (suc fuel) two room low enough = inr (nothing_left fuel)
  linear_pipe-Prints (suc rounds) b (suc fuel) two room low enough =
      elim (Bool-cases (no_divisor b b)) [
        | inr h ↦
            let (same, primes) = arrived-composite b rounds two h in
            subst (λ ps. Prints (run (suc fuel) (arrived b (suc rounds))) ps) (sym primes)
              (subst (λ xs. Prints (run (suc fuel) xs) (primes_from (b + 1) rounds)) (sym same)
                (linear_pipe-Prints rounds (b + 1) (suc fuel) (omega arith) (omega arith)
                  (omega arith) (omega (arith, ap length same))))
        | inl h ↦
            let (same, sifted, primes) = arrived-prime b rounds two (omega arith) h in
            let fewer : length (arrived (b + 1) rounds) < fuel =
              omega (arith, ap length same, ap length sifted, length-sift b (behind b rounds)) in
            subst (λ ps. Prints (run (suc fuel) (arrived b (suc rounds))) ps) (sym primes)
              (subst (λ xs. Prints (run (suc fuel) xs) (b ∷ primes_from (b + 1) rounds)) (sym same)
                (prime_step rounds b fuel (behind b rounds) two (omega arith) (omega arith) refl
                  sifted
                  (linear_pipe-Prints rounds (b + 1) fuel (omega arith) (omega arith) (omega arith)
                    fewer)))
      ]

  length-count_up : (rounds i : ℕ) → length (count_up rounds i) ≡ rounds
  unfolding count_up
  length-count_up zero i = refl
  length-count_up (suc rounds) i = omega (arith, length-count_up rounds (i + 1))

  -- No number has a divisor below 2 that counts.
  all_arrive : (rounds i : ℕ) → keep (no_divisor 2) (count_up rounds i) ≡ count_up rounds i
  unfolding keep count_up no_divisor
  all_arrive zero i = refl
  all_arrive (suc rounds) i = ap (λ xs. i ∷ xs) (all_arrive rounds (i + 1))

  -- Suppose that every `fork` succeeds. For every limit from 1 on and below 2^31 - 1, the largest
  -- int, and pipes that hold all the numbers up to it, the processes end, and print the numbers up
  -- to the limit that trial division finds to be prime, in ascending order; a last line may follow
  -- with whatever was in the memory of a process that had nothing to read.
  pub main-Prints :
      (limit : ℕ)
      → 0 < limit
      → limit ≤ capacity + 1
      → limit < 2 ^ 31 - 1
      → Prints (main capacity junk can_fork limit) (primes_from 2 (limit - 1))
  unfolding main
  main-Prints limit some room low =
      let fits : ltb capacity (length (count_up (limit - 1) 2)) ≡ false =
        ground (arith, length-count_up (limit - 1) 2) in
      let counts : leb (2 ^ 31 - 1) limit ≡ false = ground arith in
      let all : arrived 2 (limit - 1) ≡ count_up (limit - 1) 2 = all_arrive (limit - 1) 2 in
      rw (fits, counts)
        (subst (λ xs. Prints (run (suc (length xs)) xs) (primes_from 2 (limit - 1))) all
          (linear_pipe-Prints (limit - 1) 2 (suc (length (arrived 2 (limit - 1)))) (omega arith)
            (omega arith) (omega arith) (omega arith)))
