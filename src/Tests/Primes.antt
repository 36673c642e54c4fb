-- ===== src/Tests/Primes.antt =====
-- The sieve with the limit of lab1/primes.c and pipes of 512 bytes.
use my_os_proj.Base.{ℕ, ◌≡◌, refl, arith, true, [], ◌∷◌}
use my_os_proj.User.Primes.{finished, linear_pipe, sift, last_read, count_up, main}
use my_os_proj.User.Primes.Sieve.{Prints, primes_from, main-Prints}

main-Prints_example :
    Prints 128 0 (λ _. true) (λ n. refl) (main 128 0 (λ _. true) 35) (primes_from 2 34)
main-Prints_example =
    main-Prints 128 0 (λ _. true) (λ n. refl) 35 (omega arith) (omega arith) (omega arith)

-- With the limit of the source no process is left with nothing to read.
main_source :
    (junk : ℕ)
    → main 128 junk (λ _. true) 35
      ≡ finished (2 ∷ 3 ∷ 5 ∷ 7 ∷ 11 ∷ 13 ∷ 17 ∷ 19 ∷ 23 ∷ 29 ∷ 31 ∷ [])
unfolding main linear_pipe sift last_read count_up
main_source junk = refl

-- A process whose numbers are all multiples of its first still forks, and the child prints junk.
multiples_only :
    (junk : ℕ) → linear_pipe 128 junk (λ _. true) 5 (2 ∷ 4 ∷ []) ≡ finished (2 ∷ junk ∷ [])
unfolding linear_pipe sift last_read
multiples_only junk = refl
