-- ===== src/User/Sleep.antt =====
-- lab1/sleep.c. `atoi`, of the C library of the system, is an argument.
use my_os_proj.Base.{ℕ, List, [], ◌∷◌}

-- What the program does before it exits: with the status 1 when it reports a wrong call, and else
-- with 0.
pub data Done : Type 0 where
  usage : Done
  slept : (duration : ℕ) → Done

module _ (atoi : List ℕ → ℕ) where
  pub main : (argv : List (List ℕ)) → Done
  main (name ∷ duration ∷ []) = Done.slept (atoi duration)
  main argv = Done.usage
