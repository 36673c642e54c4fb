-- ===== src/User/TraceCommand.antt =====
-- lab2/trace.c: the program that runs a command with its system calls traced. `atoi`, of the C
-- library of the system, and the system calls are arguments; MAXARG is a constant of the kernel.
use my_os_proj.Base.{
  ℕ, zero, suc, ◌+◌, ◌-◌, ◌≤◌, ◌<◌, ◌≡◌, refl, arith, Bool, true, ◌&&◌, ltb, leb, ◌==◌, none, some,
  List, [], ◌∷◌, get_elem?, if◌then◌else◌,
}

-- An entry of `nargv`: an argument, or what was on the stack before the array.
pub data Entry : Type 0 where
  arg : List ℕ → Entry
  rubbish : ℕ → Entry

abbrev pub Array : Type 0
Array = ℕ → Entry

abbrev assign : Array → ℕ → Entry → Array
assign a i x j = if i == j then x else a j

-- The program reports a wrong call, or that the call of `trace` failed, and exits with the status
-- 1; or it calls `exec`, and exits with 0 if that returns.
pub data Done : Type 0 where
  usage trace_failed : (name : List ℕ) → Done
  exec : (nargv : Array) → Done

-- argv[1][0], which is the final 0 of an empty argument.
abbrev pub first_byte : List ℕ → ℕ
first_byte [] = 0
first_byte (c ∷ cs) = c

-- Not (argv[1][0] < '0' || argv[1][0] > '9')
abbrev pub starts_with_digit : List ℕ → Bool
starts_with_digit s = leb b'0' (first_byte s) && leb (first_byte s) b'9'

-- What `nargv` holds at last: the argument of the command, where there is one and it fits.
abbrev pub expected : (max_arg : ℕ) (command : List (List ℕ)) → Array → Array
expected max_arg command junk k =
    if ltb (k + 2) max_arg
    then elim (get_elem? command k) [ none ↦ junk k | some x ↦ Entry.arg x ]
    else junk k

module _ (max_arg : ℕ) (atoi : List ℕ → ℕ) (trace : ℕ → Bool) where
  -- The loop, from the argument `i` on; `rest` are those that are left.
  unfoldable pub copy_args : (i : ℕ) (rest : List (List ℕ)) → Array → Array
  copy_args i [] nargv = nargv
  copy_args i (x ∷ rest) nargv =
      let later = copy_args (i + 1) rest (assign nargv (i - 2) (Entry.arg x)) in
      if ltb i max_arg then later else nargv

  -- `trace` says whether the call succeeds; `junk` is what is on the stack.
  pub main : (junk : Array) (argv : List (List ℕ)) → Done
  main junk (name ∷ mask ∷ first ∷ more) =
      if starts_with_digit mask
      then (if trace (atoi mask)
          then Done.exec (copy_args 2 (first ∷ more) junk)
          else Done.trace_failed name)
      else Done.usage name
  main junk (name ∷ argv) = Done.usage name
  -- Without any argument argv[0] is the null pointer.
  main junk [] = Done.usage []

  copy_args_before :
      (i : ℕ) (rest : List (List ℕ)) (a : Array) (k : ℕ) → k + 2 < i → copy_args i rest a k ≡ a k
  unfolding copy_args
  copy_args_before i [] a k h = refl
  copy_args_before i (x ∷ rest) a k h =
      ground (arith, copy_args_before (i + 1) rest (assign a (i - 2) (Entry.arg x)) k (omega arith))

  abbrev entry : List (List ℕ) → (m : ℕ) → Entry → Entry
  entry rest m old = elim (get_elem? rest m) [ none ↦ old | some x ↦ Entry.arg x ]

  copy_args_at :
      (i : ℕ) (rest : List (List ℕ)) (a : Array) (m k : ℕ)
      → k + 2 ≡ i + m
      → 2 ≤ i
      → copy_args i rest a k ≡ (if ltb (k + 2) max_arg then entry rest m (a k) else a k)
  unfolding copy_args
  copy_args_at i [] a m k e lo = ground arith
  copy_args_at i (x ∷ rest) a zero k e lo =
      ground (arith, copy_args_before (i + 1) rest (assign a (i - 2) (Entry.arg x)) k (omega arith))
  copy_args_at i (x ∷ rest) a (suc m) k e lo = ground (
    arith,
    copy_args_at (i + 1) rest (assign a (i - 2) (Entry.arg x)) m k (omega arith) (omega arith),
  )

  -- A call with a mask that starts with a digit and a command, for which `trace` succeeds, runs the
  -- command with its own arguments, as many as fit into `nargv`; what follows them in the array is
  -- what was there before.
  pub main_runs_command :
      (junk : Array) (name mask first : List ℕ) (more : List (List ℕ))
      → starts_with_digit mask ≡ true
      → trace (atoi mask) ≡ true
      → (nargv : Array) × (main junk (name ∷ mask ∷ first ∷ more) ≡ Done.exec nargv)
        × ((k : ℕ) → nargv k ≡ expected max_arg (first ∷ more) junk k)
  unfolding main
  main_runs_command junk name mask first more digit ok = (
    copy_args 2 (first ∷ more) junk,
    rw (digit, ok) refl,
    λ k. copy_args_at 2 (first ∷ more) junk k k (omega arith) (omega arith),
  )
