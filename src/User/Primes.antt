-- ===== src/User/Primes.antt =====
-- lab1/primes.c: a sieve of processes, each of which passes the numbers that it does not divide to
-- the next through a pipe. A pipe whose write end is closed is the list of ints in it.
pub mod Trial
pub mod Sieve
use my_os_proj.Base.{
  ℕ, zero, suc, ◌+◌, ◌-◌, ◌%◌, ◌^◌, Bool, true, false, not, ltb, leb, ◌==◌, List, [], ◌∷◌, length,
  if◌then◌else◌,
}

-- What the processes print, and how they end: by `exit`; with a writer that blocks for ever on a
-- full pipe, which is the case as nobody reads from a pipe before its writer has forked; with a
-- `fork` that fails; or with the overflow of the counter of `main`, of which C leaves open what it
-- does. The lists are the numbers of the lines "prime %d". An int is its pattern of 32 bits.
pub data Outcome : Type 0 where
  finished : List ℕ → Outcome
  blocked : List ℕ → Outcome
  fork_failed : List ℕ → Outcome
  overflowed : Outcome
  out_of_fuel : Outcome

abbrev pub print : ℕ → Outcome → Outcome
print n (Outcome.finished ps) = Outcome.finished (n ∷ ps)
print n (Outcome.blocked ps) = Outcome.blocked (n ∷ ps)
print n (Outcome.fork_failed ps) = Outcome.fork_failed (n ∷ ps)
print n Outcome.overflowed = Outcome.overflowed
print n Outcome.out_of_fuel = Outcome.out_of_fuel

-- The int -1
abbrev pub minus_one_int : ℕ
minus_one_int = 2 ^ 32 - 1

-- The absolute value of an int.
abbrev pub magnitude : ℕ → ℕ
magnitude w = if ltb w (2 ^ 31) then w else 2 ^ 32 - w

-- Whether `x % num` is 0; the remainder of C has the sign of `x`, and is 0 where that of the
-- absolute values is. For `num` 0, where C leaves the remainder open, RISC-V has `x`.
abbrev pub is_multiple : (x num : ℕ) → Bool
is_multiple x num = if num == 0 then x == 0 else magnitude x % magnitude num == 0

-- The `while` loop: the numbers that are written, and the last value of `new_num`.
unfoldable pub sift : (num : ℕ) → List ℕ → List ℕ
sift num [] = []
sift num (x ∷ xs) = let rest = sift num xs in if not (is_multiple x num) then x ∷ rest else rest

unfoldable pub last_read : (new_num : ℕ) → List ℕ → ℕ
last_read new_num [] = new_num
last_read new_num (x ∷ xs) = last_read x xs

-- What the `read` at the start leaves in `num`, which is not initialised, and what remains.
abbrev pub first_read : (junk : ℕ) → List ℕ → ℕ
first_read junk [] = junk
first_read junk (x ∷ xs) = x

abbrev pub unread : List ℕ → List ℕ
unread [] = []
unread (x ∷ xs) = xs

-- `for (int i = ...; i <= limit; ++ i)`: the numbers that are written. `main` takes it only where
-- no `++ i` overflows.
unfoldable pub count_up : (rounds i : ℕ) → List ℕ
count_up zero i = []
count_up (suc rounds) i = i ∷ count_up rounds (i + 1)

-- A pipe holds `capacity` ints. `can_fork` says whether the `fork` of the process with the number
-- succeeds.
module _ (capacity junk : ℕ) (can_fork : ℕ → Bool) where
  unfoldable pub linear_pipe : (fuel : ℕ) → List ℕ → Outcome
  linear_pipe zero input = Outcome.out_of_fuel
  linear_pipe (suc fuel) input =
      let num = first_read junk input in
      let kept = sift num (unread input) in
      let new_num = last_read minus_one_int (unread input) in
      let child = linear_pipe fuel kept in
      print num (
        if ltb capacity (length kept)
        then Outcome.blocked []
        else if new_num == minus_one_int
        then Outcome.finished []
        else if can_fork num
        then child
        else Outcome.fork_failed [])

  -- `main`, with the limit 35 of the source as an argument, an int that is not negative. With the
  -- largest int as the limit, `i <= limit` holds until `++ i` overflows.
  unfoldable pub main : (limit : ℕ) → Outcome
  main limit =
      let numbers = count_up (limit - 1) 2 in
      if ltb capacity (length numbers)
      then Outcome.blocked []
      else if leb (2 ^ 31 - 1) limit
      then Outcome.overflowed
      else linear_pipe (suc (length numbers)) numbers
