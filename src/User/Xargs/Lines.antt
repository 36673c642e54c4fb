-- ===== src/User/Xargs/Lines.antt =====
-- xargs on lines that end in a newline.
use native.Mathlib.Nat.{add-zero}
use my_os_proj.Base.{
  ℕ, zero, suc, ◌+◌, ◌<◌, ◌≤◌, ◌≡◌, ◌≢◌, ◌⊎◌, inl, inr, refl, ◌∙◌, ap, arith, Bool, true, false,
  leb, ◌&&◌, ◌==◌, none, some, List, [], ◌∷◌, ◌++◌, length, get_elem?, if◌then◌else◌, Bool-cases,
}
use my_os_proj.User.Xargs.{
  newline, Buffer, write, Line, read_line, Event, Entry, Array, assign, copy_args, command,
  main_loop, main,
}

-- The string at an index of the buffer.
abbrev pub HoldsFrom : (buf : Buffer) (i : ℕ) → List ℕ → Type 0
HoldsFrom buf i [] = buf i ≡ 0
HoldsFrom buf i (c ∷ cs) = (buf i ≡ c) × HoldsFrom buf (i + 1) cs

-- No byte of a line is a newline.
abbrev pub IsLine : List ℕ → Type 0
IsLine [] = Unit
IsLine (c ∷ cs) = (c ≢ newline) × IsLine cs

-- The buffer after a line has been read into it.
written : List ℕ → ℕ → Buffer → Buffer
written [] idx buf = write (write buf idx newline) idx 0
written (c ∷ cs) idx buf = written cs (idx + 1) (write buf idx c)

read_line_lem :
    (line rest : List ℕ) (idx : ℕ) (buf : Buffer)
    → IsLine line
    → read_line (line ++ newline ∷ rest) idx buf
      ≡ record { buf = written line idx buf; idx = idx + length line; more = true; rest = rest }
unfolding read_line written
read_line_lem [] rest idx buf h = rw add-zero refl
read_line_lem (c ∷ cs) rest idx buf h =
    let other : (c == newline) ≡ false = ground (arith, h.0) in
    let sum : idx + 1 + length cs ≡ idx + suc (length cs) = omega arith in
    rw other (read_line_lem cs rest (idx + 1) (write buf idx c) h.1 ∙ rw sum refl)

-- Only the bytes of the line and the one after it are written.
written_outside :
    (line : List ℕ) (idx : ℕ) (buf : Buffer) (j : ℕ)
    → (j < idx) ⊎ (idx + length line < j)
    → written line idx buf j ≡ buf j
unfolding written
written_outside [] idx buf j out = ground arith
written_outside (c ∷ cs) idx buf j out =
    written_outside cs (idx + 1) (write buf idx c) j (omega arith) ∙ ground arith

written-HoldsFrom :
    (line : List ℕ) (idx : ℕ) (buf : Buffer) → HoldsFrom (written line idx buf) idx line
unfolding written
written-HoldsFrom [] idx buf = ground arith
written-HoldsFrom (c ∷ cs) idx buf = (
  written_outside cs (idx + 1) (write buf idx c) idx (inl (omega arith)) ∙ ground arith,
  written-HoldsFrom cs (idx + 1) (write buf idx c),
)

-- The input that consists of lines.
abbrev pub joined : List (List ℕ) → List ℕ
joined [] = []
joined (l ∷ ls) = l ++ newline ∷ joined ls

-- Lines, each of which fits into `buf` with its end.
abbrev pub AreLines : List (List ℕ) → Type 0
AreLines [] = Unit
AreLines (l ∷ ls) = IsLine l × (length l < 128) × AreLines ls

-- What `exec_argv` holds in a round: the arguments of xargs, the pointer to `buf`, and after it
-- what was there before.
abbrev pub expected : (args : List (List ℕ)) → Array → Array
expected args junk k =
    if k == length args
    then Entry.buffer
    else elim (get_elem? args k) [ none ↦ junk k | some x ↦ Entry.arg x ]

-- One `exec` for each line, of the command that xargs has been given, with the expected array and a
-- buffer that holds the line.
abbrev pub Runs : (args : List (List ℕ)) (junk : Array) → List (List ℕ) → List Event → Type 0
Runs args junk [] [] = Unit
Runs args junk (l ∷ ls) (Event.exec path given buf ∷ es) =
    (path ≡ command args)
    × ((k : ℕ) → given k ≡ expected args junk k)
    × HoldsFrom buf 0 l
    × Runs args junk ls es
Runs args junk _ _ = ⊥

and_false : (b : Bool) → (b && false) ≡ false
and_false true = refl
and_false false = refl

copy_args_before :
    (idx : ℕ) (rest : List (List ℕ)) (a : Array) (k : ℕ) → k < idx → copy_args idx rest a k ≡ a k
unfolding copy_args
copy_args_before idx [] a k h = refl
copy_args_before idx (x ∷ rest) a k h =
    ground (arith, copy_args_before (idx + 1) rest (assign a idx (Entry.arg x)) k (omega arith))

copy_args_at :
    (idx : ℕ) (rest : List (List ℕ)) (a : Array) (m k : ℕ)
    → k ≡ idx + m
    → copy_args idx rest a k ≡ (elim (get_elem? rest m) [ none ↦ a k | some x ↦ Entry.arg x ])
unfolding copy_args
copy_args_at idx [] a m k e = refl
copy_args_at idx (x ∷ rest) a zero k e =
    copy_args_before (idx + 1) rest (assign a idx (Entry.arg x)) k (omega arith) ∙ ground arith
copy_args_at idx (x ∷ rest) a (suc m) k e =
    let apart : (idx == k) ≡ false = ground arith in
    copy_args_at (idx + 1) rest (assign a idx (Entry.arg x)) m k (omega arith)
    ∙ ap
        (λ b. elim (get_elem? rest m) [
          | none ↦ if b then Entry.arg x else a k
          | some y ↦ Entry.arg y
        ])
        apart

-- The array of the first round.
first_array :
    (args : List (List ℕ)) (junk : Array) (k : ℕ)
    → assign (copy_args 0 args junk) (length args) Entry.buffer k ≡ expected args junk k
first_array args junk k = elim (Bool-cases (length args == k)) [
  | inl here ↦ let here' : (k == length args) ≡ true = ground (arith, here) in rw (here, here') refl
  | inr apart ↦
      let apart' : (k == length args) ≡ false = ground (arith, apart) in
      rw (apart, apart') (copy_args_at 0 args junk k k (omega arith))
]

-- The assignment again, in the next round.
assign_again :
    (a : Array) (i : ℕ) (x : Entry) (k : ℕ) → assign (assign a i x) i x k ≡ assign a i x k
assign_again a i x k = elim (Bool-cases (i == k)) [
  | inl here ↦ rw here refl
  | inr apart ↦ rw apart refl
]

main_loop-Runs :
    (args lines : List (List ℕ)) (fuel : ℕ) (junk exec_argv : Array) (buf : Buffer)
    → ((k : ℕ) → assign exec_argv (length args) Entry.buffer k ≡ expected args junk k)
    → AreLines lines
    → length lines < fuel
    → (es : List Event) × ((main_loop args true true fuel (joined lines) exec_argv buf
          ≡ record { events = es; rest = []; enough_fuel = true })
        × Runs args junk lines es)
unfolding main_loop
main_loop-Runs args lines zero junk exec_argv buf array h enough = absurd (omega arith)
main_loop-Runs args [] (suc fuel) junk exec_argv buf array h enough =
    unfold read_line in ([], (refl, tt))
main_loop-Runs args (l ∷ ls) (suc fuel) junk exec_argv buf array (line, short, h) enough =
    let given = assign exec_argv (length args) Entry.buffer in
    let (es, (run, runs)) =
      main_loop-Runs args ls fuel junk given (written l 0 buf)
        (λ k. assign_again exec_argv (length args) Entry.buffer k ∙ array k) h (omega arith) in
    let fits : leb 128 (0 + length l) ≡ false = ground arith in
    (
      Event.exec (command args) given (written l 0 buf) ∷ es,
      (
        rw (read_line_lem l (joined ls) 0 buf line, and_false (0 + length l == 0), fits, run) refl,
        (refl, array, written-HoldsFrom l 0 buf, runs),
      ),
    )

-- Suppose that the input consists of lines of at most 127 bytes that all end in a newline, and that
-- `fork` and `exec` succeed. Then xargs runs the command that is its first argument once for each
-- line, in order, and reads all the input. The entries of the array that it hands over are its own
-- arguments and then the pointer to `buf`, where the line lies with a 0 after it; behind them the
-- array holds what it held before the program set it. One round for each line and another are
-- enough.
pub main-Runs :
    (args lines : List (List ℕ)) (fuel : ℕ) (junk : Array) (buf : Buffer)
    → AreLines lines
    → length lines < fuel
    → (es : List Event) × ((main args true true fuel (joined lines) junk buf
          ≡ record { events = es; rest = []; enough_fuel = true })
        × Runs args junk lines es)
unfolding main
main-Runs args lines fuel junk buf h enough =
    main_loop-Runs args lines fuel junk (copy_args 0 args junk) buf (first_array args junk) h enough

-- A line of at most 127 bytes stays inside the 128 bytes of `buf`: no byte behind them changes.
pub read_line_bounds :
    (line rest : List ℕ) (buf : Buffer) (j : ℕ)
    → IsLine line
    → length line < 128
    → 128 ≤ j
    → (read_line (line ++ newline ∷ rest) 0 buf).buf j ≡ buf j
read_line_bounds line rest buf j h short out =
    ap (λ (l : Line). l.buf j) (read_line_lem line rest 0 buf h)
    ∙ written_outside line 0 buf j (inr (omega arith))
