-- ===== src/User/Xargs.antt =====
-- lab1/xargs.c. The standard input is the list of its bytes, shared by the processes of a `fork`.
-- The array `buf` of 128 bytes is not initialised, and lies at the same place in each round. The
-- bytes from `buf` on are those of the stack: a write past the end of the array changes one of
-- them, and the model of the run ends there, since what it does next is not determined.
pub mod Lines
use my_os_proj.Base.{
  ℕ, zero, suc, ◌+◌, Bool, true, false, not, leb, ◌&&◌, ◌==◌, Option, none, some, List, [], ◌∷◌,
  ◌++◌, length, if◌then◌else◌,
}

abbrev pub newline : ℕ
newline = b'\n'

abbrev pub Buffer : Type 0
Buffer = ℕ → ℕ

abbrev pub write : Buffer → ℕ → ℕ → Buffer
write buf i c j = if i == j then c else buf j

-- The inner loop: where it leaves `buf`, `idx`, whether `len` is not 0, and the input.
pub record Line : Type 0 where
  pub buf : Buffer
  pub idx : ℕ
  pub more : Bool
  pub rest : List ℕ

unfoldable pub read_line : (input : List ℕ) (idx : ℕ) (buf : Buffer) → Line
read_line [] idx buf = record { buf = buf; idx = idx; more = false; rest = [] }
read_line (c ∷ cs) idx buf =
    let read = write buf idx c in
    let rest = read_line cs (idx + 1) read in
    if c == newline
    then record { buf = write read idx 0; idx = idx; more = true; rest = cs }
    else rest

-- Whether a byte was written past the 128 bytes of `buf`; the last index that is written is `idx`
-- where the line has a newline, and the one before it at the end of the input.
abbrev pub overflows : Line → Bool
overflows line = if line.more then leb 128 line.idx else leb 129 line.idx

-- An entry of `exec_argv`: an argument of xargs, the pointer to `buf`, or what was on the stack
-- before the array.
pub data Entry : Type 0 where
  arg : List ℕ → Entry
  buffer : Entry
  rubbish : ℕ → Entry

abbrev pub Array : Type 0
Array = ℕ → Entry

abbrev pub assign : Array → ℕ → Entry → Array
assign a i x j = if i == j then x else a j

-- The loop over the arguments, from `exec_argv[idx]` on.
unfoldable pub copy_args : (idx : ℕ) (rest : List (List ℕ)) → Array → Array
copy_args idx [] exec_argv = exec_argv
copy_args idx (x ∷ rest) exec_argv = copy_args (idx + 1) rest (assign exec_argv idx (Entry.arg x))

-- argv[1], which is the null pointer where xargs has no argument.
abbrev pub command : List (List ℕ) → Option (List ℕ)
command [] = none
command (x ∷ xs) = some x

-- What the program does: `exec(argv[1], exec_argv)` is tried with an array and the bytes that lie
-- at `buf`; or a line is written past the end of `buf`.
pub data Event : Type 0 where
  exec : (path : Option (List ℕ)) (exec_argv : Array) (buf : Buffer) → Event
  exec_failed : Event
  fork_failed : Event
  overflowed : Event

-- The events, and what is left of the input when the process has ended.
pub record Ended : Type 0 where
  pub events : List Event
  pub rest : List ℕ
  pub enough_fuel : Bool

abbrev pub after : List Event → Ended → Ended
after es e = record e { events = es ++ e.events }

-- What one process does, and then another.
abbrev pub then_also : Ended → Ended → Ended
then_also e f = record {
  events = e.events ++ f.events;
  rest = f.rest;
  enough_fuel = e.enough_fuel && f.enough_fuel;
}

-- `args` are argv[1] to argv[argc - 1]. `can_exec` and `can_fork` say whether `exec` and `fork`
-- succeed. Where `exec` fails, the child goes on with the loop, and the parent waits for its end.
module _ (args : List (List ℕ)) (can_exec can_fork : Bool) where
  unfoldable pub main_loop : (fuel : ℕ) (input : List ℕ) (exec_argv : Array) (buf : Buffer) → Ended
  main_loop zero input exec_argv buf = record { events = []; rest = input; enough_fuel = false }
  main_loop (suc fuel) input exec_argv buf =
      let line = read_line input 0 buf in
      let given = assign exec_argv (length args) Entry.buffer in
      let tried = Event.exec (command args) given line.buf in
      let run = after (tried ∷ []) (main_loop fuel line.rest given line.buf) in
      let child =
        after (tried ∷ Event.exec_failed ∷ []) (main_loop fuel line.rest given line.buf) in
      let parent = main_loop fuel child.rest given line.buf in
      if (line.idx == 0) && not line.more
      then record { events = []; rest = line.rest; enough_fuel = true }
      else if overflows line
      then record { events = Event.overflowed ∷ []; rest = line.rest; enough_fuel = true }
      else if not can_fork
      then record { events = Event.fork_failed ∷ []; rest = line.rest; enough_fuel = true }
      else if can_exec
      then run
      else then_also child parent

  -- `exec_argv` and `buf` are what is on the stack.
  unfoldable pub main : (fuel : ℕ) (input : List ℕ) (exec_argv : Array) (buf : Buffer) → Ended
  main fuel input exec_argv buf = main_loop fuel input (copy_args 0 args exec_argv) buf
