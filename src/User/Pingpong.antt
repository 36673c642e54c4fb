-- ===== src/User/Pingpong.antt =====
-- lab1/pingpong.c: two processes that pass a word back and forth through two pipes. Each system
-- call is a step of its process, and the two run in any order. The pipes of the kernel are the
-- record `Pipes`.
pub mod Schedule
pub mod Parent
pub mod Child
pub mod Order
use my_os_proj.Base.{
  ℕ, zero, suc, ◌≡◌, Bool, Option, none, some, List, [], ◌∷◌, ◌++◌, if◌then◌else◌,
}

-- The operations on a pipe: `pipe` makes one, `fork` leaves each end open in one process more, and
-- `none` means that the caller goes to sleep and tries again.
pub record Pipes (Q : Type 0) : Type 0 where
  pub opened : Q
  pub inherit : Q → Q
  pub close_read : Q → Q
  pub close_write : Q → Q
  pub write : List ℕ → Q → Option Q
  pub read : (n : ℕ) → Q → Option (List ℕ × Q)

pub data Who : Type 0 where
  parent child : Who

-- The pipes `p_c_fds` and `c_p_fds`.
pub data Name : Type 0 where
  p_c c_p : Name

pub data Call : Type 0 where
  close_read close_write : Name → Call
  write : Name → List ℕ → Call
  read : Name → Call
  -- printf("%d: received %s\n", getpid(), buf)
  print_buf : Call

abbrev pub ping : List ℕ
ping = b'p' ∷ b'i' ∷ b'n' ∷ b'g' ∷ []

abbrev pub pong : List ℕ
pong = b'p' ∷ b'o' ∷ b'n' ∷ b'g' ∷ []

-- The branches of `main` after `fork`; both go on to `exit(0)`.
abbrev pub child_calls : List Call
child_calls =
    Call.close_write p_c
    ∷ Call.close_read c_p
    ∷ Call.read p_c
    ∷ Call.close_read p_c
    ∷ Call.print_buf
    ∷ Call.write c_p pong
    ∷ Call.close_write c_p
    ∷ []

abbrev pub parent_calls : List Call
parent_calls =
    Call.close_read p_c
    ∷ Call.close_write c_p
    ∷ Call.write p_c ping
    ∷ Call.close_write p_c
    ∷ Call.read c_p
    ∷ Call.close_read c_p
    ∷ Call.print_buf
    ∷ []

-- The bytes from `buf` on, the 16 of the array and those behind it.
abbrev pub Buffer : Type 0
Buffer = ℕ → ℕ

-- `read (..., buf, sizeof(buf))`: the bytes that were read, at the start of `buf`.
abbrev pub fill : List ℕ → Buffer → Buffer
fill [] buf n = buf n
fill (x ∷ xs) buf zero = x
fill (x ∷ xs) buf (suc n) = fill xs (λ i. buf (suc i)) n

pub record Process : Type 0 where
  pub calls : List Call
  pub buf : Buffer

-- `printed` holds the process of each line, and its buffer, of which "%s" prints the bytes up to
-- the first that is 0.
pub record World (Q : Type 0) : Type 0 where
  pub parent : Process
  pub child : Process
  pub p_c : Q
  pub c_p : Q
  pub printed : List (Who × Buffer)

module _ {Q : Type 0} where
  abbrev pub process : Who → World Q → Process
  process parent s = s.parent
  process child s = s.child

  abbrev pub set_process : Who → Process → World Q → World Q
  set_process parent p s = record s { parent = p }
  set_process child p s = record s { child = p }

  abbrev pub pipe : Name → World Q → Q
  pipe p_c s = s.p_c
  pipe c_p s = s.c_p

  abbrev pub set_pipe : Name → Q → World Q → World Q
  set_pipe p_c q s = record s { p_c = q }
  set_pipe c_p q s = record s { c_p = q }

module _ {Q : Type 0} (pipes : Pipes Q) where
  -- What a call of `who` does to the pipes, to its buffer and to the output.
  abbrev pub run_call : Who → Call → World Q → Option (World Q)
  run_call who (Call.close_read n) s = some (set_pipe n (pipes.close_read (pipe n s)) s)
  run_call who (Call.close_write n) s = some (set_pipe n (pipes.close_write (pipe n s)) s)
  run_call who (Call.write n bytes) s = elim (pipes.write bytes (pipe n s)) [
    | none ↦ none
    | some q ↦ some (set_pipe n q s)
  ]
  run_call who (Call.read n) s = elim (pipes.read 16 (pipe n s)) [
    | none ↦ none
    | some got ↦
        let p = process who s in
        some (set_process who (record p { buf = fill got.0 p.buf }) (set_pipe n got.1 s))
  ]
  run_call who Call.print_buf s =
      some (record s { printed = s.printed ++ (who, (process who s).buf) ∷ [] })

  -- The next call of a process; `none` when it has ended or sleeps.
  unfoldable pub next_call : Who → List Call → World Q → Option (World Q)
  next_call who [] s = none
  next_call who (c ∷ cs) s =
      let p = process who s in run_call who c (set_process who (record p { calls = cs }) s)

  abbrev pub step : Who → World Q → Option (World Q)
  step who s = next_call who (process who s).calls s

  -- `main` up to `fork`, when that succeeds; the buffers hold what was on the stack.
  abbrev pub start : (junk : Buffer) → World Q
  start junk = record {
    parent = record { calls = parent_calls; buf = junk };
    child = record { calls = child_calls; buf = junk };
    p_c = pipes.inherit pipes.opened;
    c_p = pipes.inherit pipes.opened;
    printed = [];
  }

  -- `none`: `fork` fails, the program says so and exits with the status 1.
  pub main : (can_fork : Bool) (junk : Buffer) → Option (World Q)
  main can_fork junk = if can_fork then some (start junk) else none

  -- The states after `n` steps, of whichever process can take one.
  pub data Reaches (junk : Buffer) : ℕ → World Q → Type 0 where
    begin : Reaches junk 0 (start junk)
    then_step :
        {n : ℕ} {s t : World Q} (who : Who)
        → Reaches junk n s
        → step who s ≡ some t
        → Reaches junk (suc n) t
