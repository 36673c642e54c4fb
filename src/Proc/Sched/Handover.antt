-- ===== src/Proc/Sched/Handover.antt =====
-- The locks of `sleep` and `wakeup` in lab3/proc.c: a process that waits for a condition in the
-- loop `while (!condition) sleep(chan, lk)`, as the rounds of `sys_sleep` in lab3/sysproc.c do, one
-- that makes the condition true and calls `wakeup(chan)`, both with the lock `lk` held around it,
-- and a third that calls `kill` for the first.
pub mod Progress
use my_os_proj.Base.{
  ℕ, suc, ◌≡◌, Bool, true, false, not, ◌&&◌, Option, none, some, List, [], ◌∷◌, ◌++◌, if◌then◌else◌,
}
use my_os_proj.Proc.{State, is_state}

pub data Who : Type 0 where
  sleeper waker killer : Who

-- `lk`, and the lock of the process that sleeps.
pub data Lock : Type 0 where
  lk p_lock : Lock

-- The statements: one access to a lock or to the fields that the sides share. `sched` is two of them,
-- up to the switch, after which `scheduler` releases the lock of the process, and from the round of
-- `scheduler` that finds it RUNNABLE and switches back with its lock held. `test_and_wake` is the
-- body of `wakeup` for this process, `mark_killed` that of `kill`, and `wait_for` the head of the
-- loop.
pub data Statement : Type 0 where
  acquire release : Lock → Statement
  set_chan set_sleeping switch_away switch_back clear_chan wait_for : Statement
  set_condition test_and_wake mark_killed : Statement

-- Who holds each lock; the fields `chan`, as whether it is the channel, and `state` of the process;
-- the condition; and what is left of each side.
pub record World : Type 0 where
  pub lk_holder : Option Who
  pub p_holder : Option Who
  pub condition : Bool
  pub on_chan : Bool
  pub state : State
  pub sleeper_left : List Statement
  pub waker_left : List Statement
  pub killer_left : List Statement

-- `sleep(chan, lk)`
abbrev pub sleep_statements : List Statement
sleep_statements =
    Statement.acquire Lock.p_lock
    ∷ Statement.release Lock.lk
    ∷ Statement.set_chan
    ∷ Statement.set_sleeping
    ∷ Statement.switch_away
    ∷ Statement.switch_back
    ∷ Statement.clear_chan
    ∷ Statement.release Lock.p_lock
    ∷ Statement.acquire Lock.lk
    ∷ []

-- `wakeup(chan)`, where it comes to the process.
abbrev pub wakeup_statements : List Statement
wakeup_statements =
    Statement.acquire Lock.p_lock ∷ Statement.test_and_wake ∷ Statement.release Lock.p_lock ∷ []

-- `kill(pid)`, where it comes to the process.
abbrev pub kill_statements : List Statement
kill_statements =
    Statement.acquire Lock.p_lock ∷ Statement.mark_killed ∷ Statement.release Lock.p_lock ∷ []

-- The callers of `sleep` and `wakeup`.
abbrev pub waiting_statements : List Statement
waiting_statements = Statement.acquire Lock.lk ∷ Statement.wait_for ∷ Statement.release Lock.lk ∷ []

abbrev pub waking_statements : List Statement
waking_statements =
    Statement.acquire Lock.lk
    ∷ Statement.set_condition
    ∷ (wakeup_statements ++ Statement.release Lock.lk ∷ [])

abbrev pub init : World
init = record {
  lk_holder = none;
  p_holder = none;
  condition = false;
  on_chan = false;
  state = State.running;
  sleeper_left = waiting_statements;
  waker_left = waking_statements;
  killer_left = kill_statements;
}

abbrev pub holder : Lock → World → Option Who
holder Lock.lk w = w.lk_holder
holder Lock.p_lock w = w.p_holder

abbrev set_holder : Lock → Option Who → World → World
set_holder Lock.lk h w = record w { lk_holder = h }
set_holder Lock.p_lock h w = record w { p_holder = h }

abbrev same_side : Who → Who → Bool
same_side Who.sleeper Who.sleeper = true
same_side Who.waker Who.waker = true
same_side Who.killer Who.killer = true
same_side _ _ = false

abbrev is_held_by : Who → Option Who → Bool
is_held_by who none = false
is_held_by who (some other) = same_side who other

abbrev pub is_free : Option Who → Bool
is_free none = true
is_free (some who) = false

-- `acquire` spins while the lock is held; `release` panics where the caller does not hold it, after
-- which the side takes no step, and so does `sched` where the caller does not hold its own lock,
-- holds another, or is RUNNING. `rest` is what is left of the side behind the statement.
unfoldable pub run :
    (who : Who) → Statement → (rest : List Statement) → World → Option (List Statement × World)
run who (Statement.acquire l) rest w =
    if is_free (holder l w) then some (rest, set_holder l (some who) w) else none
run who (Statement.release l) rest w =
    if is_held_by who (holder l w) then some (rest, set_holder l none w) else none
run who Statement.set_chan rest w = some (rest, record w { on_chan = true })
run who Statement.set_sleeping rest w = some (rest, record w { state = State.sleeping })
run who Statement.switch_away rest w =
    if is_held_by who w.p_holder
      && (not (is_held_by who w.lk_holder) && not (is_state w.state State.running))
    then some (rest, record w { p_holder = none })
    else none
run who Statement.switch_back rest w =
    if is_free w.p_holder && is_state w.state State.runnable
    then some (rest, record w { p_holder = some who; state = State.running })
    else none
run who Statement.clear_chan rest w = some (rest, record w { on_chan = false })
run who Statement.wait_for rest w =
    if w.condition then some (rest, w) else some (sleep_statements ++ Statement.wait_for ∷ rest, w)
run who Statement.set_condition rest w = some (rest, record w { condition = true })
run who Statement.test_and_wake rest w =
    if is_state w.state State.sleeping && w.on_chan
    then some (rest, record w { state = State.runnable })
    else some (rest, w)
run who Statement.mark_killed rest w =
    if is_state w.state State.sleeping
    then some (rest, record w { state = State.runnable })
    else some (rest, w)

abbrev pub left : Who → World → List Statement
left Who.sleeper w = w.sleeper_left
left Who.waker w = w.waker_left
left Who.killer w = w.killer_left

abbrev set_left : Who → List Statement → World → World
set_left Who.sleeper l w = record w { sleeper_left = l }
set_left Who.waker l w = record w { waker_left = l }
set_left Who.killer l w = record w { killer_left = l }

abbrev stepped : Who → Option (List Statement × World) → Option World
stepped who none = none
stepped who (some (l, w)) = some (set_left who l w)

abbrev step_on : (who : Who) → List Statement → World → Option World
step_on who [] w = none
step_on who (c ∷ rest) w = stepped who (run who c rest w)

-- One step of a side; `none` where it has ended or has to wait.
unfoldable pub step : (who : Who) → World → Option World
step who w = step_on who (left who w) w

-- The states after `n` steps of the sides in any order.
pub data Reaches : ℕ → World → Type 0 where
  start : Reaches 0 init
  later :
      {n : ℕ} {w w' : World} → Reaches n w → (who : Who) → step who w ≡ some w' → Reaches (suc n) w'
