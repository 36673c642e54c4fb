-- ===== src/Proc/Action.antt =====
-- What may happen to the process table: the functions of lab3/proc.c, one after another, each as
-- one step, in any order and for any process.
use my_os_proj.Base.{ℕ, ◌+◌, ◌≡◌, List, [], ◌∷◌}
use my_os_proj.Kernel.{Platform}
use my_os_proj.Proc.{Chan}
use my_os_proj.Proc.Table.{wakeup, kill}
use my_os_proj.Proc.System.{System, Files, ok, exited, Op, pure, ◌>>=◌, update_procs}
use my_os_proj.Proc.Life.{growproc, fork}
use my_os_proj.Proc.Exit.{exit, wait_round}
use my_os_proj.Proc.Sched.{Cpu, yield, sleep, awake, schedule}

-- `me` is the process that runs the function; `scheduler` runs for a process `i`.
pub data Action : Type 0 where
  forks : (me : ℕ) → Action
  grows : (me n : ℕ) → Action
  exits : (me status : ℕ) → Action
  waits : (me addr : ℕ) → Action
  kills : (pid : ℕ) → Action
  wakes : (me : ℕ) (chan : Chan) → Action
  yields : (cpu : Cpu) (me : ℕ) → Action
  sleeps : (cpu : Cpu) (me : ℕ) (chan : Chan) → Action
  awakes : (me : ℕ) → Action
  schedules : (i : ℕ) → Action

-- How many pids an action hands out at most.
abbrev pub new_pids : Action → ℕ
new_pids (Action.forks me) = 1
new_pids _ = 0

abbrev pub all_new_pids : List Action → ℕ
all_new_pids [] = 0
all_new_pids (a ∷ rest) = new_pids a + all_new_pids rest

module _ {F : Type 0} (P : Platform) (fs : Files F) where
  unfoldable pub act : Action → Op F (Unit {0})
  act (Action.forks me) = fork P fs me >>= (λ pid. pure tt)
  act (Action.grows me n) = growproc P fs me n >>= (λ done. pure tt)
  act (Action.exits me status) = exit P fs me status
  act (Action.waits me addr) = wait_round P fs me addr >>= (λ waited. pure tt)
  act (Action.kills pid) = update_procs (λ ps. (kill pid ps).0)
  act (Action.wakes me chan) = update_procs (wakeup me chan)
  act (Action.yields cpu me) = yield cpu me
  act (Action.sleeps cpu me chan) = sleep cpu me chan
  act (Action.awakes me) = awake me
  act (Action.schedules i) = schedule i >>= (λ runs. pure tt)

  -- The states that are reached by a list of actions, none of which panics.
  pub data Reaches : List Action → System F → System F → Type 0 where
    stay : (s : System F) → Reaches [] s s
    then_ok :
        (a : Action) (rest : List Action) (s t u : System F)
        → act a s ≡ ok tt t
        → Reaches rest t u
        → Reaches (a ∷ rest) s u
    then_exited :
        (a : Action) (rest : List Action) (s t u : System F)
        → act a s ≡ exited t
        → Reaches rest t u
        → Reaches (a ∷ rest) s u
