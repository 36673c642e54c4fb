-- ===== src/Proc/Sched.antt =====
-- Scheduling in lab3/proc.c: `procinit`, the loop of `scheduler`, `sched`, `yield`, `sleep` and
-- `procdump`. A function that switches away is two definitions, what it does before the switch and
-- after it. The locks of `sleep` and `wakeup` are the subject of `Handover`.
pub mod Handover
use my_os_proj.Base.{ℕ, ◌+◌, Bool, true, false, not, ◌==◌, List, [], ◌∷◌, if◌then◌else◌}
use my_os_proj.Kernel.{Platform, sched_lock, sched_locks, sched_running, sched_interruptible}
use my_os_proj.Proc.{State, Chan, Table, is_state}
use my_os_proj.Proc.System.{Op, pure, fail, ◌>>=◌, ◌>>◌, get_proc, update_proc}

-- What `sched` looks at: whether the process's lock is held, `mycpu()->noff`, and whether
-- interrupts are on.
pub record Cpu : Type 0 where
  pub holding : Bool
  pub noff : ℕ
  pub intr : Bool

-- The loop of `procinit`, from process `i` on.
pub procinit_from : (P : Platform) (i : ℕ) → Table → Table
procinit_from P i [] = []
procinit_from P i (p ∷ ps) = record p { kstack = P.kstack i } ∷ procinit_from P (i + 1) ps

pub procinit : (P : Platform) → Table → Table
procinit P ps = procinit_from P 0 ps

module _ {F : Type 0} where
  -- Up to `swtch`.
  unfoldable pub sched : (cpu : Cpu) (me : ℕ) → Op F (Unit {0})
  sched cpu me = do
    p ← get_proc me
    if not cpu.holding then fail sched_lock else do
      if not (cpu.noff == 1) then fail sched_locks else do
        if is_state p.state State.running
            then fail sched_running
            else do if cpu.intr then fail sched_interruptible else pure tt

  -- Up to the switch; nothing but the release of the lock follows.
  unfoldable pub yield : (cpu : Cpu) (me : ℕ) → Op F (Unit {0})
  yield cpu me = do update_proc me (λ q. record q { state = State.runnable }); sched cpu me

  -- Between the release of `lk` and the switch: the part that runs with the lock of the process
  -- held. `Handover` has the steps around it, and what other processes do between them.
  unfoldable pub sleep : (cpu : Cpu) (me : ℕ) (chan : Chan) → Op F (Unit {0})
  sleep cpu me chan = do
    update_proc me (λ q. record q { chan = chan })
    update_proc me (λ q. record q { state = State.sleeping })
    sched cpu me

  -- After the switch back, with the lock of the process held.
  unfoldable pub awake : (me : ℕ) → Op F (Unit {0})
  awake me = update_proc me (λ q. record q { chan = Chan.nothing })

  -- The body of the loop of `scheduler`, up to `swtch`: whether the process `i` runs.
  unfoldable pub schedule : (i : ℕ) → Op F Bool
  schedule i = do
    p ← get_proc i
    if is_state p.state State.runnable
        then update_proc i (λ q. record q { state = State.running }) >> pure true
        else pure false

-- The text that `procdump` prints for a state: `states` has no entry for USED.
pub data StateName : Type 0 where
  unused_name sleep_name runble_name run_name zombie_name unknown_name : StateName

pub state_name : State → StateName
state_name State.unused = StateName.unused_name
state_name State.used = StateName.unknown_name
state_name State.sleeping = StateName.sleep_name
state_name State.runnable = StateName.runble_name
state_name State.running = StateName.run_name
state_name State.zombie = StateName.zombie_name

-- The lines that it prints: a pid, a state and a name.
pub procdump : Table → List (ℕ × StateName × List ℕ)
procdump [] = []
procdump (p ∷ ps) =
    if is_state p.state State.unused
    then procdump ps
    else (p.pid, state_name p.state, p.name) ∷ procdump ps
