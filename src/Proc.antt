-- ===== src/Proc.antt =====
-- The process table of proc.c. A pointer to a process is its index in the table, and the null
-- pointer is `none`; the process that runs the code, `myproc()`, is the argument `me`.
pub mod Table
pub mod Pagetable
pub mod System
pub mod Keeps
pub mod Pids
pub mod Life
pub mod Exit
pub mod Sched
pub mod Access
pub mod Unique
pub mod Action
pub mod Distinct
pub mod TracedPages
pub mod Traced
pub mod Inherit
use my_os_proj.Base.{ℕ, ◌+◌, Bool, true, false, Option, none, some, List, ◌==◌}
use my_os_proj.Kernel.{Kernel}

-- `enum procstate` of lab2/proc.h
pub data State : Type 0 where
  unused used sleeping runnable running zombie : State

-- What a process sleeps on: an address, which may be that of a process.
pub data Chan : Type 0 where
  nothing : Chan
  process : ℕ → Chan
  address : ℕ → Chan

-- `struct proc` of lab2/proc.h, with the field `mypid` that lab3/proc.c uses. `state` to `mask`
-- need the lock of the process; `name` holds the bytes up to the first 0.
pub record Proc : Type 0 where
  pub state : State
  pub chan : Chan
  pub killed : ℕ
  pub xstate : ℕ
  pub pid : ℕ
  pub mask : ℕ
  pub parent : Option ℕ
  pub kstack : ℕ
  pub sz : ℕ
  pub pagetable : ℕ
  pub trapframe : ℕ
  pub mypid : ℕ
  pub context_ra : ℕ
  pub context_sp : ℕ
  pub context_s : List ℕ
  pub ofile : List ℕ
  pub cwd : ℕ
  pub name : List ℕ

abbrev pub Table : Type 0
Table = List Proc

abbrev pub is_state : State → State → Bool
is_state State.unused State.unused = true
is_state State.used State.used = true
is_state State.sleeping State.sleeping = true
is_state State.runnable State.runnable = true
is_state State.running State.running = true
is_state State.zombie State.zombie = true
is_state _ _ = false

abbrev pub chan_eq : Chan → Chan → Bool
chan_eq Chan.nothing Chan.nothing = true
chan_eq (Chan.process i) (Chan.process j) = i == j
chan_eq (Chan.address a) (Chan.address b) = a == b
chan_eq _ _ = false

abbrev pub ptr_eq : Option ℕ → Option ℕ → Bool
ptr_eq none none = true
ptr_eq (some i) (some j) = i == j
ptr_eq _ _ = false
