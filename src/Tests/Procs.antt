-- ===== src/Tests/Procs.antt =====
-- Scans of a process table with three processes: the first one, which sleeps on itself, its child,
-- and a child of that.
use my_os_proj.Base.{ℕ, ◌≡◌, refl, true, Option, none, some, [], ◌∷◌, get_elem?}
use my_os_proj.Proc.{State, Chan, Proc, Table}
use my_os_proj.Proc.Table.{wake, wakeup_from, wakeup, mark_killed, kill, reparent_loop, reparent}
use my_os_proj.Proc.Table.Wakeup.{Woken, wakeup-Woken}
use my_os_proj.Proc.Table.Kill.{KillResult, kill-KillResult}
use my_os_proj.Proc.Table.Adopt.{Reparented}
use my_os_proj.Proc.Table.Reparent.{reparent-Reparented}

abbrev pub process : (state : State) (chan : Chan) (pid : ℕ) (parent : Option ℕ) → Proc
process state chan pid parent = record {
  state = state;
  chan = chan;
  killed = 0;
  xstate = 0;
  pid = pid;
  mask = 0;
  parent = parent;
  kstack = 0x3fff_ffd0_00;
  sz = 4096;
  pagetable = 0x8000_0000;
  trapframe = 0x8000_5000;
  mypid = 0x8000_6000;
  context_ra = 0;
  context_sp = 0;
  context_s = [];
  ofile = 0 ∷ 0 ∷ [];
  cwd = 1;
  name = b's' ∷ b'h' ∷ [];
}

abbrev pub first : Proc
first = process State.sleeping (Chan.process 0) 1 none

abbrev pub second : Proc
second = process State.running Chan.nothing 2 (some 0)

abbrev pub third : Proc
third = process State.sleeping (Chan.address 7) 3 (some 1)

abbrev pub family : Table
family = first ∷ second ∷ third ∷ []

reparent-Reparented_example :
    (new : Proc) × ((get_elem? (reparent 1 1 (some 0) family) 2 ≡ some new)
      × Reparented 1 (some 0) true third new)
reparent-Reparented_example = reparent-Reparented 1 (some 0) 1 family 2 third refl

-- The child of the process that exits gets the first one as its parent, which is woken.
reparent-family :
    reparent 1 1 (some 0) family
    ≡ record first { state = State.runnable } ∷ second ∷ record third { parent = some 0 } ∷ []
unfolding reparent reparent_loop wakeup wakeup_from wake
reparent-family = refl

kill-KillResult_example : KillResult 3 family (kill 3 family)
kill-KillResult_example = kill-KillResult 3 family

wakeup-Woken_example :
    (q : Proc) × ((get_elem? (wakeup 1 (Chan.address 7) family) 2 ≡ some q)
      × Woken 1 (Chan.address 7) 2 third q)
wakeup-Woken_example = wakeup-Woken 1 (Chan.address 7) 2 family third refl

-- A pid of 0, which every slot that is not in use has, is found, and such a slot is marked.
kill_zero :
    kill 0 (process State.unused Chan.nothing 0 none ∷ [])
    ≡ (record (process State.unused Chan.nothing 0 none) { killed = 1 } ∷ [], true)
unfolding kill mark_killed
kill_zero = refl
