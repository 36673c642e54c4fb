-- ===== src/Proc/Table.antt =====
-- Scans of the process table: `wakeup`, `kill`, `reparent` of lab3/proc.c, and `sysinfo_free_proc`
-- of lab2/proc.c. Each iteration holds the lock of its process.
pub mod Wakeup
pub mod Kill
pub mod Reparent
pub mod Adopt
use my_os_proj.Base.{
  ℕ, zero, suc, ◌+◌, Bool, true, false, not, ◌&&◌, ◌==◌, Option, none, some, List, [], ◌∷◌,
  get_elem?, set, length, if◌then◌else◌,
}
use mathlib.Core.Option
use my_os_proj.Proc.{State, Chan, Proc, Table, is_state, chan_eq, ptr_eq}

-- The body of the loop of `wakeup`, for the process with index `i`.
unfoldable pub wake : (me : ℕ) (chan : Chan) (i : ℕ) → Proc → Proc
wake me chan i p =
    if not (i == me) && (is_state p.state State.sleeping && chan_eq p.chan chan)
    then record p { state = State.runnable }
    else p

unfoldable pub wakeup_from : (me : ℕ) (chan : Chan) (i : ℕ) → Table → Table
wakeup_from me chan i [] = []
wakeup_from me chan i (p ∷ ps) = wake me chan i p ∷ wakeup_from me chan (i + 1) ps

unfoldable pub wakeup : (me : ℕ) (chan : Chan) → Table → Table
wakeup me chan ps = wakeup_from me chan 0 ps

-- The body of the loop of `kill`, for the process that is found.
unfoldable pub mark_killed : Proc → Proc
mark_killed p =
    let q = record p { killed = 1 } in
    if is_state q.state State.sleeping then record q { state = State.runnable } else q

-- The int result 0 is `true`, and -1 is `false`.
unfoldable pub kill : (pid : ℕ) → Table → Table × Bool
kill pid [] = ([], false)
kill pid (p ∷ ps) =
    let (ps', found) = kill pid ps in
    if p.pid == pid then (mark_killed p ∷ ps, true) else (p ∷ ps', found)

-- A pointer to a process as what a process sleeps on.
abbrev pub chan_of : Option ℕ → Chan
chan_of none = Chan.nothing
chan_of (some i) = Chan.process i

-- The loop of `reparent`, from index `i` on.
unfoldable pub reparent_loop : (rounds i me p : ℕ) (initproc : Option ℕ) → Table → Table
reparent_loop zero i me p initproc ps = ps
reparent_loop (suc rounds) i me p initproc ps = elim (get_elem? ps i) [
  | none ↦ ps
  | some pp ↦
      if ptr_eq pp.parent (some p)
      then reparent_loop rounds (i + 1) me p initproc
          (wakeup me (chan_of initproc) (set ps i (record pp { parent = initproc })))
      else reparent_loop rounds (i + 1) me p initproc ps
]

unfoldable pub reparent : (me p : ℕ) (initproc : Option ℕ) → Table → Table
reparent me p initproc ps = reparent_loop (length ps) 0 me p initproc ps

pub sysinfo_free_proc : Table → ℕ
sysinfo_free_proc [] = 0
sysinfo_free_proc (p ∷ ps) =
    if not (is_state p.state State.unused) then suc (sysinfo_free_proc ps) else sysinfo_free_proc ps
