-- ===== src/Tests/Pids.antt =====
-- What the processes of a small table do one after another, and their pids.
use my_os_proj.Base.{
  ℕ, zero, suc, ◌+◌, ◌<◌, ◌≡◌, ◌≢◌, refl, arith, some, none, List, [], ◌∷◌, get_elem?,
}
use my_os_proj.Proc.{State, Chan}
use my_os_proj.Proc.Table.{wake, wakeup_from, wakeup, mark_killed, kill, reparent_loop, reparent}
use my_os_proj.Proc.Life.{find_unused, allocproc, fork}
use my_os_proj.Proc.Exit.{close_files, exit}
use my_os_proj.Proc.Sched.{sched, sleep, awake, schedule}
use my_os_proj.Proc.System.{System, Files}
use my_os_proj.Proc.Pids.{Pids, pids}
use my_os_proj.Proc.Unique.{PidsOk}
use my_os_proj.Proc.Action.{Action, act, all_new_pids, Reaches, stay, then_ok, then_exited}
use my_os_proj.Proc.Distinct.{Reaches-PidsOk}
use my_os_proj.Proc.Traced
use my_os_proj.Proc.Inherit.{EndsIn, Inherits, fork-Inherits}
use my_os_proj.Tests.Machine.{small, machine}
use my_os_proj.Tests.Procs.{family, process}
use my_os_proj.Tests.Sleep.{cpu, running}

abbrev no_files : Files (Unit {0})
no_files = record {
  filedup = λ f s. (f, s);
  fileclose = λ f s. s;
  idup = λ f s. (f, s);
  iput = λ f s. s;
  begin_op = λ s. s;
  end_op = λ s. s;
  namei_root = λ s. (1, s);
}

-- The process 1 forks in vain, as the table is full; it sleeps, is woken and runs again, kills the
-- process 2 and exits.
abbrev history : List Action
history =
    Action.forks 1
    ∷ Action.sleeps cpu 1 (Chan.address 9)
    ∷ Action.wakes 0 (Chan.address 9)
    ∷ Action.schedules 1
    ∷ Action.awakes 1
    ∷ Action.kills 3
    ∷ Action.exits 1 0
    ∷ []

family-Pids : Pids 4 (pids family)
unfolding pids
family-Pids = record { below = below; distinct = distinct }
  where
    below : (i n : ℕ) → get_elem? (1 ∷ 2 ∷ 3 ∷ []) i ≡ some n → n < 4
    below zero n e = let same : 1 ≡ n = cc in omega arith
    below (suc zero) n e = let same : 2 ≡ n = cc in omega arith
    below (suc (suc zero)) n e = let same : 3 ≡ n = cc in omega arith
    below (suc (suc (suc i))) n e = cc

    position : (i n : ℕ) → get_elem? (1 ∷ 2 ∷ 3 ∷ []) i ≡ some n → n ≡ i + 1
    position zero n e = let same : 1 ≡ n = cc in omega arith
    position (suc zero) n e = let same : 2 ≡ n = cc in omega arith
    position (suc (suc zero)) n e = let same : 3 ≡ n = cc in omega arith
    position (suc (suc (suc i))) n e = cc

    distinct :
        (i j n : ℕ)
        → get_elem? (1 ∷ 2 ∷ 3 ∷ []) i ≡ some n
        → get_elem? (1 ∷ 2 ∷ 3 ∷ []) j ≡ some n
        → n ≢ 0
        → i ≡ j
    distinct i j n e e' ne = omega (arith, position i n e, position j n e')

running-PidsOk : PidsOk 4 running
running-PidsOk = record { pids_ok = family-Pids; bounded = omega arith }

history_runs : (t : System (Unit {0})) × Reaches small no_files history running t
unfolding act fork allocproc find_unused sleep sched wakeup wakeup_from wake schedule awake kill
    mark_killed exit close_files reparent reparent_loop
history_runs = (
  _,
  then_ok _ _ _ _ _ refl (
      then_ok _ _ _ _ _ refl (
        then_ok _ _ _ _ _ refl (
          then_ok _ _ _ _ _ refl (
            then_ok _ _ _ _ _ refl
              (then_ok _ _ _ _ _ refl (then_exited _ _ _ _ _ refl (stay _))))))),
)

Reaches-PidsOk_example : PidsOk (4 + all_new_pids history) history_runs.0
Reaches-PidsOk_example =
    Reaches-PidsOk small no_files 4 history running history_runs.0 history_runs.1 running-PidsOk
      (omega arith)

-- A process that traces, and a free slot.
abbrev tracing : System (Unit {0})
tracing = record {
  kernel = machine;
  procs =
      record (process State.running Chan.nothing 2 none) { mask = 5; sz = 0 }
      ∷ process State.unused Chan.nothing 0 none
      ∷ [];
  nextpid = 3;
  initproc = none;
  files = tt;
}

fork-Inherits_example : EndsIn (Inherits 5) (Traced.fork small no_files 0 tracing)
fork-Inherits_example =
    fork-Inherits small no_files 0
      (record (process State.running Chan.nothing 2 none) { mask = 5; sz = 0 }) tracing refl
