-- ===== src/Proc/Distinct.antt =====
-- No action of a process gives two processes the same pid.
use my_os_proj.Base.{
  ℕ, zero, suc, ◌+◌, ◌^◌, ◌<◌, ◌≡◌, refl, subst, arith, Bool, false, not, ◌&&◌, ◌||◌, ◌==◌, some,
  List, [], ◌∷◌, length, Bool-cases, inl, inr,
}
use my_os_proj.Kernel.{Platform}
use my_os_proj.Proc.{State, Chan, Proc, Table, ptr_eq, is_state}
use my_os_proj.Proc.Table.{wakeup, kill, reparent, chan_of}
use my_os_proj.Proc.System.{System, Files, update_procs, update_files, get_proc}
use my_os_proj.Proc.Life.{fork}
use my_os_proj.Proc.Exit.{Scan, conclude, close_files, exit, reap, wait_scan, wait_round}
use my_os_proj.Proc.Sched.{Cpu, sched, yield, sleep, awake, schedule}
use my_os_proj.Proc.Pids.{pids, pids-wakeup, pids-kill, pids-reparent}
use my_os_proj.Proc.Keeps.{
  Ends, Keeps, Keeps-bind, Keeps-then, Keeps-if, Keeps-pure, Keeps-fail, Keeps-exited,
  Keeps-get_proc, Keeps-update_files, Keeps-update_procs, after_bind,
}
use my_os_proj.Proc.Unique.{
  PidsOk, PidsOk-procs, lift-Keeps, field-Keeps, freeproc-Keeps, growproc-Keeps, fork-Moves,
}
use my_os_proj.Proc.Action.{
  Action, new_pids, all_new_pids, act, Reaches, stay, then_ok, then_exited,
}

module _ {F : Type 0} (P : Platform) (fs : Files F) where
  module _ (b : ℕ) where
    table-Keeps :
        (f : Table → Table)
        → ((ps : Table) → pids (f ps) ≡ pids ps)
        → Keeps {F = F} (PidsOk b) (update_procs f)
    table-Keeps f same = Keeps-update_procs f (λ s h. PidsOk-procs b s (f s.procs) (same s.procs) h)

    files-Keeps : (f : F → F) → Keeps {F = F} (PidsOk b) (update_files f)
    files-Keeps f =
        Keeps-update_files f (λ s g h. record { pids_ok = h.pids_ok; bounded = h.bounded })

    close_files-Keeps : (fds : List ℕ) → Keeps (PidsOk b) (close_files P fs fds)
    unfolding close_files
    close_files-Keeps [] = Keeps-pure
    close_files-Keeps (f ∷ fds) =
        Keeps-then (Keeps-if (not (f == 0)) (files-Keeps _) Keeps-pure) (close_files-Keeps fds)

    exit-Keeps : (me status : ℕ) → Keeps (PidsOk b) (exit P fs me status)
    unfolding exit
    exit-Keeps me status = record {
      run = λ s q. elim (Bool-cases (ptr_eq (some me) s.initproc)) [
        | inl e ↦ rw (e, Ends) tt
        | inr e ↦ rw e (
            after_bind (get_proc me s) _ (Keeps-get_proc.run s q) (λ p.
              Keeps-then (close_files-Keeps p.ofile) (
                Keeps-then (field-Keeps b me _ (λ q. refl)) (
                  Keeps-then (files-Keeps fs.begin_op) (
                    Keeps-then (files-Keeps (fs.iput p.cwd)) (
                      Keeps-then (files-Keeps fs.end_op) (
                        Keeps-then (field-Keeps b me _ (λ q. refl)) (
                          Keeps-then
                            (table-Keeps (reparent me me s.initproc)
                              (pids-reparent me me s.initproc))
                            (Keeps-then
                              (table-Keeps (wakeup me (chan_of p.parent))
                                (pids-wakeup me (chan_of p.parent)))
                              (Keeps-then
                                (field-Keeps b me (λ q. record q { xstate = status }) (λ q. refl))
                                (Keeps-then
                                  (field-Keeps b me (λ q. record q { state = State.zombie })
                                    (λ q. refl))
                                  Keeps-exited)))))))))))
      ];
    }

    reap-Keeps : (me i addr : ℕ) (np : Proc) → Keeps (PidsOk b) (reap P fs me i addr np)
    unfolding reap
    reap-Keeps me i addr np =
        search
          (Keeps-bind, Keeps-then, Keeps-if, Keeps-pure, Keeps-get_proc, lift-Keeps, freeproc-Keeps)
          depth 12 parts 0

    wait_scan-Keeps :
        (rounds i me addr : ℕ) (havekids : Bool)
        → Keeps (PidsOk b) (wait_scan P fs rounds i me addr havekids)
    unfolding wait_scan
    wait_scan-Keeps zero i me addr havekids = Keeps-pure
    wait_scan-Keeps (suc rounds) i me addr havekids = Keeps-bind Keeps-get_proc (λ np.
        Keeps-if (ptr_eq np.parent (some me) && is_state np.state State.zombie)
          (reap-Keeps me i addr np)
          (wait_scan-Keeps rounds (i + 1) me addr (havekids || ptr_eq np.parent (some me))))

    sched-Keeps : (cpu : Cpu) (me : ℕ) → Keeps {F = F} (PidsOk b) (sched cpu me)
    unfolding sched
    sched-Keeps cpu me =
        search (Keeps-bind, Keeps-if, Keeps-pure, Keeps-fail, Keeps-get_proc) depth 12 parts 0

    yield-Keeps : (cpu : Cpu) (me : ℕ) → Keeps {F = F} (PidsOk b) (yield cpu me)
    unfolding yield
    yield-Keeps cpu me = Keeps-then (field-Keeps b me _ (λ q. refl)) (sched-Keeps cpu me)

    sleep-Keeps : (cpu : Cpu) (me : ℕ) (chan : Chan) → Keeps {F = F} (PidsOk b) (sleep cpu me chan)
    unfolding sleep
    sleep-Keeps cpu me chan =
        Keeps-then (field-Keeps b me _ (λ q. refl))
          (Keeps-then (field-Keeps b me _ (λ q. refl)) (sched-Keeps cpu me))

    awake-Keeps : (me : ℕ) → Keeps {F = F} (PidsOk b) (awake me)
    unfolding awake
    awake-Keeps me = field-Keeps b me _ (λ q. refl)

    schedule-Keeps : (i : ℕ) → Keeps {F = F} (PidsOk b) (schedule i)
    unfolding schedule
    schedule-Keeps i =
        search (Keeps-bind, Keeps-then, Keeps-if, Keeps-pure, Keeps-get_proc, field-Keeps) depth 12
          parts 0

    conclude-Keeps : (me : ℕ) (p : Proc) (scan : Scan) → Keeps (PidsOk b) (conclude P fs me p scan)
    unfolding conclude
    conclude-Keeps me p (Scan.reaped pid) = Keeps-pure
    conclude-Keeps me p Scan.copy_failed = Keeps-pure
    conclude-Keeps me p (Scan.scanned havekids) =
        Keeps-if (not havekids || not (p.killed == 0)) Keeps-pure
          (Keeps-then (field-Keeps b me _ (λ q. refl)) Keeps-pure)

    wait_round-Keeps : (me addr : ℕ) → Keeps (PidsOk b) (wait_round P fs me addr)
    unfolding wait_round
    wait_round-Keeps me addr = record {
      run = λ s q.
          after_bind (wait_scan P fs (length s.procs) 0 me addr false s) _
            ((wait_scan-Keeps (length s.procs) 0 me addr false).run s q)
            (λ scan. Keeps-bind Keeps-get_proc (λ p. conclude-Keeps me p scan));
    }

    -- Every action but `fork`.
    act-Keeps : (a : Action) → new_pids a ≡ 0 → Keeps (PidsOk b) (act P fs a)
    unfolding act
    act-Keeps (Action.forks me) e = absurd (omega arith)
    act-Keeps (Action.grows me n) e = Keeps-bind (growproc-Keeps P fs b me n) (λ done. Keeps-pure)
    act-Keeps (Action.exits me status) e = exit-Keeps me status
    act-Keeps (Action.waits me addr) e =
        Keeps-bind (wait_round-Keeps me addr) (λ waited. Keeps-pure)
    act-Keeps (Action.kills pid) e = table-Keeps (λ ps. (kill pid ps).0) (pids-kill pid)
    act-Keeps (Action.wakes me chan) e = table-Keeps (wakeup me chan) (pids-wakeup me chan)
    act-Keeps (Action.yields cpu me) e = yield-Keeps cpu me
    act-Keeps (Action.sleeps cpu me chan) e = sleep-Keeps cpu me chan
    act-Keeps (Action.awakes me) e = awake-Keeps me
    act-Keeps (Action.schedules i) e = Keeps-bind (schedule-Keeps i) (λ runs. Keeps-pure)

  -- `fork` hands out at most one pid.
  act_ends :
      (b : ℕ) (a : Action) (s : System F)
      → PidsOk b s
      → b + new_pids a < 2 ^ 32
      → Ends (PidsOk (b + new_pids a)) (act P fs a s)
  unfolding act
  act_ends b (Action.forks me) s h small =
      after_bind (fork P fs me s) _
        ((fork-Moves P fs (b + 1) me small).run s (h.pids_ok, omega arith)) (λ pid. Keeps-pure)
  act_ends b a s h small =
      subst (λ n. Ends (PidsOk n) (act P fs a s)) (let same : b ≡ b + 0 = omega arith in same)
        ((act-Keeps b a refl).run s h)

  sum :
      (b : ℕ) (a : Action) (rest : List Action)
      → b + new_pids a + all_new_pids rest ≡ b + (new_pids a + all_new_pids rest)
  sum b a rest = omega arith

  -- From a state in which the pids of the table are below `nextpid`, and those that are not 0
  -- distinct, whatever the processes do, in whatever order, leads to such states only, as long as
  -- `nextpid`, an int that is counted up by each `fork`, does not wrap.
  pub Reaches-PidsOk :
      (b : ℕ) (actions : List Action) (s t : System F)
      → Reaches P fs actions s t
      → PidsOk b s
      → b + all_new_pids actions < 2 ^ 32
      → PidsOk (b + all_new_pids actions) t
  Reaches-PidsOk b _ s _ (stay _) h small =
      subst (λ n. PidsOk n s) (let same : b ≡ b + 0 = omega arith in same) h
  Reaches-PidsOk b _ s u (then_ok a rest _ t _ run more) h small =
      subst (λ n. PidsOk n u) (sum b a rest)
        (Reaches-PidsOk (b + new_pids a) rest t u more
          (subst (Ends (PidsOk (b + new_pids a))) run (act_ends b a s h (omega arith)))
          (omega arith))
  Reaches-PidsOk b _ s u (then_exited a rest _ t _ run more) h small =
      subst (λ n. PidsOk n u) (sum b a rest)
        (Reaches-PidsOk (b + new_pids a) rest t u more
          (subst (Ends (PidsOk (b + new_pids a))) run (act_ends b a s h (omega arith)))
          (omega arith))
