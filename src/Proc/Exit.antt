-- ===== src/Proc/Exit.antt =====
-- The end of a process in lab3/proc.c: `exit` and a round of `wait`.
use my_os_proj.Base.{
  ℕ, zero, suc, ◌+◌, Bool, true, false, not, ◌&&◌, ◌||◌, ◌==◌, Option, none, some, List, [], ◌∷◌,
  if◌then◌else◌, map, length,
}
use my_os_proj.Memory.{store32}
use my_os_proj.Kernel
use my_os_proj.Kernel.{page_size, u64, sign_extend, Platform, init_exiting, null_pointer}
use my_os_proj.Copy.{copyout}
use my_os_proj.Proc.{State, Chan, Proc, is_state, ptr_eq}
use my_os_proj.Proc.Table.{wakeup, reparent, chan_of}
use my_os_proj.Proc.System.{
  Files, Out, ok, exited, Op, pure, ◌>>=◌, ◌>>◌, lift, get_proc, update_proc, update_procs,
  update_files,
}
use my_os_proj.Proc.Life.{freeproc}

-- What a scan of `wait` ends with: a child reaped, with its pid; a copy that failed; or neither,
-- and whether there are children.
pub data Scan : Type 0 where
  reaped : ℕ → Scan
  copy_failed : Scan
  scanned : Bool → Scan

-- What a round of the loop of `wait` does: it returns a pid or -1 (`none`), or sleeps on its own
-- process.
pub data Waited : Type 0 where
  returned : Option ℕ → Waited
  asleep : Waited

module _ {F : Type 0} (P : Platform) (fs : Files F) where
  open fs use {fileclose, iput, begin_op, end_op}

  unfoldable pub close_files : List ℕ → Op F (Unit {0})
  close_files [] s = ok tt s
  close_files (f ∷ fds) s =
      (do if not (f == 0) then update_files (fileclose f) else pure tt; λ s'. close_files fds s') s

  -- The last step is the call of `sched`, from which it does not return.
  unfoldable pub exit : (me status : ℕ) → Op F (Unit {0})
  exit me status s =
      if ptr_eq (some me) s.initproc
      then Out.panic init_exiting
      else (do
        p ← get_proc me
        close_files p.ofile
        update_proc me (λ q. record q { ofile = map (λ _. 0) q.ofile })
        update_files begin_op
        update_files (iput p.cwd)
        update_files end_op
        update_proc me (λ q. record q { cwd = 0 })
        update_procs (reparent me me s.initproc)
        update_procs (wakeup me (chan_of p.parent))
        update_proc me (λ q. record q { xstate = status })
        update_proc me (λ q. record q { state = State.zombie })
        λ s'. exited s')
          s

  unfoldable pub reap : (me i addr : ℕ) → Proc → Op F Scan
  reap me i addr np = do
    p ← get_proc me
    copied ←
        if not (addr == 0)
        then (do
          lift (Kernel.update (λ m. store32 m (P.xstate_at i) np.xstate))
          lift (copyout P p.pagetable addr (P.xstate_at i) 4))
        else pure true
    if not copied then pure copy_failed else freeproc P fs i >> pure (reaped np.pid)

  unfoldable pub wait_scan : (rounds i me addr : ℕ) (havekids : Bool) → Op F Scan
  wait_scan zero i me addr havekids s = ok (scanned havekids) s
  wait_scan (suc rounds) i me addr havekids s =
      (do
        np ← get_proc i
        let here = ptr_eq np.parent (some me)
        if here && is_state np.state State.zombie
            then reap me i addr np
            else (λ s'. wait_scan rounds (i + 1) me addr (havekids || here) s'))
        s

  -- What a round of the loop of `wait` does after the scan.
  unfoldable pub conclude : (me : ℕ) → Proc → Scan → Op F Waited
  conclude me p (reaped pid) = pure (returned (some pid))
  conclude me p copy_failed = pure (returned none)
  conclude me p (scanned havekids) =
      if not havekids || not (p.killed == 0) then pure (returned none) else do
        update_proc me (λ q. record q { chan = Chan.process me; state = State.sleeping })
        pure asleep

  -- One round of the loop of `wait`.
  unfoldable pub wait_round : (me addr : ℕ) → Op F Waited
  wait_round me addr s =
      (do scan ← wait_scan (length s.procs) 0 me addr false; p ← get_proc me; conclude me p scan) s
