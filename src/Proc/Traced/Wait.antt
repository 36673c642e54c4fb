-- ===== src/Proc/Traced/Wait.antt =====
-- `wait` of lab2/proc.c, whose `freeproc` also clears the trace mask.
use my_os_proj.Base.{
  ℕ, zero, suc, ◌+◌, Bool, true, false, not, ◌&&◌, ◌||◌, ◌==◌, Option, some, length, if◌then◌else◌,
}
use my_os_proj.Memory.{store32}
use my_os_proj.Kernel
use my_os_proj.Kernel.{Platform}
use my_os_proj.Copy.{copyout}
use my_os_proj.Proc.{State, Proc, is_state, ptr_eq}
use my_os_proj.Proc.System.{Files, System, Out, ok, Op, pure, ◌>>=◌, ◌>>◌, lift, get_proc}
use my_os_proj.Proc.Exit.{Scan, reaped, copy_failed, scanned, Waited, returned, asleep, conclude}
use my_os_proj.Proc.Sched.{awake}
use my_os_proj.Proc.Traced.{freeproc}

module _ {F : Type 0} (P : Platform) (fs : Files F) where
  pub reap : (me i addr : ℕ) → Proc → Op F Scan
  reap me i addr np = do
    p ← get_proc me
    copied ←
        if not (addr == 0)
        then (do
          lift (Kernel.update (λ m. store32 m (P.xstate_at i) np.xstate))
          lift (copyout P p.pagetable addr (P.xstate_at i) 4))
        else pure true
    if not copied then pure copy_failed else freeproc P fs i >> pure (reaped np.pid)

  pub wait_scan : (rounds i me addr : ℕ) (havekids : Bool) → Op F Scan
  wait_scan zero i me addr havekids s = ok (scanned havekids) s
  wait_scan (suc rounds) i me addr havekids s =
      (do
        np ← get_proc i
        let here = ptr_eq np.parent (some me)
        if here && is_state np.state State.zombie
            then reap me i addr np
            else (λ s'. wait_scan rounds (i + 1) me addr (havekids || here) s'))
        s

  pub wait_round : (me addr : ℕ) → Op F Waited
  wait_round me addr s =
      (do
        scan ← wait_scan (length s.procs) 0 me addr false
        p ← get_proc me
        conclude P fs me p scan)
        s

  -- The loop; `others` is what happens while the process sleeps, up to the point where it runs
  -- again.
  pub wait_loop : (others : System F → System F) (rounds me addr : ℕ) → Op F (Option ℕ)
  wait_loop others zero me addr s = Out.out_of_fuel
  wait_loop others (suc rounds) me addr s =
      (do
        w ← wait_round me addr
        elim w [
          | returned pid ↦ pure pid
          | asleep ↦ (λ s'. (do awake me; λ t. wait_loop others rounds me addr t) (others s'))
        ])
        s
