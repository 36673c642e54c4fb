-- ===== src/Proc/Traced.antt =====
-- The life of a process in lab2/proc.c, where it has a trace mask: `freeproc`, `allocproc` and
-- `fork`.
pub mod Wait
use my_os_proj.Base.{ℕ, ◌+◌, not, ◌==◌, Option, none, some, [], if◌then◌else◌, map}
use my_os_proj.Memory.{memmove, store64}
use my_os_proj.Kernel
use my_os_proj.Kernel.{page_size, u64, Platform}
use my_os_proj.Kalloc.{kalloc}
use my_os_proj.Uvm.{uvmcopy}
use my_os_proj.Proc.{State, Chan, Proc}
use my_os_proj.Proc.Life.{allocpid, find_unused, free_page, dup_files, trapframe_size}
use my_os_proj.Proc.TracedPages.{proc_pagetable, proc_freepagetable}
use my_os_proj.Proc.System.{
  Files, ok, Op, pure, ◌>>=◌, ◌>>◌, lift, get_proc, update_proc, with_files,
}

-- The fields that `freeproc` resets at its end.
unfoldable pub cleared : Proc → Proc
cleared p = record p {
  sz = 0;
  pid = 0;
  parent = none;
  name = [];
  chan = Chan.nothing;
  killed = 0;
  xstate = 0;
  state = State.unused;
  mask = 0;
}

module _ {F : Type 0} (P : Platform) (fs : Files F) where
  open fs use {filedup, idup}

  unfoldable pub freeproc : ℕ → Op F (Unit {0})
  freeproc i = do
    p ← get_proc i
    free_page P fs p.trapframe
    update_proc i (λ q. record q { trapframe = 0 })
    if not (p.pagetable == 0) then lift (proc_freepagetable P p.pagetable p.sz) else pure tt
    update_proc i (λ q. record q { pagetable = 0 })
    update_proc i cleared

  unfoldable pub give_up : ℕ → Op F (Option ℕ)
  give_up i = freeproc i >> pure none

  -- The part of `allocproc` behind the label `found`.
  unfoldable pub found : ℕ → Op F (Option ℕ)
  found i = do
    pid ← allocpid P fs
    update_proc i (λ q. record q { pid = pid })
    update_proc i (λ q. record q { state = State.used })
    trapframe ← lift kalloc
    update_proc i (λ q. record q { trapframe = trapframe })
    if trapframe == 0 then give_up i else do
      pagetable ← lift (proc_pagetable P trapframe)
      update_proc i (λ q. record q { pagetable = pagetable })
      if pagetable == 0 then give_up i else do
        update_proc i (λ q. record q { context_s = map (λ _. 0) q.context_s })
        update_proc i (λ q. record q { context_ra = P.forkret })
        update_proc i (λ q. record q { context_sp = u64 (q.kstack + page_size) })
        pure (some i)

  unfoldable pub allocproc : Op F (Option ℕ)
  allocproc s = elim (find_unused 0 s.procs) [ none ↦ ok none s | some i ↦ found i s ]

  -- The part of `fork` behind `np->mask = p->mask`, for the parent `p` and the child `np` at `i`.
  unfoldable pub dress : (me i : ℕ) (p np : Proc) → Op F (Option ℕ)
  dress me i p np = do
    lift (Kernel.update (λ m. memmove m np.trapframe p.trapframe (trapframe_size P fs)))
    lift (Kernel.update (λ m. store64 m (np.trapframe + 112) 0))
    ofile ← dup_files P fs p.ofile np.ofile
    update_proc i (λ q. record q { ofile = ofile })
    cwd ← with_files (idup p.cwd)
    update_proc i (λ q. record q { cwd = cwd })
    update_proc i (λ q. record q { name = p.name })
    update_proc i (λ q. record q { parent = some me })
    update_proc i (λ q. record q { state = State.runnable })
    pure (some np.pid)

  -- The pid of the child, or `none` for -1.
  unfoldable pub fork : (me : ℕ) → Op F (Option ℕ)
  fork me = do
    p ← get_proc me
    child ← allocproc
    elim child [
      | none ↦ pure none
      | some i ↦ do
        np ← get_proc i
        copied ← lift (uvmcopy P p.pagetable np.pagetable p.sz)
        if not copied then freeproc i >> pure none else do
          update_proc i (λ q. record q { sz = p.sz })
          update_proc i (λ q. record q { mask = p.mask })
          dress me i p np
    ]
