-- ===== src/Proc/Life.antt =====
-- The life of a process in lab3/proc.c: `allocpid`, `allocproc`, `freeproc`, `growproc`, `fork` and
-- `userinit`. A process is named by its index.
use my_os_proj.Base.{
  ℕ, ◌+◌, ◌%◌, ◌^◌, Bool, true, false, not, ◌&&◌, ltb, ◌==◌, Option, none, some, List, [], ◌∷◌,
  if◌then◌else◌, map,
}
use my_os_proj.Memory.{memmove, store32, store64}
use my_os_proj.Kernel
use my_os_proj.Kernel.{page_size, u64, sign_extend, Platform, init_exiting, null_pointer}
use my_os_proj.Kalloc.{kfree, kalloc}
use my_os_proj.Uvm.{uvminit, uvmalloc, uvmdealloc, uvmcopy}
use my_os_proj.Proc.{State, Chan, Proc, Table, is_state}
use my_os_proj.Proc.Pagetable.{proc_pagetable, proc_freepagetable}
use my_os_proj.Proc.System.{
  Files, ok, Op, pure, fail, ◌>>=◌, ◌>>◌, lift, get_proc, update_proc, with_files,
}

-- The first process that is UNUSED, from index `i` on.
unfoldable pub find_unused : (i : ℕ) → Table → Option ℕ
find_unused i [] = none
find_unused i (p ∷ ps) = if is_state p.state State.unused then some i else find_unused (i + 1) ps

-- The fields that `freeproc` resets at its end.
unfoldable pub cleared : Proc → Proc
cleared p = record p {
  sz = 0;
  pid = 0;
  parent = none;
  name = [];
  chan = Chan.nothing;
  killed = 0;
  xstate = 0;
  state = State.unused;
}

abbrev initcode_name : List ℕ
initcode_name = b'i' ∷ b'n' ∷ b'i' ∷ b't' ∷ b'c' ∷ b'o' ∷ b'd' ∷ b'e' ∷ []

module _ {F : Type 0} (P : Platform) (fs : Files F) where
  open fs use {filedup, idup, namei_root}

  unfoldable pub allocpid : Op F ℕ
  allocpid s = ok s.nextpid (record s { nextpid = (s.nextpid + 1) % 2 ^ 32 })

  unfoldable pub free_page : ℕ → Op F (Unit {0})
  free_page pa = if not (pa == 0) then lift (kfree P pa) else pure tt

  unfoldable pub freeproc : ℕ → Op F (Unit {0})
  freeproc i = do
    p ← get_proc i
    free_page p.trapframe
    update_proc i (λ q. record q { trapframe = 0 })
    free_page p.mypid
    update_proc i (λ q. record q { mypid = 0 })
    if not (p.pagetable == 0) then lift (proc_freepagetable P p.pagetable p.sz) else pure tt
    update_proc i (λ q. record q { pagetable = 0 })
    update_proc i cleared

  unfoldable pub give_up : ℕ → Op F (Option ℕ)
  give_up i = freeproc i >> pure none

  -- The part of `allocproc` behind the label `found`.
  unfoldable pub found : ℕ → Op F (Option ℕ)
  found i = do
    pid ← allocpid
    update_proc i (λ q. record q { pid = pid })
    update_proc i (λ q. record q { state = State.used })
    trapframe ← lift kalloc
    update_proc i (λ q. record q { trapframe = trapframe })
    if trapframe == 0 then give_up i else do
      mypid ← lift kalloc
      update_proc i (λ q. record q { mypid = mypid })
      if mypid == 0 then give_up i else do
        lift (Kernel.update (λ m. store32 m mypid pid))
        pagetable ← lift (proc_pagetable P trapframe mypid)
        update_proc i (λ q. record q { pagetable = pagetable })
        if pagetable == 0 then give_up i else do
          update_proc i (λ q. record q { context_s = map (λ _. 0) q.context_s })
          update_proc i (λ q. record q { context_ra = P.forkret })
          update_proc i (λ q. record q { context_sp = u64 (q.kstack + page_size) })
          pure (some i)

  unfoldable pub allocproc : Op F (Option ℕ)
  allocproc s = elim (find_unused 0 s.procs) [ none ↦ ok none s | some i ↦ found i s ]

  -- `n` is an int, as its pattern of 32 bits; `sz` is an unsigned int. 0 is `true`, -1 is `false`.
  unfoldable pub growproc : (me n : ℕ) → Op F Bool
  growproc me n = do
    p ← get_proc me
    let sz = p.sz % 2 ^ 32
    let set_sz = λ (new : ℕ). update_proc me (λ q. record q { sz = new % 2 ^ 32 })
    if ltb 0 n && ltb n (2 ^ 31)
        then (do
          new ← lift (uvmalloc P p.pagetable sz ((sz + n) % 2 ^ 32))
          if new % 2 ^ 32 == 0 then pure false else set_sz new >> pure true)
        else do
          if not (n == 0)
              then (do new ← lift (uvmdealloc P p.pagetable sz ((sz + n) % 2 ^ 32)); set_sz new)
              else set_sz sz
          pure true

  -- `filedup` on each open file of the parent; 0 is no file, and leaves the entry of the child.
  unfoldable pub dup_files : (parent child : List ℕ) → Op F (List ℕ)
  dup_files [] child s = ok child s
  dup_files (f ∷ fds) [] s = ok [] s
  dup_files (f ∷ fds) (g ∷ gs) s =
      (do
        h ← if not (f == 0) then with_files (filedup f) else pure g
        hs ← λ s'. dup_files fds gs s'
        pure (h ∷ hs))
        s

  -- `struct trapframe` has 36 words, `a0` at offset 112.
  abbrev pub trapframe_size : ℕ
  trapframe_size = 288

  -- The pid of the child, or `none` for -1.
  unfoldable pub fork : (me : ℕ) → Op F (Option ℕ)
  fork me = do
    p ← get_proc me
    child ← allocproc
    elim child [
      | none ↦ pure none
      | some i ↦ do
        np ← get_proc i
        copied ← lift (uvmcopy P p.pagetable np.pagetable p.sz)
        if not copied then freeproc i >> pure none else do
          update_proc i (λ q. record q { sz = p.sz })
          lift (Kernel.update (λ m. memmove m np.trapframe p.trapframe trapframe_size))
          lift (Kernel.update (λ m. store64 m (np.trapframe + 112) 0))
          ofile ← dup_files p.ofile np.ofile
          update_proc i (λ q. record q { ofile = ofile })
          cwd ← with_files (idup p.cwd)
          update_proc i (λ q. record q { cwd = cwd })
          update_proc i (λ q. record q { name = p.name })
          update_proc i (λ q. record q { parent = some me })
          update_proc i (λ q. record q { state = State.runnable })
          pure (some np.pid)
    ]

  -- `initcode` is at the address `code`, and has 52 bytes.
  userinit : (code : ℕ) → Op F (Unit {0})
  userinit code = do
    child ← allocproc
    λ s. ok tt (record s { initproc = child })
    elim child [
      | none ↦ fail null_pointer
      | some i ↦ do
        p ← get_proc i
        lift (uvminit P p.pagetable code 52)
        update_proc i (λ q. record q { sz = page_size })
        lift (Kernel.update (λ m. store64 m (p.trapframe + 24) 0))
        lift (Kernel.update (λ m. store64 m (p.trapframe + 48) page_size))
        update_proc i (λ q. record q { name = initcode_name })
        cwd ← with_files namei_root
        update_proc i (λ q. record q { cwd = cwd })
        update_proc i (λ q. record q { state = State.runnable })
    ]
