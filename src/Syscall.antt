-- ===== src/Syscall.antt =====
-- System calls: lab2/syscall.c, the calls of lab2/sysproc.c, and `sys_pgaccess` of lab3/sysproc.c.
-- A trap frame lies in memory, with the registers a0 to a7 at the offsets 112 to 168. What `printf`
-- prints is the result of `syscall`.
pub mod Dispatch
pub mod Strings
pub mod Trace
pub mod Table
use my_os_proj.Base.{
  ℕ, zero, suc, ◌+◌, ◌-◌, ◌*◌, ◌/◌, ◌%◌, ◌^◌, Bool, true, false, not, ◌&&◌, ◌||◌, ltb, leb, ◌==◌,
  Option, none, some, List, [], ◌∷◌, if◌then◌else◌,
}
use my_os_proj.Memory.{load64, store64}
use my_os_proj.Kernel
use my_os_proj.Kernel.{page_size, sign_extend, u64, Platform, argraw_panic}
use my_os_proj.Kalloc.{sysinfo_free_mem}
use my_os_proj.Copy.{copyout, copyin}
use my_os_proj.Proc.{Proc}
use my_os_proj.Proc.Table.{kill, sysinfo_free_proc}
use my_os_proj.Proc.Life.{growproc}
use my_os_proj.Proc.Traced.{fork}
use my_os_proj.Proc.Access.{pgaccess}
use my_os_proj.Proc.Exit.{exit}
use my_os_proj.Proc.System.{
  Files, System, Out, ok, Op, pure, fail, ◌>>=◌, ◌>>◌, lift, get_proc, update_proc,
}

-- -1 as a uint64
abbrev pub minus_one : ℕ
minus_one = 2 ^ 64 - 1

-- The register a`n` of a process.
abbrev pub arg_at : Proc → ℕ → ℕ
arg_at p n = p.trapframe + 112 + 8 * n

module _ {F : Type 0} where
  unfoldable pub argraw : (me n : ℕ) → Op F ℕ
  argraw me n = do
    p ← get_proc me
    if leb n 5 then (λ s. ok (load64 s.kernel.mem (arg_at p n)) s) else fail argraw_panic

  -- The argument as a pattern of 32 bits.
  unfoldable pub argint : (me n : ℕ) → Op F ℕ
  argint me n = do w ← argraw me n; pure (w % 2 ^ 32)

  pub argaddr : (me n : ℕ) → Op F ℕ
  argaddr me n = argraw me n

  -- The word at a user address goes to `ip`; `false` is -1.
  pub fetchaddr : (P : Platform) (me addr ip : ℕ) → Op F Bool
  fetchaddr P me addr ip = do
    p ← get_proc me
    if leb p.sz addr || ltb p.sz (u64 (addr + 8))
        then pure false
        else lift (copyin P p.pagetable ip addr 8)

  pub sys_getpid : (me : ℕ) → Op F ℕ
  sys_getpid me = do p ← get_proc me; pure (sign_extend p.pid)

  pub sys_kill : (me : ℕ) → Op F ℕ
  sys_kill me = do
    pid ← argint me 0
    λ s.
        let (procs, found) = kill pid s.procs in
        ok (if found then 0 else minus_one) (record s { procs = procs })

  unfoldable pub sys_trace : (me : ℕ) → Op F ℕ
  sys_trace me = do mask ← argint me 0; update_proc me (λ q. record q { mask = mask }); pure 0

module _ {F : Type 0} (P : Platform) (fs : Files F) where
  -- `exit` does not return.
  pub sys_exit : (me : ℕ) → Op F ℕ
  sys_exit me = do n ← argint me 0; exit P fs me n; pure 0

  pub sys_fork : (me : ℕ) → Op F ℕ
  sys_fork me = do
    pid ← fork P fs me
    elim pid [ none ↦ pure minus_one | some i ↦ pure (sign_extend i) ]

  -- The call of lab3; the variable `mask` of `pgaccess` is at the address `mask`.
  pub sys_pgaccess : (me mask : ℕ) → Op F ℕ
  sys_pgaccess me mask = do
    starting_va ← argaddr me 0
    num ← argint me 1
    ans_buff ← argaddr me 2
    done ← pgaccess P me starting_va num ans_buff mask
    if done then pure 0 else pure minus_one

  pub sys_sbrk : (me : ℕ) → Op F ℕ
  sys_sbrk me = do
    n ← argint me 0
    p ← get_proc me
    let addr = p.sz % 2 ^ 32
    done ← growproc P fs me n
    if not done then pure minus_one else pure (sign_extend addr)

  -- `struct sysinfo info` is at the address `info`; a list of frames is shorter than the fuel.
  pub sys_sysinfo : (me info : ℕ) → Op F ℕ
  sys_sysinfo me info = do
    addr ← argaddr me 0
    freemem ← lift (sysinfo_free_mem (P.phystop / page_size + 1))
    lift (Kernel.update (λ m. store64 m info freemem))
    λ s.
        (do
          lift (Kernel.update (λ m. store64 m (info + 8) (sysinfo_free_proc s.procs)))
          p ← get_proc me
          copied ← lift (copyout P p.pagetable addr info 16)
          if not copied then pure minus_one else pure 0)
          s

-- `sys_sleep`, over what each round sees: the tick counter and whether the process is killed.
-- `none`: still asleep when the observations end. `n` is an int, compared as unsigned.
pub sleep_loop : (ticks0 n : ℕ) → List (ℕ × Bool) → Option ℕ
sleep_loop ticks0 n [] = none
sleep_loop ticks0 n ((ticks, killed) ∷ later) =
    let rest = sleep_loop ticks0 n later in
    if ltb ((ticks + 2 ^ 32 - ticks0) % 2 ^ 32) n
    then (if killed then some minus_one else rest)
    else some 0

module _ {F : Type 0} where
  -- `ticks0` is the tick counter at the start, and `rounds` what each round of the loop sees.
  pub sys_sleep : (ticks0 : ℕ) (rounds : List (ℕ × Bool)) (me : ℕ) → Op F ℕ
  sys_sleep ticks0 rounds me = do
    n ← argint me 0
    λ s. elim (sleep_loop ticks0 n rounds) [ none ↦ Out.out_of_fuel | some result ↦ ok result s ]

-- A line that `syscall` prints: of a traced call, with its number, for which it prints the name in
-- `sysnames`, and its result, as an int; or of a number that is no call.
pub data Printed : Type 0 where
  silent : Printed
  traced : (pid num result : ℕ) → Printed
  unknown : (pid : ℕ) (name : List ℕ) (num : ℕ) → Printed

-- NELEM(syscalls): the numbers of lab2/syscall.h run from 1 to 23.
abbrev pub nelem_syscalls : ℕ
nelem_syscalls = 24

module _ {F : Type 0} (syscalls : ℕ → Option (ℕ → Op F ℕ)) where
  -- The call of a valid number, and its trace.
  pub run_syscall : (me num : ℕ) (handler : ℕ → Op F ℕ) → Op F Printed
  run_syscall me num handler = do
    p ← get_proc me
    result ← handler me
    lift (Kernel.update (λ m. store64 m (arg_at p 0) result))
    q ← get_proc me
    if q.mask / 2 ^ num % 2 == 1 then pure (traced q.pid num result) else pure silent

  pub no_syscall : (me num : ℕ) → Op F Printed
  no_syscall me num = do
    p ← get_proc me
    lift (Kernel.update (λ m. store64 m (arg_at p 0) minus_one))
    pure (unknown p.pid p.name num)

  -- `num` is the int in a7.
  pub syscall : (me : ℕ) → Op F Printed
  syscall me s =
      (do
        p ← get_proc me
        let num = load64 s.kernel.mem (arg_at p 7) % 2 ^ 32
        if (ltb 0 num && ltb num (2 ^ 31)) && ltb num nelem_syscalls
            then (elim (syscalls num) [
              | none ↦ no_syscall me num
              | some handler ↦ run_syscall me num handler
            ])
            else no_syscall me num)
        s
