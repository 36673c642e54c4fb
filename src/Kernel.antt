-- ===== src/Kernel.antt =====
-- The state that the memory-management code works on, and how its functions run: a command takes
-- the state and returns a value with the new state, or ends in `panic`. What the repository does
-- not contain (the linker's symbols and the macros of kernel/memlayout.h and kernel/riscv.h whose
-- text is nowhere quoted) is the record `Platform`.
use my_os_proj.Base.{ℕ, ◌+◌, ◌-◌, ◌*◌, ◌/◌, ◌%◌, ◌^◌, ◌≤◌, ◌≡◌, ltb, if◌then◌else◌}
use my_os_proj.Memory.{Memory}

abbrev pub page_size : ℕ
page_size = 4096

-- vm.c quotes `#define KERNBASE 0x80000000L`.
abbrev pub kernbase : ℕ
kernbase = 0x8000_0000

-- proc.c quotes `#define MAXVA (1L << (9 + 9 + 9 + 12 - 1))`.
abbrev pub maxva : ℕ
maxva = 2 ^ (9 + 9 + 9 + 12 - 1)

-- lab2/proc.c says of NPROC that it is 64.
abbrev pub nproc : ℕ
nproc = 64

-- proc.c quotes TRAMPOLINE, TRAPFRAME and USYSCALL: the three pages below `maxva`.
abbrev pub trampoline_va : ℕ
trampoline_va = maxva - page_size

abbrev pub trapframe_va : ℕ
trapframe_va = trampoline_va - page_size

abbrev pub usyscall_va : ℕ
usyscall_va = trapframe_va - page_size

-- uint64 arithmetic wraps.
abbrev pub u64 : ℕ → ℕ
u64 n = n % 2 ^ 64

-- `kernel_end`, `etext` and `trampoline` are symbols of kernel.ld and of trampoline.S: the first
-- address behind the kernel, the end of its text, and the page for entering and leaving it.
-- `phystop` is PHYSTOP, the end of RAM, and `kstack` the macro KSTACK; `forkret` is the address of
-- that function and `xstate_at i` that of `proc[i].xstate`. The rounding macros work on uint64
-- values. Physical addresses have 56 bits in Sv39.
pub record Platform : Type 0 where
  pub kernel_end : ℕ
  pub phystop : ℕ
  pub etext : ℕ
  pub trampoline : ℕ
  pub kstack : ℕ → ℕ
  pub forkret : ℕ
  pub xstate_at : ℕ → ℕ
  pub pgroundup : ℕ → ℕ
  pub pgrounddown : ℕ → ℕ
  pub kernbase-le-end : kernbase ≤ kernel_end
  pub end-le-phystop : kernel_end ≤ phystop
  pub phystop-le : phystop ≤ 2 ^ 56
  pub phystop_aligned : phystop % 4096 ≡ 0
  pub pgroundup_lem : (a : ℕ) → pgroundup a ≡ (a + 4095) % 2 ^ 64 / 4096 * 4096
  pub pgrounddown_lem : (a : ℕ) → pgrounddown a ≡ a / 4096 * 4096

-- An int converted to uint64: a pattern of 32 bits, whose sign is extended.
abbrev pub sign_extend : ℕ → ℕ
sign_extend w = if ltb w (2 ^ 31) then w else w + 2 ^ 64 - 2 ^ 32

-- The calls of `panic`, and the trap of the kernel on a null pointer, which its page table does not
-- map.
pub data Panic : Type 0 where
  kfree_panic walk_panic kvmmap_panic mappages_size mappages_remap : Panic
  uvmunmap_align uvmunmap_walk uvmunmap_not_mapped uvmunmap_not_leaf : Panic
  inituvm freewalk_leaf uvmcopy_pte uvmcopy_page uvmclear_panic kalloc_panic init_exiting
        argraw_panic :
      Panic
  sched_lock sched_locks sched_running sched_interruptible null_pointer : Panic

-- `kmem.freelist` and the contents of physical memory.
pub record Kernel : Type 0 where
  pub mem : Memory
  pub freelist : ℕ

-- `out_of_fuel` marks a loop that was not given enough rounds.
pub data Run (A : Type 0) : Type 0 where
  ok : A → Kernel → Run A
  panic : Panic → Run A
  out_of_fuel : Run A

abbrev pub Cmd : Type 0 → Type 0
Cmd A = Kernel → Run A

abbrev pub pure : {A : Type 0} → A → Cmd A
pure a k = ok a k

abbrev pub fail : {A : Type 0} → Panic → Cmd A
fail e k = panic e

abbrev pub and_then : {A B : Type 0} → Run A → (A → Cmd B) → Run B
and_then (ok a k) f = f a k
and_then (panic e) f = panic e
and_then out_of_fuel f = out_of_fuel

infixl 5 ◌>>=◌ ◌>>◌
abbrev pub ◌>>=◌ : {A B : Type 0} → Cmd A → (A → Cmd B) → Cmd B
◌>>=◌ m f k = and_then (m k) f

abbrev pub ◌>>◌ : {B : Type 0} → Cmd (Unit {0}) → Cmd B → Cmd B
◌>>◌ m n k = and_then (m k) (λ _. n)

abbrev pub get : Cmd Kernel
get k = ok k k

-- A write to memory.
abbrev pub update : (Memory → Memory) → Cmd (Unit {0})
update f k = ok tt (record k { mem = f k.mem })
