-- ===== src/Lib.antt =====
-- A model of the kernel code of the laboratories of this repository, which is the xv6 kernel
-- with the changes of the exercises, and of what makes it correct.
--
-- Parts, and the files that model them:
-- * `Memory` is physical memory, which the kernel reaches through its direct map: one byte at
--   every address. `memset`, `memmove` and 64-bit loads and stores are defined on it, so the
--   free list and the page tables lie in the same bytes as user memory, as they do in the
--   program.
-- * `Kernel` is the state (`kmem.freelist` and memory), the monad of commands with `panic`, and
--   the record `Platform` of what the repository does not contain: symbols of the linker,
--   PHYSTOP, the macro KSTACK and the rounding macros, with the facts that the code relies on.
-- * `Kalloc` is lab2/kalloc.c: `kfree`, `kalloc`, `freerange`, `kinit` and `sysinfo_free_mem`.
--   `Kalloc/FreeList` says what the list in memory stands for, `Kalloc/Laws` what one call does,
--   `Kalloc/Range` is the boot, `Kalloc/Count` the count, `Kalloc/Pool` the contract.
-- * `Pte` has the macros of page-table entries that lab3/vm.c quotes in its comments, and the
--   flag bits of the hardware's Sv39 format.
-- * `Walk` is `walk` and `walkaddr` of lab3/vm.c. `Walk/Alloc` is the walk that adds tables,
--   `Walk/Lookup` the one that only reads. `Walk/Halts` has what it takes for a command to end;
--   `Vm/Halts`, `Uvm/Halts` and `Copy/Halts` are about the loops.
-- * `Paging` is the abstract side: the role of each page, the invariant `Inv`, and the address
--   space below a root table as a function (`view`). `Paging/Grow` and `Paging/Growth` are about
--   adding a table, `Paging/Slots` about where entries lie, `Paging/Leaf` about writing one,
--   `Paging/Plain` and `Paging/User` about changes of pages that are no tables, and
--   `Paging/Taken` and `Paging/Freed` about pages that `kalloc` and `kfree` make user pages and
--   free ones.
-- * `Vm` is `mappages`, `kvmmap`, `uvmunmap` and `uvmclear` of lab3/vm.c. `Vm/Step` is a round
--   of `mappages`, `Vm/Mapped` its address space, and `Vm/Map` the loop; so are `Vm/Release`,
--   `Vm/Leaves` and `Vm/Unmap` for `uvmunmap`.
-- * `Copy` is `copyout`, `copyin` and `copyinstr` of lab3/vm.c. `Copy/Span` is the part of
--   memory that user code reaches, `Copy/OutStep` and `Copy/InStep` are about one round of a
--   copy, and `Copy/Out`, `Copy/In` and `Copy/Roundtrip` about whole copies.
-- * `Uvm` is the management of user memory in lab3/vm.c, from `uvmcreate` to `uvmcopy`.
--   `Uvm/Fresh` is about a page from `kalloc` that is filled and mapped, `Uvm/Backed` about a
--   range of them, and `Uvm/Rollback` about taking it back. `Uvm/Dealloc` is about `uvmdealloc`,
--   `Uvm/AllocPage` and `Uvm/Alloc` about `uvmalloc`, `Uvm/CopyPage` and `Uvm/Copied` about
--   `uvmcopy`. `Boot` is the kernel's own page table and the listing `vmprint`, of which
--   `Boot/Entries` and `Boot/Listing` say what it shows.
-- * `Proc` is the process table of lab3/proc.c, with the field `mask` of lab2/proc.h.
--   `Proc/Table` has the scans `wakeup`, `kill`, `reparent` and `sysinfo_free_proc`
--   (`Proc/Table/Adopt` is about a round of `reparent`), `Proc/Pagetable` the page table of a
--   process, `Proc/Life` the functions from `allocproc` to `fork`, `Proc/Exit` has `exit` and
--   `wait`, `Proc/Sched` those around the switch, and `Proc/Access` `pgaccess` and the copies to
--   either space (`Proc/Access/Round` is about one page, `Proc/Access/Marks` and
--   `Proc/Access/Reported` are about a range). `Proc/System` is the state they share: the
--   kernel's memory, the table, `nextpid` and `initproc`. `Proc/Action` lists what processes may
--   do, `Proc/Keeps` is about properties of the state that an operation keeps, and `Proc/Pids`,
--   `Proc/Unique` and `Proc/Distinct` are about the pids. `Proc/Sched/Handover` has `sleep`,
--   `wakeup` and `kill` statement by statement, with the locks that they take, for a process that
--   sleeps, one that wakes it and one that kills it, in any order; `Proc/Sched/Handover/Progress`
--   is about all these orders.
-- * `Syscall` is lab2/syscall.c, lab2/sysproc.c and `sys_pgaccess` of lab3/sysproc.c, whose
--   other calls are those of lab2; `Syscall/Dispatch` is about `syscall`, `Syscall/Table` is the
--   table of the calls and their names, `Syscall/Trace` about `trace` through the dispatch, and
--   `Syscall/Strings` has the string arguments.
-- * `User` has the programs: of lab1, `User/Primes` is primes.c, `User/Xargs` xargs.c,
--   `User/Find` find.c (`User/Find/Name` is `fmtname`), `User/Pingpong` pingpong.c and
--   `User/Sleep` sleep.c, and of lab2, `User/SysinfoTest` is sysinfotest.c and
--   `User/TraceCommand` trace.c. The standard input and the file system are data, and what
--   `fork` and `exec` do is an argument. `User/Primes/Trial` is the trial division that the
--   sieve is compared with. An array that overflows, as in xargs and find, ends the model of
--   the run with a mark, and so does the counter of primes. The two processes of pingpong run in
--   any order, each system call as one step:
--   `User/Pingpong/Schedule` says where they can be, `User/Pingpong/Parent` and
--   `User/Pingpong/Child` how each goes on, and `User/Pingpong/Order` what they print; the pipes
--   are a record of operations with the laws of a queue. sysinfotest runs over a record of the
--   system calls that it makes, of which nothing is supposed; `User/SysinfoTest/Runs` is about how
--   its parts end, and `User/SysinfoTest/Sound` about its test of the memory. Of find,
--   `User/Find/Text` is about names that fill their field,
--   `User/Find/Fits` about the trees on which its array does not overflow, `User/Find/Success`
--   about its result and `User/Find/Matches` about what it reports.
-- * `Tests` runs the model on a machine with ten pages of RAM.
--
-- A uint64 is a natural number, with `% 2 ^ 64` at each operation that can wrap. A pointer into
-- RAM is its address. The spinlocks are left out, but in `Proc/Sched/Handover`: each function that
-- takes `kmem.lock` holds it for the whole of its access to the list, so it is one step.
--
-- Fuel. `while` and `for` loops run on fuel, and running out of it is an outcome of its own
-- (`out_of_fuel`). `freerange` and `sysinfo_free_mem` take the fuel as an argument, and their
-- theorems say how much is enough. The loops of `mappages` and `uvmunmap` are given
-- `page_rounds`, a round for each page below MAXVA and two more; those of `copyout` and `copyin`
-- a round for each byte and one more, and each round copies at least a byte. Those of `uvmalloc`
-- and `uvmcopy` take a round for each page below MAXVA, like those of `mappages`. The loops over
-- the process table take a round for each entry of the table. The loop of xargs takes one round
-- for each line and another, and the processes of primes one for each number and another. The
-- loops of `wait` and of `countfree` in sysinfotest take their fuel as an argument; for the
-- latter, a round for each page that `sbrk` grants and one more is enough. A run of the sides of
-- `Proc/Sched/Handover` has at most 32 steps, and all of them are tried.
--
-- Processes. A pointer to a process is an index into the table, and `myproc()` is an argument.
-- Each function holds the locks that it needs for its reads and writes, so one step of it is a
-- step of the model. An action of `Proc/Action` is a whole function, as on a machine with one
-- CPU where the function is not preempted. Where a process switches away (`sleep`, `yield`,
-- `exit`), the definition stops, and what follows the switch is another definition. The file
-- system, whose code is elsewhere, is a type of states with the operations that proc.c calls. Of
-- `struct proc`, the lock is left out, but in `Proc/Sched/Handover`.
--
-- The functions of lab2/proc.c are earlier forms of those of lab3/proc.c. `Proc/Traced` and
-- `Proc/TracedPages` have those of lab2 that differ (it has no page `mypid`, and its `fork`
-- copies `mask`), `Proc/Traced/Wait` has its `wait`, which differs by its `freeproc`, and
-- `Proc/Inherit` is about the mask; `sysinfo_free_proc` is lab2's.
--
-- Not modelled: the TLB, which `kvminithart` flushes, `swtch` and `forkret`, printing but for
-- the listings, the lines of the tests and those of the programs, and the system calls on files.
-- The functions of lab2/proc.c and lab3/sysproc.c that are copies of those of the other
-- laboratory have no definitions of their own.
pub mod Base
pub mod Memory
pub mod Kernel
pub mod Kalloc
pub mod Pte
pub mod Walk
pub mod Paging
pub mod Vm
pub mod Uvm
pub mod Boot
pub mod Copy
pub mod Proc
pub mod Syscall
pub mod User
pub mod Tests
