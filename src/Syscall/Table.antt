-- ===== src/Syscall/Table.antt =====
-- The table of the system calls and their names in lab2/syscall.c, by the numbers of
-- lab2/syscall.h.
use my_os_proj.Base.{
  ℕ, zero, suc, ◌+◌, ◌/◌, ◌%◌, ◌^◌, ◌<◌, ◌≡◌, ◌↔◌, refl, sym, ◌∙◌, arith, ◌==◌, Option, none, some,
  List, [], ◌∷◌, get_elem?, if◌then◌else◌,
}
use my_os_proj.Proc.{Proc}
use my_os_proj.Proc.System.{System, ok, Op}
use my_os_proj.Syscall.{silent, traced, syscall}
use my_os_proj.Syscall.Dispatch.{call_number, Answered, syscall-Answered}

-- The functions of the table.
pub data Call : Type 0 where
  sys_fork sys_exit sys_wait sys_pipe sys_read sys_kill sys_exec sys_fstat sys_chdir sys_dup
        sys_getpid sys_sbrk sys_sleep sys_uptime sys_open sys_write sys_mknod sys_unlink sys_link
        sys_mkdir sys_close sys_trace sys_sysinfo :
      Call

abbrev pub number : Call → ℕ
number Call.sys_fork = 1
number Call.sys_exit = 2
number Call.sys_wait = 3
number Call.sys_pipe = 4
number Call.sys_read = 5
number Call.sys_kill = 6
number Call.sys_exec = 7
number Call.sys_fstat = 8
number Call.sys_chdir = 9
number Call.sys_dup = 10
number Call.sys_getpid = 11
number Call.sys_sbrk = 12
number Call.sys_sleep = 13
number Call.sys_uptime = 14
number Call.sys_open = 15
number Call.sys_write = 16
number Call.sys_mknod = 17
number Call.sys_unlink = 18
number Call.sys_link = 19
number Call.sys_mkdir = 20
number Call.sys_close = 21
number Call.sys_trace = 22
number Call.sys_sysinfo = 23

-- `syscalls`; the entry 0, which has no initialiser, is the null pointer.
abbrev pub table : List (Option Call)
table =
    none
    ∷ some Call.sys_fork
    ∷ some Call.sys_exit
    ∷ some Call.sys_wait
    ∷ some Call.sys_pipe
    ∷ some Call.sys_read
    ∷ some Call.sys_kill
    ∷ some Call.sys_exec
    ∷ some Call.sys_fstat
    ∷ some Call.sys_chdir
    ∷ some Call.sys_dup
    ∷ some Call.sys_getpid
    ∷ some Call.sys_sbrk
    ∷ some Call.sys_sleep
    ∷ some Call.sys_uptime
    ∷ some Call.sys_open
    ∷ some Call.sys_write
    ∷ some Call.sys_mknod
    ∷ some Call.sys_unlink
    ∷ some Call.sys_link
    ∷ some Call.sys_mkdir
    ∷ some Call.sys_close
    ∷ some Call.sys_trace
    ∷ some Call.sys_sysinfo
    ∷ []

abbrev pub name_table : List (Option (List ℕ))
name_table =
    none
    ∷ some (b'f' ∷ b'o' ∷ b'r' ∷ b'k' ∷ [])
    ∷ some (b'e' ∷ b'x' ∷ b'i' ∷ b't' ∷ [])
    ∷ some (b'w' ∷ b'a' ∷ b'i' ∷ b't' ∷ [])
    ∷ some (b'p' ∷ b'i' ∷ b'p' ∷ b'e' ∷ [])
    ∷ some (b'r' ∷ b'e' ∷ b'a' ∷ b'd' ∷ [])
    ∷ some (b'k' ∷ b'i' ∷ b'l' ∷ b'l' ∷ [])
    ∷ some (b'e' ∷ b'x' ∷ b'e' ∷ b'c' ∷ [])
    ∷ some (b's' ∷ b't' ∷ b'a' ∷ b't' ∷ [])
    ∷ some (b'c' ∷ b'h' ∷ b'd' ∷ b'i' ∷ b'r' ∷ [])
    ∷ some (b'd' ∷ b'u' ∷ b'p' ∷ [])
    ∷ some (b'g' ∷ b'e' ∷ b't' ∷ b'p' ∷ b'i' ∷ b'd' ∷ [])
    ∷ some (b's' ∷ b'b' ∷ b'r' ∷ b'k' ∷ [])
    ∷ some (b's' ∷ b'l' ∷ b'e' ∷ b'e' ∷ b'p' ∷ [])
    ∷ some (b'u' ∷ b'p' ∷ b't' ∷ b'i' ∷ b'm' ∷ b'e' ∷ [])
    ∷ some (b'o' ∷ b'p' ∷ b'e' ∷ b'n' ∷ [])
    ∷ some (b'w' ∷ b'r' ∷ b'i' ∷ b't' ∷ b'e' ∷ [])
    ∷ some (b'm' ∷ b'k' ∷ b'n' ∷ b'o' ∷ b'd' ∷ [])
    ∷ some (b'u' ∷ b'n' ∷ b'l' ∷ b'i' ∷ b'n' ∷ b'k' ∷ [])
    ∷ some (b'l' ∷ b'i' ∷ b'n' ∷ b'k' ∷ [])
    ∷ some (b'm' ∷ b'k' ∷ b'd' ∷ b'i' ∷ b'r' ∷ [])
    ∷ some (b'c' ∷ b'l' ∷ b'o' ∷ b's' ∷ b'e' ∷ [])
    ∷ some (b't' ∷ b'r' ∷ b'a' ∷ b'c' ∷ b'e' ∷ [])
    ∷ some (b's' ∷ b'y' ∷ b's' ∷ b'i' ∷ b'n' ∷ b'f' ∷ b'o' ∷ [])
    ∷ []

abbrev entry : {A : Type 0} → Option (Option A) → Option A
entry none = none
entry (some x) = x

pub syscalls : ℕ → Option Call
syscalls num = entry (get_elem? table num)

unfoldable pub sysnames : ℕ → Option (List ℕ)
sysnames num = entry (get_elem? name_table num)

-- Every entry of a list from the number `i` on is the function of its number.
Numbered : ℕ → List (Option Call) → Type 0
Numbered i [] = Unit {0}
Numbered i (none ∷ cs) = Numbered (i + 1) cs
Numbered i (some c ∷ cs) = (number c ≡ i) × Numbered (i + 1) cs

table-Numbered : Numbered 0 table
unfolding Numbered
table-Numbered = ground arith

Numbered-entry :
    (cs : List (Option Call)) (i k : ℕ) (c : Call)
    → Numbered i cs
    → entry (get_elem? cs k) ≡ some c
    → number c ≡ i + k
unfolding Numbered
Numbered-entry [] i k c h e = cc
Numbered-entry (none ∷ cs) i zero c h e = cc
Numbered-entry (some d ∷ cs) i zero c h e = ground (arith, e)
Numbered-entry (none ∷ cs) i (suc k) c h e = omega (arith, Numbered-entry cs (i + 1) k c h e)
Numbered-entry (some d ∷ cs) i (suc k) c h e = omega (arith, Numbered-entry cs (i + 1) k c h.1 e)

syscalls-number_self : (c : Call) → syscalls (number c) ≡ some c
unfolding syscalls
syscalls-number_self Call.sys_fork = refl
syscalls-number_self Call.sys_exit = refl
syscalls-number_self Call.sys_wait = refl
syscalls-number_self Call.sys_pipe = refl
syscalls-number_self Call.sys_read = refl
syscalls-number_self Call.sys_kill = refl
syscalls-number_self Call.sys_exec = refl
syscalls-number_self Call.sys_fstat = refl
syscalls-number_self Call.sys_chdir = refl
syscalls-number_self Call.sys_dup = refl
syscalls-number_self Call.sys_getpid = refl
syscalls-number_self Call.sys_sbrk = refl
syscalls-number_self Call.sys_sleep = refl
syscalls-number_self Call.sys_uptime = refl
syscalls-number_self Call.sys_open = refl
syscalls-number_self Call.sys_write = refl
syscalls-number_self Call.sys_mknod = refl
syscalls-number_self Call.sys_unlink = refl
syscalls-number_self Call.sys_link = refl
syscalls-number_self Call.sys_mkdir = refl
syscalls-number_self Call.sys_close = refl
syscalls-number_self Call.sys_trace = refl
syscalls-number_self Call.sys_sysinfo = refl

-- A call has a name, and a number of the table.
Named : Call → Type 0
Named c = (name : List ℕ) × (sysnames (number c) ≡ some name) × (0 < number c) × (number c < 24)

call-Named : (c : Call) → Named c
unfolding Named sysnames
call-Named Call.sys_fork = (_, refl, omega arith, omega arith)
call-Named Call.sys_exit = (_, refl, omega arith, omega arith)
call-Named Call.sys_wait = (_, refl, omega arith, omega arith)
call-Named Call.sys_pipe = (_, refl, omega arith, omega arith)
call-Named Call.sys_read = (_, refl, omega arith, omega arith)
call-Named Call.sys_kill = (_, refl, omega arith, omega arith)
call-Named Call.sys_exec = (_, refl, omega arith, omega arith)
call-Named Call.sys_fstat = (_, refl, omega arith, omega arith)
call-Named Call.sys_chdir = (_, refl, omega arith, omega arith)
call-Named Call.sys_dup = (_, refl, omega arith, omega arith)
call-Named Call.sys_getpid = (_, refl, omega arith, omega arith)
call-Named Call.sys_sbrk = (_, refl, omega arith, omega arith)
call-Named Call.sys_sleep = (_, refl, omega arith, omega arith)
call-Named Call.sys_uptime = (_, refl, omega arith, omega arith)
call-Named Call.sys_open = (_, refl, omega arith, omega arith)
call-Named Call.sys_write = (_, refl, omega arith, omega arith)
call-Named Call.sys_mknod = (_, refl, omega arith, omega arith)
call-Named Call.sys_unlink = (_, refl, omega arith, omega arith)
call-Named Call.sys_link = (_, refl, omega arith, omega arith)
call-Named Call.sys_mkdir = (_, refl, omega arith, omega arith)
call-Named Call.sys_close = (_, refl, omega arith, omega arith)
call-Named Call.sys_trace = (_, refl, omega arith, omega arith)
call-Named Call.sys_sysinfo = (_, refl, omega arith, omega arith)

-- The table has the function of a number at that number, each of the 23 functions has a number, and
-- there is nothing else in the table.
pub syscalls-number : (num : ℕ) (c : Call) → (syscalls num ≡ some c) ↔ (number c ≡ num)
unfolding syscalls
syscalls-number num c = (
  λ e. Numbered-entry table 0 num c table-Numbered e ∙ omega arith,
  λ e. rw (sym e) (syscalls-number_self c),
)

-- The table as the dispatch takes it, over what the functions do.
abbrev pub with_handlers : {F : Type 0} → (Call → ℕ → Op F ℕ) → ℕ → Option (ℕ → Op F ℕ)
with_handlers handlers num = elim (syscalls num) [ none ↦ none | some c ↦ some (handlers c) ]

module _ {F : Type 0} (handlers : Call → ℕ → Op F ℕ) where
  -- Each of the 23 functions is called when its own number is in a7. When it returns `result`, a
  -- word, and the caller is still in the table, the caller finds the result in a0, and nothing else
  -- of the state that the function leaves changes. The call is reported when the bit of its number
  -- is set in the mask that the caller then has, and there is a name for it.
  pub syscall-with_handlers :
      (c : Call) (s after : System F) (me result : ℕ) (p q : Proc)
      → get_elem? s.procs me ≡ some p
      → call_number s p ≡ number c
      → handlers c me s ≡ ok result after
      → get_elem? after.procs me ≡ some q
      → result < 2 ^ 64
      → (final : System F) × (name : List ℕ) × (syscall (with_handlers handlers) me s
          ≡ ok
              (if q.mask / 2 ^ call_number s p % 2 == 1
                then traced q.pid (call_number s p) result
                else silent)
              final)
        × (sysnames (call_number s p) ≡ some name)
        × Answered p result after final
  unfolding Named
  syscall-with_handlers c s after me result p q e n run eq bound =
      let (name, named, lo, hi) = call-Named c in
      let found : with_handlers handlers (call_number s p) ≡ some (handlers c) =
        rw (n, with_handlers, syscalls-number_self c) refl in
      let (final, (called, answered)) =
        syscall-Answered (with_handlers handlers) s after me result p q (handlers c) e
          (omega (arith, n, lo)) (omega (arith, n, hi)) found run eq bound in
      (final, name, called, rw n named, answered)
