-- ===== src/Tests/Syscalls.antt =====
-- The dispatch on a machine whose running process has called `trace`, and on one with a number that
-- is no call.
use my_os_proj.Base.{
  ℕ, ◌/◌, ◌%◌, ◌^◌, ◌≤◌, ◌≡◌, refl, inl, inr, arith, Option, none, some, List, [], ◌∷◌, ◌↔◌,
  if◌then◌else◌, ◌==◌,
}
use my_os_proj.Memory.{load64, store64}
use my_os_proj.Proc.System.{System, ok, Op}
use my_os_proj.Syscall.{
  minus_one, silent, traced, unknown, argraw, argint, sys_trace, sys_kill, sys_getpid, syscall,
}
use my_os_proj.Syscall.Dispatch.{call_number, Answered, syscall_unknown}
use my_os_proj.Syscall.Table.{
  Call, number, syscalls, sysnames, syscalls-number, with_handlers, syscall-with_handlers,
}
use my_os_proj.Syscall.Trace.{asked, Traced, syscall-Traced}
use my_os_proj.Tests.Machine.{words}
use my_os_proj.Tests.Procs.{second}

-- The calls of the table that the tests need.
abbrev some_calls : ℕ → Option (ℕ → Op (Unit {0}) ℕ)
some_calls n =
    if n == 6
    then some sys_kill
    else if n == 11
    then some sys_getpid
    else if n == 22
    then some sys_trace
    else none

abbrev mask_of_trace : ℕ
mask_of_trace = 2 ^ 22

abbrev called : (number argument : ℕ) → System (Unit {0})
called number argument = record {
  kernel = record {
    mem = words ((0x8000_5070, argument) ∷ (0x8000_50a8, number) ∷ []);
    freelist = 0;
  };
  procs = second ∷ [];
  nextpid = 4;
  initproc = none;
  files = tt;
}

abbrev after_trace : System (Unit {0})
after_trace = record (called 22 mask_of_trace) {
  procs = record second { mask = mask_of_trace } ∷ [];
}

number_of_trace : call_number (called 22 mask_of_trace) second ≡ 22
unfolding load64 store64
number_of_trace = refl

number_unknown : 24 ≤ call_number (called 24 0) second
unfolding load64 store64
number_unknown = omega arith

trace_returns : sys_trace 0 (called 22 mask_of_trace) ≡ ok 0 after_trace
unfolding sys_trace argint argraw load64 store64
trace_returns = refl

-- The number 5 has no entry in `some_calls`.
number_without_entry : some_calls (call_number (called 5 0) second) ≡ none
unfolding load64 store64
number_without_entry = refl

syscall_unknown_example :
    (final : System (Unit {0})) × ((syscall some_calls 0 (called 5 0)
        ≡ ok (unknown 2 (b's' ∷ b'h' ∷ []) (call_number (called 5 0) second)) final)
      × Answered second minus_one (called 5 0) final)
syscall_unknown_example =
    syscall_unknown some_calls (called 5 0) 0 second refl (inr (inr number_without_entry))

-- A number past the table.
unknown_past_table :
    (final : System (Unit {0})) × ((syscall some_calls 0 (called 24 0)
        ≡ ok (unknown 2 (b's' ∷ b'h' ∷ []) (call_number (called 24 0) second)) final)
      × Answered second minus_one (called 24 0) final)
unknown_past_table =
    syscall_unknown some_calls (called 24 0) 0 second refl (inr (inl number_unknown))

syscall-Traced_example :
    (final : System (Unit {0})) × ((syscall some_calls 0 (called 22 mask_of_trace)
        ≡ ok
            (if asked 0 (called 22 mask_of_trace) second refl / 2 ^ 22 % 2 == 1
              then traced 2 22 0
              else silent)
            final)
      × Traced 0 second
          (asked 0 (called 22 mask_of_trace) second refl)
          (called 22 mask_of_trace)
          final)
syscall-Traced_example =
    syscall-Traced 0 (called 22 mask_of_trace) second refl some_calls number_of_trace refl

-- The mask that was asked for.
asked_mask : asked 0 (called 22 mask_of_trace) second refl ≡ mask_of_trace
unfolding load64 store64
asked_mask = refl

-- The functions of the table that are in the repository; the others are stopped.
abbrev handlers : Call → ℕ → Op (Unit {0}) ℕ
handlers Call.sys_kill = sys_kill
handlers Call.sys_getpid = sys_getpid
handlers Call.sys_trace = sys_trace
handlers _ = λ me s. ok minus_one s

syscalls-number_example : (syscalls 23 ≡ some Call.sys_sysinfo) ↔ (number Call.sys_sysinfo ≡ 23)
syscalls-number_example = syscalls-number 23 Call.sys_sysinfo

syscall-with_handlers_example :
    (final : System (Unit {0})) × (name : List ℕ) × (syscall
        (with_handlers handlers)
        0
        (called 22 mask_of_trace)
      ≡ ok
          (if mask_of_trace / 2 ^ call_number (called 22 mask_of_trace) second % 2 == 1
            then traced 2 (call_number (called 22 mask_of_trace) second) 0
            else silent)
          final)
    × (sysnames (call_number (called 22 mask_of_trace) second) ≡ some name)
    × Answered second 0 after_trace final
syscall-with_handlers_example =
    syscall-with_handlers handlers Call.sys_trace (called 22 mask_of_trace) after_trace 0 0 second
      (record second { mask = mask_of_trace }) refl number_of_trace trace_returns refl (omega arith)

-- The name of `fstat` is another.
fstat_name : sysnames (number Call.sys_fstat) ≡ some (b's' ∷ b't' ∷ b'a' ∷ b't' ∷ [])
unfolding sysnames
fstat_name = refl
