-- ===== src/Syscall/Trace.antt =====
-- `trace` through the dispatch: lab2/sysproc.c and lab2/syscall.c.
use my_os_proj.Base.{
  ℕ, ◌/◌, ◌%◌, ◌^◌, ◌≡◌, ◌≢◌, refl, sym, ◌∙◌, ap, subst, arith, ◌==◌, Option, some, get_elem?, set,
  if◌then◌else◌,
}
use my_os_proj.Base.Elements.{get-set, get-set_apart}
use my_os_proj.Proc.{Proc}
use my_os_proj.Proc.System.{System, Op, ok}
use my_os_proj.Proc.System.Laws.{get_proc-ok, update_proc-ok}
use my_os_proj.Syscall.{silent, traced, argraw, argint, sys_trace, syscall}
use my_os_proj.Syscall.Dispatch.{register, call_number, syscall-Answered}

-- What a call of `trace` leaves.
pub record Traced {F : Type 0} (me : ℕ) (p : Proc) (mask : ℕ) (s final : System F) : Type 0 where
  pub caller : get_elem? final.procs me ≡ some (record p { mask = mask })
  pub others : (j : ℕ) → j ≢ me → get_elem? final.procs j ≡ get_elem? s.procs j
  pub in_a0 : register final p 0 ≡ 0

module _ {F : Type 0} (me : ℕ) (s : System F) (p : Proc) (e : get_elem? s.procs me ≡ some p) where
  argint-ok : argint me 0 s ≡ ok (register s p 0 % 2 ^ 32) s
  unfolding argint argraw
  argint-ok = rw (get_proc-ok s me p e) refl

  -- The argument, an int.
  abbrev pub asked : ℕ
  asked = register s p 0 % 2 ^ 32

  abbrev traced_state : System F
  traced_state = record s { procs = set s.procs me (record p { mask = asked }) }

  sys_trace-ok : sys_trace me s ≡ ok 0 traced_state
  unfolding sys_trace
  sys_trace-ok = rw (argint-ok, update_proc-ok s me p e (λ q. record q { mask = asked })) refl

  -- A process that calls `trace` gets its argument as its mask and 0 in a0; no other process
  -- changes. The call is reported itself when the new mask has its bit, that of number 22.
  pub syscall-Traced :
      (syscalls : ℕ → Option (ℕ → Op F ℕ))
      → call_number s p ≡ 22
      → syscalls 22 ≡ some sys_trace
      → (final : System F) × ((syscall syscalls me s
            ≡ ok (if asked / 2 ^ 22 % 2 == 1 then traced p.pid 22 0 else silent) final)
          × Traced me p asked s final)
  syscall-Traced syscalls n h =
      let q = record p { mask = asked } in
      let eq : get_elem? traced_state.procs me ≡ some q = get-set s.procs me p q e in
      let handler : syscalls (call_number s p) ≡ some sys_trace = ap syscalls n ∙ h in
      let (final, (run, answered)) =
        syscall-Answered syscalls s traced_state me 0 p q sys_trace e (omega (arith, n))
          (omega (arith, n)) handler sys_trace-ok eq (omega arith) in
      let procs : final.procs ≡ traced_state.procs =
        ap (λ (t : System F). t.procs) answered.only_memory in
      (
        final,
        (
          subst
              (λ k.
                syscall syscalls me s
                ≡ ok (if asked / 2 ^ k % 2 == 1 then traced p.pid k 0 else silent) final)
              n run,
          record {
            caller = ap (λ ps. get_elem? ps me) procs ∙ eq;
            others = λ j ne.
                ap (λ ps. get_elem? ps j) procs ∙ get-set_apart s.procs me j q (λ x. ne (sym x));
            in_a0 = answered.in_a0;
          },
        ),
      )
