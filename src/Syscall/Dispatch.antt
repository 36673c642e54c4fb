-- ===== src/Syscall/Dispatch.antt =====
-- The dispatch of `syscall` in lab2/syscall.c: what a call leaves in the register a0, and when it
-- is traced.
use my_os_proj.Base.{
  ℕ, ◌/◌, ◌%◌, ◌^◌, ◌<◌, ◌≤◌, ◌≡◌, ◌⊎◌, refl, arith, Bool, true, false, ◌&&◌, ltb, ◌==◌, Option,
  none, some, get_elem?, if◌then◌else◌, Bool-cases, inl, inr,
}
use my_os_proj.Memory.{load64, store64}
use my_os_proj.Memory.Words.{load64-store64_self}
use my_os_proj.Proc.{Proc}
use my_os_proj.Proc.System.{System, ok, Op, pure, get_proc}
use my_os_proj.Proc.System.Laws.{get_proc-ok}
use my_os_proj.Syscall.{
  minus_one, arg_at, Printed, silent, traced, unknown, run_syscall, no_syscall, syscall,
}

-- The register a`n` of a process.
abbrev pub register : {F : Type 0} → System F → Proc → ℕ → ℕ
register s p n = load64 s.kernel.mem (arg_at p n)

-- The int in a7.
abbrev pub call_number : {F : Type 0} → System F → Proc → ℕ
call_number s p = register s p 7 % 2 ^ 32

-- What a call leaves: the state `after` the handler, but for a0, which holds the result.
pub record Answered {F : Type 0} (p : Proc) (result : ℕ) (after final : System F) : Type 0 where
  pub only_memory : final ≡ record after { kernel = record after.kernel { mem = final.kernel.mem } }
  pub memory : final.kernel.mem ≡ store64 after.kernel.mem (arg_at p 0) result
  pub in_a0 : register final p 0 ≡ result

module _ {F : Type 0} where
  abbrev answer : Proc → ℕ → System F → System F
  answer p result after = record after {
    kernel = record after.kernel { mem = store64 after.kernel.mem (arg_at p 0) result };
  }

  answer-Answered :
      (p : Proc) (result : ℕ) (after : System F)
      → result < 2 ^ 64
      → Answered p result after (answer p result after)
  answer-Answered p result after h = record {
    only_memory = refl;
    memory = refl;
    in_a0 = load64-store64_self after.kernel.mem (arg_at p 0) result h;
  }

  answered :
      (b : Bool) (x : Printed) (s : System F)
      → (if b then pure x else pure silent) s ≡ ok (if b then x else silent) s
  answered true x s = refl
  answered false x s = refl

module _ {F : Type 0} (syscalls : ℕ → Option (ℕ → Op F ℕ)) where
  -- The call of a number outside the range that the array of the table has.
  call_outside :
      (s : System F) (me : ℕ) (p : Proc)
      → get_elem? s.procs me ≡ some p
      → ((ltb 0 (call_number s p) && ltb (call_number s p) (2 ^ 31)) && ltb (call_number s p) 24)
        ≡ false
      → syscall syscalls me s ≡ ok (unknown p.pid p.name (call_number s p)) (answer p minus_one s)
  unfolding syscall no_syscall
  call_outside s me p e test =
      let get : get_proc me s ≡ ok p s = get_proc-ok s me p e in rw (get, test, get) refl

  -- The call of a number in the range, where the table has no entry.
  call_null :
      (s : System F) (me : ℕ) (p : Proc)
      → get_elem? s.procs me ≡ some p
      → ((ltb 0 (call_number s p) && ltb (call_number s p) (2 ^ 31)) && ltb (call_number s p) 24)
        ≡ true
      → syscalls (call_number s p) ≡ none
      → syscall syscalls me s ≡ ok (unknown p.pid p.name (call_number s p)) (answer p minus_one s)
  unfolding syscall run_syscall no_syscall
  call_null s me p e test null =
      let get : get_proc me s ≡ ok p s = get_proc-ok s me p e in rw (get, test, null, get) refl

  -- Take a call whose number, as an unsigned int, is 0, or 24 or more (so every negative number),
  -- or has no entry in the table. It fails: the caller finds -1 in a0, the number is reported, and
  -- nothing else of the state changes. The caller is any process of the table.
  pub syscall_unknown :
      (s : System F) (me : ℕ) (p : Proc)
      → get_elem? s.procs me ≡ some p
      → (call_number s p ≡ 0) ⊎ (24 ≤ call_number s p) ⊎ (syscalls (call_number s p) ≡ none)
      → (final : System F) × ((syscall syscalls me s
            ≡ ok (unknown p.pid p.name (call_number s p)) final)
          × Answered p minus_one s final)
  syscall_unknown s me p e out = (
    answer p minus_one s,
    (
      elim (Bool-cases (
          (ltb 0 (call_number s p) && ltb (call_number s p) (2 ^ 31))
          && ltb (call_number s p) 24)) [
            | inr outside ↦ call_outside s me p e outside
            | inl inside ↦ call_null s me p e inside (elim out [
              | inl zero_number ↦ absurd (ground (arith, zero_number, inside))
              | inr (inl large) ↦ absurd (ground (arith, large, inside))
              | inr (inr null) ↦ null
            ])
          ],
      answer-Answered p minus_one s (omega arith),
    ),
  )

  -- A call of the table whose handler returns `result`: the caller finds it in a0, nothing else of
  -- the state that the handler leaves changes, and the call is reported when the bit of its number
  -- is set in the mask that the process has when the handler returns.
  pub syscall-Answered :
      (s after : System F) (me result : ℕ) (p q : Proc) (handler : ℕ → Op F ℕ)
      → get_elem? s.procs me ≡ some p
      → 0 < call_number s p
      → call_number s p < 24
      → syscalls (call_number s p) ≡ some handler
      → handler me s ≡ ok result after
      → get_elem? after.procs me ≡ some q
      → result < 2 ^ 64
      → (final : System F) × ((syscall syscalls me s
            ≡ ok
                (if q.mask / 2 ^ call_number s p % 2 == 1
                  then traced q.pid (call_number s p) result
                  else silent)
                final)
          × Answered p result after final)
  unfolding syscall run_syscall
  syscall-Answered s after me result p q handler e lo hi eh run eq bound =
      let get : get_proc me s ≡ ok p s = get_proc-ok s me p e in
      let get' : get_proc me (answer p result after) ≡ ok q (answer p result after) =
        get_proc-ok (answer p result after) me q eq in
      let test : (ltb 0 (call_number s p) && ltb (call_number s p) (2 ^ 31))
            && ltb (call_number s p) 24
          ≡ true =
        ground arith in
      (
        answer p result after,
        (
          rw (get, test, eh, get, run, get')
              (answered (q.mask / 2 ^ call_number s p % 2 == 1)
                (traced q.pid (call_number s p) result) (answer p result after)),
          answer-Answered p result after bound,
        ),
      )
