-- ===== src/Proc/Access/Reported.antt =====
-- What `pgaccess` reports, and what it leaves.
use my_os_proj.Base.{
  ℕ, zero, suc, ◌+◌, ◌*◌, ◌^◌, ◌<◌, ◌≤◌, ◌≡◌, inl, inr, refl, sym, ◌∙◌, ap, subst, arith, true,
  false, List, some, get_elem?, ◌||◌, ◌==◌, not, leb, Bool-cases,
}
use my_os_proj.Memory.{load64}
use my_os_proj.Kernel
use my_os_proj.Kernel.{Platform, Kernel, maxva, u64}
use my_os_proj.Kalloc.FreeList.{IsFrame}
use my_os_proj.Pte.{is_accessed}
use my_os_proj.Walk.Lookup.{walk-slot}
use my_os_proj.Paging.{Roles, used, root, Inv, view, slot}
use my_os_proj.Paging.Slots.{view_from-slot_from}
use my_os_proj.Copy.{copyout}
use my_os_proj.Proc.{Proc}
use my_os_proj.Proc.System.{System, ok, pure, ◌>>=◌, lift, get_proc}
use my_os_proj.Proc.System.Laws.{get_proc-ok}
use my_os_proj.Proc.Access.{access_loop, pgaccess}
use my_os_proj.Proc.Access.Round.{Round, same-Round, clear-Round, cleared, cleared-eq, word_fits}
use my_os_proj.Proc.Access.Marks.{Reported, Tables, rest-Tables, Reported-cons, no_and}

-- A round, with the step of the loop.
record Stepped (P : Platform) (role : Roles) (ps : List ℕ) (pt mask va i : ℕ) (k : Kernel)
    : Type 0 where
  after : Kernel
  round : Round P role ps pt mask (va + 4096 * i) i k after
  step : (n : ℕ) → access_loop (suc n) i pt va mask k ≡ access_loop n (i + 1) pt va mask after
  short : load64 after.mem mask < 2 ^ 64

module _ {P : Platform} {role : Roles} {ps : List ℕ} (pt mask page : ℕ) (is_root : role pt ≡ root)
    (in_use : role page ≡ used) (frame : IsFrame P page) (lo : page ≤ mask)
    (hi : mask + 8 ≤ page + 4096) (va : ℕ) where
  step-Stepped :
      (i n : ℕ) (k : Kernel)
      → Inv P role ps k
      → Tables k.mem pt va i (suc n)
      → load64 k.mem mask < 2 ^ 64
      → i < 31
      → Stepped P role ps pt mask va i k
  unfolding access_loop
  step-Stepped i n k inv t word_short small =
      let a = va + 4096 * i in
      let low : a < maxva = omega (arith, t.low) in
      let there = t.there i (omega arith) (omega arith) in
      let address : u64 (va + 4096 * i) ≡ a = omega arith in
      let nonzero : (slot k.mem pt a == 0) ≡ false = ground (arith, there) in
      let entry : load64 k.mem (slot k.mem pt a) ≡ view k.mem pt a =
        sym (view_from-slot_from k.mem 2 pt a there) in
      elim (Bool-cases (is_accessed (view k.mem pt a))) [
        | inr no_access ↦ record {
          after = k;
          round = same-Round pt mask page is_root in_use frame lo hi inv a i low there no_access;
          step = λ m.
              rw
                (
                  address,
                  walk-slot pt a k low,
                  entry,
                  no_access,
                  nonzero,
                  no_and (not (view k.mem pt a == 0)),
                )
                refl;
          short = word_short;
        }
        | inl accessed ↦
            let short = t.short i (omega arith) (omega arith) in
            let round =
              clear-Round pt mask page is_root in_use frame lo hi inv a i low there accessed short
                word_short small in
            let written =
              cleared-eq pt mask page is_root in_use frame lo hi inv a i low there accessed short
                word_short small in
            let fits =
              word_fits pt mask page is_root in_use frame lo hi inv a i low there accessed short
                word_short small in
            let some_entry : (view k.mem pt a == 0) ≡ false = ground (arith, accessed) in
            record {
              after = cleared pt mask page is_root in_use frame lo hi inv a i low there;
              round = round;
              step = λ m.
                  rw (address, walk-slot pt a k low, entry, accessed, nonzero, some_entry)
                    (ap (access_loop m (i + 1) pt va mask) written);
              short = subst (λ w. w < 2 ^ 64) (sym (round.word ∙ rw accessed refl)) fits;
            }
      ]

module _ {P : Platform} {role : Roles} {ps : List ℕ} (pt mask page : ℕ) (is_root : role pt ≡ root)
    (in_use : role page ≡ used) (frame : IsFrame P page) (lo : page ≤ mask)
    (hi : mask + 8 ≤ page + 4096) (va : ℕ) where
  access_loop-Reported :
      (n i : ℕ) (k : Kernel)
      → Inv P role ps k
      → Tables k.mem pt va i n
      → load64 k.mem mask < 2 ^ 64
      → i + n ≤ 31
      → (after : Kernel) × (access_loop n i pt va mask k ≡ Kernel.ok tt after)
        × Reported P role ps pt va mask i n k after
  unfolding access_loop
  access_loop-Reported zero i k inv t short few = (
    k,
    refl,
    record {
      inv = inv;
      bytes = λ p x e al lo hi out. refl;
      views = λ q x e low. ground arith;
      bits = λ j. ground arith;
    },
  )
  access_loop-Reported (suc n) i k inv t short few =
      let s =
        step-Stepped pt mask page is_root in_use frame lo hi va i n k inv t short (omega arith) in
      let rest = rest-Tables pt va mask i n is_root s.round t (omega arith) in
      let (final, run, reported) =
        access_loop-Reported n (suc i) s.after s.round.inv rest s.short (omega arith) in
      (
        final,
        s.step n ∙ ap (λ x. access_loop n x pt va mask s.after) (omega arith) ∙ run,
        Reported-cons pt va mask i n is_root s.round t (omega arith) reported,
      )

module _ {P : Platform} {F : Type 0} {role : Roles} {ps : List ℕ} (page : ℕ)
    (in_use : role page ≡ used) (frame : IsFrame P page) where
  -- In a state with well-formed page tables, a call for the first `num` pages from `va`, 1 to 31 of
  -- them and all with page tables and entries of 64 bits, with the variable `mask`, a word, in a
  -- page in use, succeeds. When the pages are gone through, the bit `j` of the variable is set for
  -- a page `j` of the range that was accessed, and else as it was; the entries of the range have
  -- lost their accessed bits, and no other entry of any address space, no other user memory and no
  -- free page has changed. The variable is then copied to the address `ans`.
  pub pgaccess-Reported :
      (me va num ans mask : ℕ) (s : System F) (p : Proc)
      → get_elem? s.procs me ≡ some p
      → Inv P role ps s.kernel
      → role p.pagetable ≡ root
      → page ≤ mask
      → mask + 8 ≤ page + 4096
      → load64 s.kernel.mem mask < 2 ^ 64
      → 0 < num
      → num ≤ 31
      → Tables s.kernel.mem p.pagetable va 0 num
      → (after : Kernel) × Reported P role ps p.pagetable va mask 0 num s.kernel after
        × (pgaccess P me va num ans mask s
            ≡ (lift (copyout P p.pagetable ans mask 8) >>= (λ copied. pure true))
                (record s { kernel = after }))
  unfolding pgaccess
  pgaccess-Reported me va num ans mask s p e inv is_root lo hi short some_pages few t =
      let get : get_proc me s ≡ ok p s = get_proc-ok s me p e in
      let test : (num == 0 || leb (2 ^ 31) num) ≡ false = ground arith in
      let (after, run, reported) =
        access_loop-Reported p.pagetable mask page is_root in_use frame lo hi va num 0 s.kernel inv
          t short (omega arith) in
      (after, reported, rw (test, get, run) refl)
