-- ===== src/Copy/In.antt =====
-- `copyin` of lab3/vm.c: what it does to a buffer in a page of the kernel.
use my_os_proj.Base.{
  ℕ, zero, suc, ◌+◌, ◌-◌, ◌*◌, ◌/◌, ◌%◌, ◌<◌, ◌≡◌, ◌≢◌, ◌⊎◌, inl, inr, refl, ◌∙◌, ap, arith, Bool,
  true, false, ltb, ◌==◌, List, ℕ_discrete,
}
use native.Mathlib.Nat.{add-zero}
use my_os_proj.Memory.{Memory, memmove}
use my_os_proj.Kernel.{maxva, u64, Platform, Kernel, Run, ok}
use my_os_proj.Walk.{walkaddr}
use my_os_proj.Walk.Lookup.{translate, walkaddr-translate}
use my_os_proj.Paging.{Roles, root, Inv}
use my_os_proj.Copy.{chunk, copyin_loop, copyin}
use my_os_proj.Copy.Span.{user_addr, UserSpace, translate_page, chunk_bounds}
use my_os_proj.Copy.InStep.{
  CopiedIn, KernelBuffer, moved-Inv, moved-UserSpace, moved-KernelBuffer, CopiedIn-step,
}

low_of_there : (m : Memory) (pt va : ℕ) → translate m pt va ≢ 0 → va < maxva
low_of_there m pt va h = ground arith

copyin_end :
    (P : Platform) (f pt dst src : ℕ) (k : Kernel)
    → copyin_loop P (suc f) pt dst src 0 k ≡ ok true k
unfolding copyin_loop
copyin_end P f pt dst src k = refl

module _ {P : Platform} where
  pub CopiedIn-stop :
      {role : Roles} {ps : List ℕ} {k : Kernel} {r : Run Bool} (pt dst src len : ℕ) (done : Bool)
      → Inv P role ps k
      → r ≡ ok done k
      → ((done ≡ true) × (0 ≡ len)) ⊎ ((done ≡ false) × (0 < len) × (translate k.mem pt src ≡ 0))
      → CopiedIn P role ps k pt dst src len r
  CopiedIn-stop {k} pt dst src len done inv run ending = record {
    n = 0;
    done = done;
    after = k;
    run = run;
    inv = inv;
    views = λ q va h. refl;
    reached = λ i h. absurd (omega arith);
    copied = λ i h. absurd (omega arith);
    others = λ x out. refl;
    ending = rw add-zero ending;
  }

  module _ {role : Roles} {ps : List ℕ} {k : Kernel} (inv : Inv P role ps k) (f pt dst src len : ℕ)
      (e : role pt ≡ root) (pos : (0 == len) ≡ false) where
    walkaddr_at : walkaddr pt (P.pgrounddown src) k ≡ ok (translate k.mem pt src) k
    walkaddr_at =
        walkaddr-translate inv pt (P.pgrounddown src) e
        ∙ ap (λ t. ok t k)
            (translate_page k.mem pt (P.pgrounddown src) src (omega (arith, P.pgrounddown_lem src)))

    copyin_fail : translate k.mem pt src ≡ 0 → copyin_loop P (suc f) pt dst src len k ≡ ok false k
    unfolding copyin_loop
    copyin_fail missing = let go : ltb 0 len ≡ true = ground arith in rw (go, walkaddr_at, missing)

    copyin_round :
        translate k.mem pt src ≢ 0
        → copyin_loop P (suc f) pt dst src len k
          ≡ copyin_loop P f pt
              (dst + chunk P src len)
              (src / 4096 * 4096 + 4096)
              (len - chunk P src len)
              (record k { mem = memmove k.mem dst (user_addr k.mem pt src) (chunk P src len) })
    unfolding copyin_loop
    copyin_round there =
        let go : ltb 0 len ≡ true = ground arith in
        let nonzero : (translate k.mem pt src == 0) ≡ false = ground arith in
        let low = low_of_there k.mem pt src there in
        let next : u64 (P.pgrounddown src + 4096) ≡ src / 4096 * 4096 + 4096 =
          omega (arith, P.pgrounddown_lem src) in
        let off : src - P.pgrounddown src ≡ src % 4096 = omega (arith, P.pgrounddown_lem src) in
        rw (go, walkaddr_at, nonzero, next, off)

  copyin_loop-CopiedIn :
      (fuel pt b dst src len : ℕ) (role : Roles) (ps : List ℕ) (k : Kernel)
      → Inv P role ps k
      → role pt ≡ root
      → UserSpace P role k.mem pt
      → KernelBuffer P role k.mem pt b dst len
      → len < fuel
      → CopiedIn P role ps k pt dst src len (copyin_loop P fuel pt dst src len k)
  copyin_loop-CopiedIn zero pt b dst src len role ps k inv e space buffer enough =
      absurd (omega arith)
  copyin_loop-CopiedIn (suc f) pt b dst src zero role ps k inv e space buffer enough =
      CopiedIn-stop pt dst src 0 true inv (copyin_end P f pt dst src k) (inl (refl, refl))
  copyin_loop-CopiedIn (suc f) pt b dst src (suc m) role ps k inv e space buffer enough =
      let len = suc m in
      let c = chunk P src len in
      let (some_bytes, short, inside, next) = chunk_bounds P src len (omega arith) in
      elim (ℕ_discrete (translate k.mem pt src) 0) [
        | yes missing ↦
            CopiedIn-stop pt dst src len false inv
              (copyin_fail inv f pt dst src len e (ground arith) missing)
              (inr (refl, omega arith, missing))
        | no there ↦
            CopiedIn-step inv pt b dst src c len e space buffer short there inside
              (src / 4096 * 4096 + 4096) next
              (copyin_round inv f pt dst src len e (ground arith) there)
              (copyin_loop-CopiedIn f pt b (dst + c) (src / 4096 * 4096 + 4096) (len - c) role ps
                (record k { mem = memmove k.mem dst (user_addr k.mem pt src) c })
                (moved-Inv inv pt b dst src c len e space buffer short there inside) e
                (moved-UserSpace inv pt b dst src c len e space buffer short there inside)
                (moved-KernelBuffer inv pt b dst src c len e space buffer short there inside)
                (omega arith))
      ]

  -- For every user address and length, `copyin` from the address space of a root whose pages are
  -- user pages, into a buffer in another page in use, ends. For some `n` it has filled the first
  -- `n` bytes of the buffer with those that the address space has there, and changed no other byte
  -- of memory and no address space. The result is 0 when `n` is the length, and -1 when the next
  -- byte has no user page.
  pub copyin-CopiedIn :
      (pt b dst src len : ℕ) (role : Roles) (ps : List ℕ) (k : Kernel)
      → Inv P role ps k
      → role pt ≡ root
      → UserSpace P role k.mem pt
      → KernelBuffer P role k.mem pt b dst len
      → CopiedIn P role ps k pt dst src len (copyin P pt dst src len k)
  unfolding copyin
  copyin-CopiedIn pt b dst src len role ps k inv e space buffer =
      copyin_loop-CopiedIn (len + 1) pt b dst src len role ps k inv e space buffer (omega arith)
