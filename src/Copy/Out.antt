-- ===== src/Copy/Out.antt =====
-- `copyout` writes the bytes of the source to the user addresses, in order, and nothing else.
use my_os_proj.Base.{
  ℕ, zero, suc, ◌+◌, ◌-◌, ◌*◌, ◌/◌, ◌%◌, ◌<◌, ◌≡◌, ◌≢◌, ◌⊎◌, inl, inr, refl, ◌∙◌, ap, arith, Bool,
  true, false, List, ◌==◌, ℕ_discrete, ltb,
}
use native.Mathlib.Nat.{add-zero}
use my_os_proj.Memory.{Memory, memmove}
use my_os_proj.Kernel.{Platform, Kernel, Run, ok, maxva, u64}
use my_os_proj.Paging.{Roles, root, Inv}
use my_os_proj.Walk.Lookup.{translate, walkaddr-translate}
use my_os_proj.Walk.{walkaddr}
use my_os_proj.Copy.{chunk, copyout_loop, copyout}
use my_os_proj.Copy.Span.{user_addr, UserSpace, translate_page, chunk_bounds}
use my_os_proj.Copy.OutStep.{
  CopiedOut, SourceApart, moved-Inv, moved-UserSpace, apart_moved, CopiedOut-step,
}

low_of_there : (m : Memory) (pt va : ℕ) → translate m pt va ≢ 0 → va < maxva
low_of_there m pt va h = ground arith

copyout_end :
    (P : Platform) (f pt dst src : ℕ) (k : Kernel)
    → copyout_loop P (suc f) pt dst src 0 k ≡ ok true k
unfolding copyout_loop
copyout_end P f pt dst src k = refl

module _ {P : Platform} where
  pub CopiedOut-stop :
      {role : Roles} {ps : List ℕ} {k : Kernel} {r : Run Bool} (pt dst src len : ℕ) (done : Bool)
      → Inv P role ps k
      → r ≡ ok done k
      → ((done ≡ true) × (0 ≡ len)) ⊎ ((done ≡ false) × (0 < len) × (translate k.mem pt dst ≡ 0))
      → CopiedOut P role ps k pt dst src len r
  CopiedOut-stop {k} pt dst src len done inv run ending = record {
    n = 0;
    done = done;
    after = k;
    run = run;
    inv = inv;
    views = λ q va h. refl;
    reached = λ i h. absurd (omega arith);
    copied = λ i h. absurd (omega arith);
    others = λ x out. refl;
    ending = rw add-zero ending;
  }

  walkaddr_at :
      {role : Roles} {ps : List ℕ} {k : Kernel} (inv : Inv P role ps k) (pt va : ℕ)
      → role pt ≡ root
      → walkaddr pt (P.pgrounddown va) k ≡ ok (translate k.mem pt va) k
  walkaddr_at {k} inv pt va e =
      walkaddr-translate inv pt (P.pgrounddown va) e
      ∙ ap (λ t. ok t k)
          (translate_page k.mem pt (P.pgrounddown va) va (omega (arith, P.pgrounddown_lem va)))

  module _ {role : Roles} {ps : List ℕ} {k : Kernel} (inv : Inv P role ps k) (f pt dst src len : ℕ)
      (e : role pt ≡ root) (pos : (0 == len) ≡ false) where
    copyout_fail : translate k.mem pt dst ≡ 0 → copyout_loop P (suc f) pt dst src len k ≡ ok false k
    unfolding copyout_loop
    copyout_fail missing =
        let go : ltb 0 len ≡ true = ground arith in rw (go, walkaddr_at inv pt dst e, missing)

    copyout_round :
        translate k.mem pt dst ≢ 0
        → copyout_loop P (suc f) pt dst src len k
          ≡ copyout_loop P f pt
              (dst / 4096 * 4096 + 4096)
              (src + chunk P dst len)
              (len - chunk P dst len)
              (record k { mem = memmove k.mem (user_addr k.mem pt dst) src (chunk P dst len) })
    unfolding copyout_loop
    copyout_round there =
        let go : ltb 0 len ≡ true = ground arith in
        let nonzero : (translate k.mem pt dst == 0) ≡ false = ground arith in
        let low = low_of_there k.mem pt dst there in
        let next : u64 (P.pgrounddown dst + 4096) ≡ dst / 4096 * 4096 + 4096 =
          omega (arith, P.pgrounddown_lem dst) in
        let off : dst - P.pgrounddown dst ≡ dst % 4096 = omega (arith, P.pgrounddown_lem dst) in
        rw (go, walkaddr_at inv pt dst e, nonzero, next, off)

  copyout_loop-CopiedOut :
      (fuel pt dst src len : ℕ) (role : Roles) (ps : List ℕ) (k : Kernel)
      → Inv P role ps k
      → role pt ≡ root
      → UserSpace P role k.mem pt
      → SourceApart k.mem pt src len
      → len < fuel
      → CopiedOut P role ps k pt dst src len (copyout_loop P fuel pt dst src len k)
  copyout_loop-CopiedOut zero pt dst src len role ps k inv e space apart enough =
      absurd (omega arith)
  copyout_loop-CopiedOut (suc f) pt dst src zero role ps k inv e space apart enough =
      CopiedOut-stop pt dst src 0 true inv (copyout_end P f pt dst src k) (inl (refl, refl))
  copyout_loop-CopiedOut (suc f) pt dst src (suc m) role ps k inv e space apart enough =
      let len = suc m in
      let c = chunk P dst len in
      let (some_bytes, short, inside, next) = chunk_bounds P dst len (omega arith) in
      elim (ℕ_discrete (translate k.mem pt dst) 0) [
        | yes missing ↦
            CopiedOut-stop pt dst src len false inv
              (copyout_fail inv f pt dst src len e (ground arith) missing)
              (inr (refl, omega arith, missing))
        | no there ↦
            CopiedOut-step inv pt dst src c e space there inside len (dst / 4096 * 4096 + 4096) next
              short apart (copyout_round inv f pt dst src len e (ground arith) there)
              (copyout_loop-CopiedOut f pt (dst / 4096 * 4096 + 4096) (src + c) (len - c) role ps
                (record k { mem = memmove k.mem (user_addr k.mem pt dst) src c })
                (moved-Inv inv pt dst src c e space there inside) e
                (moved-UserSpace inv pt dst src c e space there inside)
                (apart_moved inv pt dst src c e space there inside len short apart) (omega arith))
      ]

  -- For every address and length, `copyout` to the address space of a root whose pages are user
  -- pages, from a source outside of them, ends. For some `n` it has copied the first `n` bytes to
  -- the places that the address space gives for them, and changed no other byte of memory and no
  -- address space. The result is 0 when `n` is the length, and -1 when the next byte has no user
  -- page.
  pub copyout-CopiedOut :
      (pt dst src len : ℕ) (role : Roles) (ps : List ℕ) (k : Kernel)
      → Inv P role ps k
      → role pt ≡ root
      → UserSpace P role k.mem pt
      → SourceApart k.mem pt src len
      → CopiedOut P role ps k pt dst src len (copyout P pt dst src len k)
  unfolding copyout
  copyout-CopiedOut pt dst src len role ps k inv e space apart =
      copyout_loop-CopiedOut (len + 1) pt dst src len role ps k inv e space apart (omega arith)
