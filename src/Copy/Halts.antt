-- ===== src/Copy/Halts.antt =====
-- The loops of `copyout`, `copyin` and `copyinstr` end: each round moves at least one byte.
use my_os_proj.Base.{ℕ, zero, suc, ◌+◌, ◌-◌, ◌≡◌, ◌<◌, arith, true, ◌==◌, ltb}
use my_os_proj.Kernel.{Platform, Kernel, u64}
use my_os_proj.Walk.Halts.{
  Halts, Halting, if-Halts, if-Halts_known, Halting-bind, Halting-then, Halting-if, Halting-pure,
  Halting-update, Halting-walkaddr,
}
use my_os_proj.Copy.{
  chunk, copyout_loop, copyout, copyin_loop, copyin, copy_string, copyinstr_loop, copyinstr,
}
use my_os_proj.Copy.Span.{chunk_bounds}

module _ (P : Platform) where
  shorter : (va len f : ℕ) → ltb 0 len ≡ true → len < suc f → len - chunk P va len < f
  shorter va len f pos enough = let b = chunk_bounds P va len (ground arith) in omega arith

  copyout_loop-Halts :
      (fuel pt dstva src len : ℕ) (k : Kernel)
      → len < fuel
      → Halts (copyout_loop P fuel pt dstva src len k)
  unfolding copyout_loop
  copyout_loop-Halts zero pt dstva src len k enough = absurd (omega arith)
  copyout_loop-Halts (suc f) pt dstva src len k enough =
      if-Halts_known (ltb 0 len) _ _
        (λ more.
          (Halting-bind (Halting-walkaddr pt (P.pgrounddown dstva)) (λ pa0.
              Halting-if (pa0 == 0) Halting-pure (
                Halting-then (Halting-update _) (record {
                  run = λ k'.
                      copyout_loop-Halts f pt (u64 (P.pgrounddown dstva + 4096))
                        (src + chunk P dstva len) (len - chunk P dstva len) k'
                        (shorter dstva len f more enough);
                })))).run
            k)
        (λ stop. tt)

  copyin_loop-Halts :
      (fuel pt dst srcva len : ℕ) (k : Kernel)
      → len < fuel
      → Halts (copyin_loop P fuel pt dst srcva len k)
  unfolding copyin_loop
  copyin_loop-Halts zero pt dst srcva len k enough = absurd (omega arith)
  copyin_loop-Halts (suc f) pt dst srcva len k enough =
      if-Halts_known (ltb 0 len) _ _
        (λ more.
          (Halting-bind (Halting-walkaddr pt (P.pgrounddown srcva)) (λ pa0.
              Halting-if (pa0 == 0) Halting-pure (
                Halting-then (Halting-update _) (record {
                  run = λ k'.
                      copyin_loop-Halts f pt (dst + chunk P srcva len)
                        (u64 (P.pgrounddown srcva + 4096)) (len - chunk P srcva len) k'
                        (shorter srcva len f more enough);
                })))).run
            k)
        (λ stop. tt)

  copyinstr_loop-Halts :
      (fuel pt dst srcva max : ℕ) (k : Kernel)
      → max < fuel
      → Halts (copyinstr_loop P fuel pt dst srcva max k)
  unfolding copyinstr_loop
  copyinstr_loop-Halts zero pt dst srcva max k enough = absurd (omega arith)
  copyinstr_loop-Halts (suc f) pt dst srcva max k enough =
      if-Halts_known (ltb 0 max) _ _
        (λ more.
          (Halting-bind (Halting-walkaddr pt (P.pgrounddown srcva)) (λ pa0.
              Halting-if (pa0 == 0) Halting-pure (record {
                run = λ k'.
                    if-Halts
                      (copy_string P (chunk P srcva max) (pa0 + (srcva - P.pgrounddown srcva)) dst
                        k'.mem).1
                      _ _ tt
                      (copyinstr_loop-Halts f pt (dst + chunk P srcva max)
                        (u64 (P.pgrounddown srcva + 4096)) (max - chunk P srcva max) _
                        (shorter srcva max f more enough));
              }))).run
            k)
        (λ stop. tt)

  pub Halting-copyout : (pt dstva src len : ℕ) → Halting (copyout P pt dstva src len)
  unfolding copyout
  Halting-copyout pt dstva src len = record {
    run = λ k. copyout_loop-Halts (len + 1) pt dstva src len k (omega arith);
  }

  pub Halting-copyin : (pt dst srcva len : ℕ) → Halting (copyin P pt dst srcva len)
  unfolding copyin
  Halting-copyin pt dst srcva len = record {
    run = λ k. copyin_loop-Halts (len + 1) pt dst srcva len k (omega arith);
  }

  pub Halting-copyinstr : (pt dst srcva max : ℕ) → Halting (copyinstr P pt dst srcva max)
  unfolding copyinstr
  Halting-copyinstr pt dst srcva max = record {
    run = λ k. copyinstr_loop-Halts (max + 1) pt dst srcva max k (omega arith);
  }
