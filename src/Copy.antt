-- ===== src/Copy.antt =====
-- Moving bytes between the kernel and user memory: `copyout`, `copyin` and `copyinstr` of
-- lab3/vm.c. An int result 0 is `true`, and -1 is `false`. Each loop runs at most `len` rounds, so
-- `len + 1` units of fuel are given.
pub mod Span
pub mod In
pub mod Out
pub mod OutStep
pub mod InStep
pub mod Roundtrip
pub mod Halts
use my_os_proj.Base.{ℕ, zero, suc, ◌+◌, ◌-◌, Bool, true, false, not, ◌&&◌, ltb, ◌==◌, if◌then◌else◌}
use my_os_proj.Memory.{Memory, memmove, store8}
use my_os_proj.Kernel.{
  page_size, u64, Platform, Kernel, Run, ok, out_of_fuel, Cmd, pure, ◌>>=◌, ◌>>◌, update,
}
use my_os_proj.Walk.{walkaddr}

module _ (P : Platform) where
  -- `n = PGSIZE - (va - va0); if(n > len) n = len;`
  abbrev pub chunk : (va len : ℕ) → ℕ
  chunk va len = let n = page_size - (va - P.pgrounddown va) in if ltb len n then len else n

  pub copyout_loop : (fuel pagetable dstva src len : ℕ) → Cmd Bool
  copyout_loop zero pagetable dstva src len k = out_of_fuel
  copyout_loop (suc fuel) pagetable dstva src len k =
      let va0 = P.pgrounddown dstva in
      let n = chunk dstva len in
      let body =
        (do
          pa0 ← walkaddr pagetable va0
          if pa0 == 0 then pure false else (do
            update (λ m. memmove m (pa0 + (dstva - va0)) src n)
            λ k'. copyout_loop fuel pagetable (u64 (va0 + page_size)) (src + n) (len - n) k'))
          k in
      if ltb 0 len then body else ok true k

  pub copyout : (pagetable dstva src len : ℕ) → Cmd Bool
  copyout pagetable dstva src len = copyout_loop (len + 1) pagetable dstva src len

  pub copyin_loop : (fuel pagetable dst srcva len : ℕ) → Cmd Bool
  copyin_loop zero pagetable dst srcva len k = out_of_fuel
  copyin_loop (suc fuel) pagetable dst srcva len k =
      let va0 = P.pgrounddown srcva in
      let n = chunk srcva len in
      let body =
        (do
          pa0 ← walkaddr pagetable va0
          if pa0 == 0 then pure false else (do
            update (λ m. memmove m dst (pa0 + (srcva - va0)) n)
            λ k'. copyin_loop fuel pagetable (dst + n) (u64 (va0 + page_size)) (len - n) k'))
          k in
      if ltb 0 len then body else ok true k

  pub copyin : (pagetable dst srcva len : ℕ) → Cmd Bool
  copyin pagetable dst srcva len = copyin_loop (len + 1) pagetable dst srcva len

  -- The inner loop of `copyinstr` over at most `n` bytes at `p`; the result says whether
  -- the null character was met.
  pub copy_string : (n p dst : ℕ) → Memory → Memory × Bool
  copy_string zero p dst m = (m, false)
  copy_string (suc n) p dst m =
      let rest = copy_string n (p + 1) (dst + 1) (store8 m dst (m p)) in
      if m p == 0 then (store8 m dst 0, true) else rest

  pub copyinstr_loop : (fuel pagetable dst srcva max : ℕ) → Cmd Bool
  copyinstr_loop zero pagetable dst srcva max k = out_of_fuel
  copyinstr_loop (suc fuel) pagetable dst srcva max k =
      let va0 = P.pgrounddown srcva in
      let n = chunk srcva max in
      let body =
        (do
          pa0 ← walkaddr pagetable va0
          if pa0 == 0 then pure false else λ k'.
              let (m, got_null) = copy_string n (pa0 + (srcva - va0)) dst k'.mem in
              let k'' = record k' { mem = m } in
              let rest =
                copyinstr_loop fuel pagetable (dst + n) (u64 (va0 + page_size)) (max - n) k'' in
              if got_null then ok true k'' else rest)
          k in
      if ltb 0 max then body else ok false k

  -- It fails too where `max` bytes hold no null character.
  pub copyinstr : (pagetable dst srcva max : ℕ) → Cmd Bool
  copyinstr pagetable dst srcva max = copyinstr_loop (max + 1) pagetable dst srcva max
