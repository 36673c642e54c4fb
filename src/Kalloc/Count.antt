-- ===== src/Kalloc/Count.antt =====
-- `sysinfo_free_mem` of lab2/kalloc.c counts the bytes on the free list.
use my_os_proj.Base.{
  ℕ, zero, suc, ◌+◌, ◌*◌, ◌%◌, ◌^◌, ◌<◌, ◌≡◌, List, [], ◌∷◌, ◌∙◌, ap, arith, length, ◌==◌, false,
}
use my_os_proj.Memory.{load64}
use my_os_proj.Kernel.{sign_extend, page_size, Platform, Kernel, ok}
use my_os_proj.Kalloc.{free_mem_loop, sysinfo_free_mem}
use my_os_proj.Kalloc.FreeList.{Chain, FreeList}

module _ (P : Platform) where
  free_mem_loop_lem :
      (fuel r acc : ℕ) (k : Kernel) (ps : List ℕ)
      → Chain P k.mem r ps
      → length ps < fuel
      → acc < 2 ^ 32
      → free_mem_loop fuel r acc k ≡ ok (sign_extend ((acc + 4096 * length ps) % 2 ^ 32)) k
  unfolding free_mem_loop
  free_mem_loop_lem zero r acc k ps c enough small = absurd (omega arith)
  free_mem_loop_lem (suc f) r acc k [] c enough small =
      let same : (acc + 4096 * 0) % 2 ^ 32 ≡ acc = omega arith in rw (c, same)
  free_mem_loop_lem (suc f) r acc k (p ∷ ps) (e, frame, out, c) enough small =
      let nonzero : (p == 0) ≡ false = ground arith in
      let next : ℕ = (acc + page_size) % 2 ^ 32 in
      let sum : (next + 4096 * length ps) % 2 ^ 32 ≡ (acc + 4096 * suc (length ps)) % 2 ^ 32 =
        omega arith in
      rw (e, nonzero)
        (free_mem_loop_lem f (load64 k.mem p) next k ps c (omega arith) (omega arith)
          ∙ ap (λ t. ok (sign_extend t) k) sum)

  -- With more rounds than the list has pages the count ends, changes nothing, and returns the size
  -- of the free memory as a 32-bit `int` holds it.
  pub sysinfo_free_mem-FreeList :
      (fuel : ℕ) (k : Kernel) (ps : List ℕ)
      → FreeList P k ps
      → length ps < fuel
      → sysinfo_free_mem fuel k ≡ ok (sign_extend (4096 * length ps % 2 ^ 32)) k
  unfolding sysinfo_free_mem
  sysinfo_free_mem-FreeList fuel k ps c enough =
      free_mem_loop_lem fuel k.freelist 0 k ps c enough (omega arith)
      ∙ ap (λ t. ok (sign_extend (t % 2 ^ 32)) k) (omega arith)

  -- Below 2 GiB of free memory the result is exact.
  pub sysinfo_free_mem-exact :
      (fuel : ℕ) (k : Kernel) (ps : List ℕ)
      → FreeList P k ps
      → length ps < fuel
      → 4096 * length ps < 2 ^ 31
      → sysinfo_free_mem fuel k ≡ ok (4096 * length ps) k
  sysinfo_free_mem-exact fuel k ps c enough small =
      sysinfo_free_mem-FreeList fuel k ps c enough ∙ ap (λ t. ok t k) (ground arith)
