-- ===== src/Kalloc.antt =====
-- lab2/kalloc.c: the physical page allocator. The free list is kept in the free pages themselves:
-- the first word of a free page is `r->next`. Each function runs inside `acquire(&kmem.lock)` and
-- `release(&kmem.lock)` where it reads or writes the list, so it is one atomic step.
pub mod FreeList
pub mod Laws
pub mod Range
pub mod Count
pub mod Pool
use my_os_proj.Base.{
  ℕ, zero, suc, ◌+◌, ◌-◌, ◌%◌, ◌^◌, Bool, not, ◌||◌, ltb, leb, ◌==◌, if◌then◌else◌,
}
use my_os_proj.Memory.{load64, store64, memset}
use my_os_proj.Kernel.{
  page_size, u64, sign_extend, Platform, kfree_panic, Kernel, Run, ok, panic, out_of_fuel, Cmd,
  pure, ◌>>=◌, ◌>>◌,
}

module _ (P : Platform) where
  -- The test at the head of `kfree`.
  abbrev pub bad_page : ℕ → Bool
  bad_page pa = not (pa % page_size == 0) || ltb pa P.kernel_end || leb P.phystop pa

  unfoldable pub kfree : ℕ → Cmd (Unit {0})
  kfree pa k =
      if bad_page pa
      then panic kfree_panic
      else ok tt
          (record { mem = store64 (memset k.mem pa 1 page_size) pa k.freelist; freelist = pa })

  -- `for(; p + PGSIZE <= pa_end; p += PGSIZE) kfree(p);`
  pub freerange_loop : ℕ → (p pa_end : ℕ) → Cmd (Unit {0})
  freerange_loop zero p pa_end k = out_of_fuel
  freerange_loop (suc fuel) p pa_end k =
      let rest = (kfree p >> freerange_loop fuel (u64 (p + page_size)) pa_end) k in
      if leb (u64 (p + page_size)) pa_end then rest else ok tt k

  pub freerange : (fuel pa_start pa_end : ℕ) → Cmd (Unit {0})
  freerange fuel pa_start pa_end = freerange_loop fuel (P.pgroundup pa_start) pa_end

  pub kinit : ℕ → Cmd (Unit {0})
  kinit fuel = freerange fuel P.kernel_end P.phystop

-- The null pointer is 0.
unfoldable pub kalloc : Cmd ℕ
kalloc k =
    let r = k.freelist in
    let k' = if not (r == 0) then record k { freelist = load64 k.mem r } else k in
    let k'' = if not (r == 0) then record k' { mem = memset k'.mem r 5 page_size } else k' in
    ok r k''

-- `int free_mem` is a 32-bit pattern; the return type uint64 extends its sign.
pub free_mem_loop : (fuel r free_mem : ℕ) → Cmd ℕ
free_mem_loop zero r free_mem k = out_of_fuel
free_mem_loop (suc fuel) r free_mem k =
    let rest = free_mem_loop fuel (load64 k.mem r) ((free_mem + page_size) % 2 ^ 32) k in
    if not (r == 0) then rest else ok (sign_extend free_mem) k

unfoldable pub sysinfo_free_mem : ℕ → Cmd ℕ
unfolding free_mem_loop
sysinfo_free_mem fuel k = free_mem_loop fuel k.freelist 0 k
