-- ===== src/Vm.antt =====
-- Mapping and unmapping pages: `mappages`, `kvmmap`, `uvmunmap` and `uvmclear` of lab3/vm.c. An int
-- result 0 is `true`, and -1 is `false`. The loops run on fuel: an address below `maxva` can be
-- stepped by a page at most `page_rounds` times before `walk` panics.
pub mod Step
pub mod Map
pub mod Mapped
pub mod Release
pub mod Leaves
pub mod Unmap
pub mod Halts
use my_os_proj.Base.{
  ℕ, zero, suc, ◌+◌, ◌-◌, ◌*◌, ◌/◌, ◌%◌, Bool, true, false, not, ltb, leb, ◌==◌, if◌then◌else◌,
}
use my_os_proj.Memory.{load64, store64}
use my_os_proj.Kernel.{
  page_size, maxva, u64, Platform, kvmmap_panic, mappages_size, mappages_remap, uvmunmap_align,
  uvmunmap_walk, uvmunmap_not_mapped, uvmunmap_not_leaf, uvmclear_panic, Kernel, Run, ok, panic,
  out_of_fuel, Cmd, pure, fail, ◌>>=◌, ◌>>◌, update,
}
use my_os_proj.Kalloc.{kfree}
use my_os_proj.Pte.{pte2pa, is_valid, is_user, pte_flags, pte_v, pte_u, leaf}
use my_os_proj.Walk.{walk}

-- The body of the loop of `mappages`; `next` is the rest of the loop.
pub map_page : (pagetable a last pa perm : ℕ) → Cmd Bool → Cmd Bool
map_page pagetable a last pa perm next = do
  pte ← walk pagetable a true
  if pte == 0 then pure false else λ k.
      if is_valid (load64 k.mem pte)
      then panic mappages_remap
      else (do update (λ m. store64 m pte (leaf pa perm)); if a == last then pure true else next) k

pub map_loop : (fuel pagetable a last pa perm : ℕ) → Cmd Bool
unfolding map_page
map_loop zero pagetable a last pa perm k = out_of_fuel
map_loop (suc fuel) pagetable a last pa perm k =
    map_page pagetable a last pa perm
      (λ k'. map_loop fuel pagetable (u64 (a + page_size)) last (u64 (pa + page_size)) perm k') k

abbrev pub page_rounds : ℕ
page_rounds = maxva / page_size + 2

module _ (P : Platform) where
  pub mappages : (pagetable va size pa perm : ℕ) → Cmd Bool
  mappages pagetable va size pa perm k =
      if size == 0
      then panic mappages_size
      else map_loop page_rounds pagetable (P.pgrounddown va) (P.pgrounddown (u64 (va + size - 1)))
          pa perm k

  pub kvmmap : (kpgtbl va pa sz perm : ℕ) → Cmd (Unit {0})
  kvmmap kpgtbl va pa sz perm = do
    done ← mappages kpgtbl va sz pa perm
    if not done then fail kvmmap_panic else pure tt

  -- The body of the loop of `uvmunmap`.
  pub unmap_page : (pagetable a : ℕ) → Bool → Cmd (Unit {0})
  unmap_page pagetable a do_free = do
    pte ← walk pagetable a false
    if pte == 0 then fail uvmunmap_walk else λ k.
        let e = load64 k.mem pte in
        if not (is_valid e)
        then panic uvmunmap_not_mapped
        else if pte_flags e == pte_v
        then panic uvmunmap_not_leaf
        else (do if do_free then kfree P (pte2pa e) else pure tt; update (λ m. store64 m pte 0)) k

  pub unmap_loop : (fuel pagetable a end_va : ℕ) → Bool → Cmd (Unit {0})
  unmap_loop zero pagetable a end_va do_free k = out_of_fuel
  unmap_loop (suc fuel) pagetable a end_va do_free k =
      let rest =
        (unmap_page pagetable a do_free
            >> (λ k'. unmap_loop fuel pagetable (u64 (a + page_size)) end_va do_free k'))
          k in
      if ltb a end_va then rest else ok tt k

  pub uvmunmap : (pagetable va npages : ℕ) → Bool → Cmd (Unit {0})
  uvmunmap pagetable va npages do_free =
      if not (va % page_size == 0)
      then fail uvmunmap_align
      else unmap_loop page_rounds pagetable va (u64 (va + npages * page_size)) do_free

-- `*pte &= ~PTE_U`
pub uvmclear : (pagetable va : ℕ) → Cmd (Unit {0})
uvmclear pagetable va = do
  pte ← walk pagetable va false
  if pte == 0 then fail uvmclear_panic else λ k.
      let e = load64 k.mem pte in update (λ m. store64 m pte (if is_user e then e - pte_u else e)) k
