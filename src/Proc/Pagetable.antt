-- ===== src/Proc/Pagetable.antt =====
-- The page table of a process: `proc_pagetable` and `proc_freepagetable` of lab3/proc.c. The null
-- pointer is 0.
use my_os_proj.Base.{ℕ, ◌+◌, false, not, ◌==◌, if◌then◌else◌}
use my_os_proj.Kernel.{
  page_size, trampoline_va, trapframe_va, usyscall_va, Platform, Cmd, pure, ◌>>=◌, ◌>>◌,
}
use my_os_proj.Pte.{pte_r, pte_w, pte_x, pte_u}
use my_os_proj.Vm.{mappages, uvmunmap}
use my_os_proj.Uvm.{uvmcreate, uvmfree}

module _ (P : Platform) where
  -- The arguments are `p->trapframe` and `p->mypid`.
  pub proc_pagetable : (trapframe mypid : ℕ) → Cmd ℕ
  proc_pagetable trapframe mypid = do
    pagetable ← uvmcreate
    if pagetable == 0 then pure 0 else do
      first ← mappages P pagetable trampoline_va page_size P.trampoline (pte_r + pte_x)
      if not first then uvmfree P pagetable 0 >> pure 0 else do
        second ← mappages P pagetable trapframe_va page_size trapframe (pte_r + pte_w)
        if not second
            then (do uvmunmap P pagetable trampoline_va 1 false; uvmfree P pagetable 0; pure 0)
            else do
              third ← mappages P pagetable usyscall_va page_size mypid (pte_r + pte_u)
              if not third
                  then (do
                    uvmunmap P pagetable trampoline_va 1 false
                    uvmunmap P pagetable trapframe_va 1 false
                    uvmfree P pagetable 0
                    pure 0)
                  else pure pagetable

  pub proc_freepagetable : (pagetable sz : ℕ) → Cmd (Unit {0})
  proc_freepagetable pagetable sz = do
    uvmunmap P pagetable trampoline_va 1 false
    uvmunmap P pagetable trapframe_va 1 false
    uvmunmap P pagetable usyscall_va 1 false
    uvmfree P pagetable sz
