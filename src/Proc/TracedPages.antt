-- ===== src/Proc/TracedPages.antt =====
-- The page table of a process in lab2/proc.c, which has no page that is shared with the kernel:
-- `proc_pagetable` and `proc_freepagetable`.
use my_os_proj.Base.{ℕ, ◌+◌, false, not, ◌==◌, if◌then◌else◌}
use my_os_proj.Kernel.{page_size, trampoline_va, trapframe_va, Platform, Cmd, pure, ◌>>=◌, ◌>>◌}
use my_os_proj.Pte.{pte_r, pte_w, pte_x}
use my_os_proj.Vm.{mappages, uvmunmap}
use my_os_proj.Uvm.{uvmcreate, uvmfree}

module _ (P : Platform) where
  -- The argument is `p->trapframe`.
  pub proc_pagetable : (trapframe : ℕ) → Cmd ℕ
  proc_pagetable trapframe = do
    pagetable ← uvmcreate
    if pagetable == 0 then pure 0 else do
      first ← mappages P pagetable trampoline_va page_size P.trampoline (pte_r + pte_x)
      if not first then uvmfree P pagetable 0 >> pure 0 else do
        second ← mappages P pagetable trapframe_va page_size trapframe (pte_r + pte_w)
        if not second
            then (do uvmunmap P pagetable trampoline_va 1 false; uvmfree P pagetable 0; pure 0)
            else pure pagetable

  pub proc_freepagetable : (pagetable sz : ℕ) → Cmd (Unit {0})
  proc_freepagetable pagetable sz = do
    uvmunmap P pagetable trampoline_va 1 false
    uvmunmap P pagetable trapframe_va 1 false
    uvmfree P pagetable sz
