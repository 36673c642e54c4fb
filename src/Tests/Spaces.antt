-- ===== src/Tests/Spaces.antt =====
-- Address spaces of the small machine that grow, shrink and are copied.
use my_os_proj.Base.{ℕ, ◌+◌, ◌-◌, ◌*◌, ◌<◌, ◌≤◌, ◌≡◌, refl, ◌∙◌, arith, true, if◌then◌else◌, ltb}
use my_os_proj.Memory.{load64, store64}
use my_os_proj.Memory.Words.{load64-store64_ne}
use my_os_proj.Kernel.{Kernel}
use my_os_proj.Pte.{px, pte2pa}
use my_os_proj.Pte.Laws.{px-lt}
use my_os_proj.Walk.{pte_at}
use my_os_proj.Paging.{view, view_from, Inv}
use my_os_proj.Paging.Leaf.{written, written-Inv}
use my_os_proj.Vm.{uvmunmap}
use my_os_proj.Vm.Leaves.{Leaves, Unmapping}
use my_os_proj.Vm.Unmap.{uvmunmap-Unmapping}
use my_os_proj.Uvm.{uvmdealloc, uvmalloc, uvmcopy}
use my_os_proj.Uvm.Dealloc.{uvmdealloc-Unmapping, pages_up}
use my_os_proj.Uvm.Alloc.{uvmalloc-AllocResult, AllocResult}
use my_os_proj.Uvm.Copied.{Sources, CopyResult, uvmcopy-CopyResult}
use my_os_proj.Uvm.Halts.{AllHalt, memory-AllHalt}
use my_os_proj.Tests.Machine.{
  small, machine, roles, root_page, child_root, free_pages, machine-Inv, machine_word,
}
use my_os_proj.Tests.Paging.{machine_view, indices}

one : (i : ℕ) → i < 1 → i ≡ 0
one i h = omega arith

entry_one : (i : ℕ) → i < 1 → view machine.mem root_page (0x1000 + 4096 * i) ≡ 0x2000_0c17
entry_one i h =
    machine_view (0x1000 + 4096 * i)
    ∙ ground (arith, indices (0x1000 + 4096 * i) (omega arith), one i h)

page_one : Leaves small roles machine.mem root_page 0x1000 1 true
unfolding pte2pa
page_one = record {
  mapped = λ i h. let e = entry_one i h in rw e refl;
  owned = λ i h d. let e = entry_one i h in rw e refl;
  frames = λ i h d.
      let e = entry_one i h in
      rw e (record { aligned = refl; above = omega arith; below = omega arith });
  single = λ i j h h' d same. omega arith;
}

uvmunmap-Unmapping_example :
    Unmapping small roles free_pages machine root_page 0x1000 1 true tt
      (uvmunmap small root_page 0x1000 1 true machine)
uvmunmap-Unmapping_example =
    uvmunmap-Unmapping small root_page true 0x1000 1 roles free_pages machine machine-Inv refl refl
      (omega arith) page_one

uvmdealloc-Unmapping_example :
    Unmapping small roles free_pages machine root_page
      (4096 * pages_up 0x1000)
      (pages_up 0x2000 - pages_up 0x1000)
      true
      (if ltb 0x1000 0x2000 then 0x1000 else 0x2000)
      (uvmdealloc small root_page 0x2000 0x1000 machine)
uvmdealloc-Unmapping_example =
    uvmdealloc-Unmapping small root_page 0x2000 0x1000 roles free_pages machine machine-Inv refl
      (omega arith) page_one

uvmalloc-AllocResult_example :
    AllocResult small roles machine root_page
      (4096 * pages_up 0x2000)
      (pages_up 0x3800 - pages_up 0x2000)
      0x3800
      (uvmalloc small root_page 0x2000 0x3800 machine)
uvmalloc-AllocResult_example =
    uvmalloc-AllocResult root_page 0x2000 0x3800 roles free_pages machine machine-Inv refl
      (omega arith) (omega arith) empty
  where
    empty :
        (va : ℕ)
        → 4096 * pages_up 0x2000 ≤ va
        → va < 4096 * pages_up 0x3800
        → view machine.mem root_page va ≡ 0
    empty va lo hi = machine_view va ∙ ground (arith, indices va (omega arith))

-- The virtual page 0 is mapped too, for a parent whose size is one page.
abbrev parent : Kernel
parent = written (0x8000_2000 + 8 * 0) 0x2000_2017 machine

parent-Inv : Inv small roles free_pages parent
parent-Inv = written-Inv machine-Inv 0x8000_2000 0 0x2000_2017 refl (omega arith)

parent_entry : view parent.mem root_page 0 ≡ 0x2000_2017
unfolding view_from load64 store64 px pte2pa
parent_entry = refl

parent-Sources : Sources small roles parent.mem root_page 1
unfolding pte2pa
parent-Sources = record {
  mapped = λ i h. rw (one i h, parent_entry) refl;
  owned = λ i h. rw (one i h, parent_entry) refl;
  frames = λ i h.
      rw (one i h, parent_entry)
        (record { aligned = refl; above = omega arith; below = omega arith });
}

child_empty : (va : ℕ) → view parent.mem child_root va ≡ 0
unfolding view_from
child_empty va =
    let i = px-lt 2 va in
    let entry : load64 parent.mem (pte_at 2 child_root va) ≡ 0 =
      load64-store64_ne machine.mem 0x8000_2000 (pte_at 2 child_root va) 0x2000_2017 (omega arith)
      ∙ machine_word (pte_at 2 child_root va) (omega arith)
      ∙ ground arith in
    rw entry refl

uvmcopy-CopyResult_example :
    CopyResult small roles parent root_page child_root
      (pages_up 0x800)
      (uvmcopy small root_page child_root 0x800 parent)
uvmcopy-CopyResult_example =
    uvmcopy-CopyResult root_page child_root 0x800 roles free_pages parent parent-Inv refl refl
      (omega arith) (omega arith) parent-Sources (λ va h. child_empty va)

memory-AllHalt_example : AllHalt small root_page child_root 0x1000 0x2000 0x30 22 true machine
memory-AllHalt_example =
    memory-AllHalt small root_page child_root 0x1000 0x2000 0x30 22 true machine
