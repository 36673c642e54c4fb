-- ===== src/Tests/Kalloc.antt =====
-- The allocator on the small machine.
use my_os_proj.Base.{ℕ, ◌*◌, ◌^◌, ◌≡◌, ◌%◌, ◌↔◌, ◌∈◌, refl, arith, ◌∷◌, List, length}
use my_os_proj.Memory.{load64, store64}
use my_os_proj.Memory.Words.{SameOutside}
use my_os_proj.Kernel.{sign_extend, Kernel, ok, panic, kfree_panic, ◌>>◌}
use my_os_proj.Kalloc.{kfree, kalloc, kinit, sysinfo_free_mem}
use my_os_proj.Kalloc.FreeList.{IsFrame, FreeList}
use my_os_proj.Kalloc.Pool.{Popped, kalloc-Popped, kfree-push, kfree-panic_iff, kalloc-kfree}
use my_os_proj.Kalloc.Range.{kinit-FreeList, page_count}
use my_os_proj.Kalloc.Count.{sysinfo_free_mem-FreeList}
use my_os_proj.Tests.Machine.{small, machine, free_pages, user_frame, machine-Inv}

kalloc-Popped_example : Popped small machine free_pages (kalloc machine)
kalloc-Popped_example = kalloc-Popped small machine free_pages machine-Inv.pool

kfree-push_example :
    (k' : Kernel) × (kfree small user_frame machine ≡ ok tt k')
    × FreeList small k' (user_frame ∷ free_pages)
    × SameOutside user_frame machine.mem k'.mem
kfree-push_example =
    kfree-push small machine free_pages user_frame machine-Inv.pool (omega arith) refl

kfree-panic_iff_example :
    (kfree small 0x8000_3008 machine ≡ panic kfree_panic) ↔ (¬ IsFrame small 0x8000_3008)
kfree-panic_iff_example = kfree-panic_iff small machine 0x8000_3008

-- An address inside a page is no frame.
kfree_misaligned : kfree small 0x8000_3008 machine ≡ panic kfree_panic
kfree_misaligned = (kfree-panic_iff small machine 0x8000_3008).1 (λ f. omega (arith, f.aligned))

kalloc-kfree_example :
    (k' : Kernel) × ((kfree small user_frame >> kalloc) machine ≡ ok user_frame k')
    × FreeList small k' free_pages
kalloc-kfree_example =
    kalloc-kfree small machine free_pages user_frame machine-Inv.pool (omega arith) refl

abbrev booting : Kernel
booting = record { mem = λ _. 0; freelist = 0 }

kinit-FreeList_example :
    (k' : Kernel) × (ps : List ℕ) × (kinit small 11 booting ≡ ok tt k')
    × FreeList small k' ps
    × (length ps ≡ page_count small 0x8000_0000 0x8000_a000)
    × ((p : ℕ) → (p ∈ ps) ↔ IsFrame small p)
kinit-FreeList_example = kinit-FreeList small 11 booting refl (omega arith)

sysinfo_free_mem-FreeList_example :
    sysinfo_free_mem 5 machine ≡ ok (sign_extend (4096 * length free_pages % 2 ^ 32)) machine
sysinfo_free_mem-FreeList_example =
    sysinfo_free_mem-FreeList small 5 machine free_pages machine-Inv.pool (omega arith)

sysinfo_free_mem_runs : sysinfo_free_mem 5 machine ≡ ok 16384 machine
unfolding sysinfo_free_mem load64 store64
sysinfo_free_mem_runs = refl
