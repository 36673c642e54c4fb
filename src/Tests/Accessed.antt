-- ===== src/Tests/Accessed.antt =====
-- `pgaccess` on the small machine, whose virtual page 1 has been accessed and page 0 is not mapped.
use my_os_proj.Base.{ℕ, zero, suc, ◌+◌, ◌*◌, ◌^◌, ◌<◌, ◌≡◌, ◌≢◌, refl, arith, none, true, [], ◌∷◌}
use my_os_proj.Memory.{load64, store64}
use my_os_proj.Kernel.{Kernel}
use my_os_proj.Pte.{px, pte2pa}
use my_os_proj.Kalloc.FreeList.{IsFrame}
use my_os_proj.Paging.{view_from, slot_from, view, slot, Inv}
use my_os_proj.Paging.Leaf.{written, written-Inv}
use my_os_proj.Copy.{copyout}
use my_os_proj.Proc.System.{System, pure, ◌>>=◌, lift}
use my_os_proj.Proc.Access.{pgaccess}
use my_os_proj.Proc.Access.Marks.{Reported, Tables}
use my_os_proj.Proc.Access.Reported.{pgaccess-Reported}
use my_os_proj.Boot.{vmprint}
use my_os_proj.Boot.Entries.{leaf_lines, valid_entries}
use my_os_proj.Boot.Listing.{vmprint-valid_entries}
use my_os_proj.Tests.Machine.{small, machine, roles, root_page, free_pages, machine-Inv}
use my_os_proj.Tests.Procs.{second}

-- The entry with PTE_A.
abbrev touched : Kernel
touched = written (0x8000_2000 + 8 * 1) 0x2000_0c57 machine

touched-Inv : Inv small roles free_pages touched
touched-Inv = written-Inv machine-Inv 0x8000_2000 1 0x2000_0c57 refl (omega arith)

-- The variable `mask` is in the last page of RAM but one.
abbrev variable : ℕ
variable = 0x8000_8010

variable-IsFrame : IsFrame small 0x8000_8000
variable-IsFrame = record { aligned = refl; above = omega arith; below = omega arith }

slot_there : (j : ℕ) → j < 2 → slot touched.mem root_page (0 + 4096 * j) ≢ 0
unfolding slot_from load64 store64 px pte2pa
slot_there zero h z = omega (arith, z)
slot_there (suc zero) h z = omega (arith, z)
slot_there (suc (suc j)) h z = absurd (omega arith)

entry_short : (j : ℕ) → j < 2 → view touched.mem root_page (0 + 4096 * j) < 2 ^ 64
unfolding view_from load64 store64 px pte2pa
entry_short zero h = omega arith
entry_short (suc zero) h = omega arith
entry_short (suc (suc j)) h = absurd (omega arith)

touched-Tables : Tables touched.mem root_page 0 0 2
touched-Tables = record {
  low = omega arith;
  there = λ j lo hi. slot_there j hi;
  short = λ j lo hi. entry_short j hi;
}

abbrev asking : System (Unit {0})
asking = record { kernel = touched; procs = second ∷ []; nextpid = 4; initproc = none; files = tt }

variable_starts : load64 touched.mem variable ≡ 0
unfolding load64 store64
variable_starts = refl

pgaccess-Reported_example :
    (after : Kernel) × Reported small roles free_pages root_page 0 variable 0 2 touched after
    × (pgaccess small 0 0 2 0x1000 variable asking
        ≡ (lift (copyout small root_page 0x1000 variable 8) >>= (λ copied. pure true))
            (record asking { kernel = after }))
pgaccess-Reported_example =
    pgaccess-Reported 0x8000_8000 refl variable-IsFrame 0 0 2 0x1000 variable asking second refl
      touched-Inv refl (omega arith) (omega arith) (omega (arith, variable_starts)) (omega arith)
      (omega arith) touched-Tables

-- The listing of its page table.
vmprint-valid_entries_example :
    leaf_lines (vmprint touched.mem root_page)
    ≡ valid_entries (λ page. view touched.mem root_page (4096 * page)) (2 ^ 27) 0
vmprint-valid_entries_example = vmprint-valid_entries touched.mem root_page
