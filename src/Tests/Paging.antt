-- ===== src/Tests/Paging.antt =====
-- Page tables and user memory on the small machine.
use my_os_proj.Base.{
  ℕ, ◌+◌, ◌*◌, ◌/◌, ◌<◌, ◌≤◌, ◌≡◌, inl, inr, refl, ◌∙◌, arith, true, false, if◌then◌else◌, ◌==◌,
  ◌&&◌, leb, Bool-cases,
}
use my_os_proj.Memory.{load64, store64}
use my_os_proj.Kernel.{ok, maxva}
use my_os_proj.Pte.{px, pte2pa, is_valid}
use my_os_proj.Pte.Laws.{px-lt}
use my_os_proj.Walk.{pte_at, walk, walkaddr}
use my_os_proj.Walk.Alloc.{Walked, walk-Walked}
use my_os_proj.Walk.Lookup.{translate, walkaddr-translate, walk_apart}
use my_os_proj.Paging.{view, view_from}
use my_os_proj.Vm.{mappages}
use my_os_proj.Vm.Map.{mappages-MapResult, pages_of}
use my_os_proj.Vm.Mapped.{MapResult}
use my_os_proj.Copy.{copyout}
use my_os_proj.Copy.Span.{UserSpace}
use my_os_proj.Copy.Out.{copyout-CopiedOut}
use my_os_proj.Copy.OutStep.{CopiedOut}
use my_os_proj.Tests.Machine.{
  small, machine, roles, root_page, user_frame, free_pages, machine_word, machine-Inv,
}

-- The virtual page 1 is mapped, and no other.
root_entry :
    (va : ℕ)
    → load64 machine.mem (pte_at 2 root_page va) ≡ (if px 2 va == 0 then 0x2000_0401 else 0)
root_entry va = machine_word (pte_at 2 root_page va) (omega arith) ∙ ground (arith, px-lt 2 va)

middle_entry :
    (va : ℕ)
    → load64 machine.mem (pte_at 1 0x8000_1000 va) ≡ (if px 1 va == 0 then 0x2000_0801 else 0)
middle_entry va = machine_word (pte_at 1 0x8000_1000 va) (omega arith) ∙ ground (arith, px-lt 1 va)

last_entry :
    (va : ℕ)
    → load64 machine.mem (pte_at 0 0x8000_2000 va) ≡ (if px 0 va == 1 then 0x2000_0c17 else 0)
last_entry va = machine_word (pte_at 0 0x8000_2000 va) (omega arith) ∙ ground (arith, px-lt 0 va)

pub machine_view :
    (va : ℕ)
    → view machine.mem root_page va
      ≡ (if (px 2 va == 0) && ((px 1 va == 0) && (px 0 va == 1)) then 0x2000_0c17 else 0)
unfolding view_from pte2pa
machine_view va = elim (Bool-cases (px 2 va == 0)) [
  | inr e ↦ rw (root_entry va, e)
  | inl e ↦ elim (Bool-cases (px 1 va == 0)) [
    | inr f ↦ rw (root_entry va, e, middle_entry va, f)
    | inl f ↦ rw (root_entry va, e, middle_entry va, f) (last_entry va)
  ]
]

pub indices :
    (va : ℕ)
    → va < maxva
    → ((px 2 va == 0) && ((px 1 va == 0) && (px 0 va == 1))) ≡ (va / 4096 == 1)
unfolding px
indices va low = ground arith

pub machine_translate :
    (va : ℕ) → translate machine.mem root_page va ≡ (if va / 4096 == 1 then user_frame else 0)
unfolding pte2pa
machine_translate va = elim (Bool-cases (leb maxva va)) [
  | inl high ↦ rw high (ground arith)
  | inr low ↦ rw (low, machine_view va, indices va (ground arith)) (ground arith)
]

pub machine-UserSpace : UserSpace small roles machine.mem root_page
machine-UserSpace = record {
  owned = λ va h. let t = machine_translate va in ground arith;
  frames = λ va h. let t = machine_translate va in ground arith;
  single =
      λ va wa h same. let t = machine_translate va in let t' = machine_translate wa in ground arith;
}

walk-Walked_example :
    Walked small roles machine 2 root_page 0x20_0000 (walk root_page 0x20_0000 true machine)
walk-Walked_example =
    walk-Walked root_page 0x20_0000 roles free_pages machine machine-Inv refl (omega arith)

walkaddr-translate_example :
    walkaddr root_page 0x1234 machine ≡ ok (translate machine.mem root_page 0x1234) machine
walkaddr-translate_example = walkaddr-translate machine-Inv root_page 0x1234 refl

-- Mapping two pages from the virtual page 2.
mappages-MapResult_example :
    MapResult small roles machine root_page 0x2000
      (pages_of 0x2000 0x1800)
      0x8000_3000
      22
      (mappages small root_page 0x2000 0x1800 0x8000_3000 22 machine)
mappages-MapResult_example =
    mappages-MapResult root_page 0x2000 0x1800 0x8000_3000 22 roles free_pages machine machine-Inv
      refl (omega arith) (omega arith) refl (omega arith) (omega arith) unmapped
  where
    unmapped :
        (va : ℕ)
        → 0x2000 ≤ va
        → va < 0x2000 + 4096 * pages_of 0x2000 0x1800
        → is_valid (view machine.mem root_page va) ≡ false
    unmapped va lo hi = let v = machine_view va in let i = indices va (omega arith) in ground arith

copyout-CopiedOut_example :
    CopiedOut small roles free_pages machine root_page 0x1ffe 0x8000_0000 4
      (copyout small root_page 0x1ffe 0x8000_0000 4 machine)
copyout-CopiedOut_example =
    copyout-CopiedOut root_page 0x1ffe 0x8000_0000 4 roles free_pages machine machine-Inv refl
      machine-UserSpace (λ i va h there. let t = machine_translate va in ground arith)

walk_slot_runs : walk root_page 0x1234 false machine ≡ ok 0x8000_2008 machine
unfolding walk load64 store64 px pte2pa
walk_slot_runs = refl

walk_apart_example : ((◌≡◌ {A = ℕ} root_page root_page) × (0x1234 / 4096 ≡ 0x1000 / 4096))
unfolding walk load64 store64 px pte2pa
walk_apart_example =
    walk_apart machine-Inv root_page root_page 0x1234 0x1000 0x8000_2008 refl refl (omega arith)
      (omega arith) refl refl (omega arith)
