-- ===== src/Uvm/Dealloc.antt =====
-- `uvmdealloc` of lab3/vm.c as a change of the address space.
use my_os_proj.Base.{
  ℕ, ◌+◌, ◌-◌, ◌*◌, ◌/◌, ◌%◌, ◌^◌, ◌≤◌, ◌≡◌, inl, inr, refl, ◌∙◌, arith, true, false, List,
  if◌then◌else◌, ltb, leb, Bool-cases,
}
use my_os_proj.Kernel.{Platform, Kernel, maxva, sign_extend}
use my_os_proj.Paging.{Roles, root, Inv}
use my_os_proj.Vm.Leaves.{Leaves, Unmapping}
use my_os_proj.Vm.Unmap.{uvmunmap-Unmapping, Unmapping-none, Unmapping-then}
use my_os_proj.Uvm.{uvmdealloc}

-- The number of pages that `n` bytes take.
abbrev pub pages_up : ℕ → ℕ
pages_up n = (n + 4095) / 4096

module _ (P : Platform) where
  pub pgroundup-eq : (a : ℕ) → a ≤ maxva → P.pgroundup a ≡ 4096 * pages_up a
  pgroundup-eq a low = P.pgroundup_lem a ∙ omega arith

  -- Suppose that the memory and the page tables are well formed, that the old size is at most
  -- MAXVA, and that every page that the old size takes and the new one does not is mapped, to a
  -- frame in use, no two of them to the same. Then `uvmdealloc` returns the smaller of the two
  -- sizes; it unmaps these pages and frees their frames, and changes nothing else.
  pub uvmdealloc-Unmapping :
      (pt oldsz newsz : ℕ) (role : Roles) (ps : List ℕ) (k : Kernel)
      → Inv P role ps k
      → role pt ≡ root
      → oldsz ≤ maxva
      → Leaves P role k.mem pt (4096 * pages_up newsz) (pages_up oldsz - pages_up newsz) true
      → Unmapping P role ps k pt
          (4096 * pages_up newsz)
          (pages_up oldsz - pages_up newsz)
          true
          (if ltb newsz oldsz then newsz else oldsz)
          (uvmdealloc P pt oldsz newsz k)
  unfolding uvmdealloc
  uvmdealloc-Unmapping pt oldsz newsz role ps k inv e low leaves =
      elim (Bool-cases (ltb newsz oldsz)) [
        | inr grow ↦
            let zero_pages : pages_up oldsz - pages_up newsz ≡ 0 = ground arith in
            let stop : leb oldsz newsz ≡ true = ground arith in
            rw (grow, stop, zero_pages)
              (Unmapping-none P pt true (4096 * pages_up newsz) role ps k inv refl)
        | inl less ↦
            let go : leb oldsz newsz ≡ false = ground arith in
            elim (Bool-cases (ltb (pages_up newsz) (pages_up oldsz))) [
              | inr same ↦
                  let zero_pages : pages_up oldsz - pages_up newsz ≡ 0 = ground arith in
                  let stop : ltb (4096 * pages_up newsz) (4096 * pages_up oldsz) ≡ false =
                    ground arith in
                  rw
                    (
                      less,
                      go,
                      pgroundup-eq newsz (ground arith),
                      pgroundup-eq oldsz low,
                      stop,
                      zero_pages,
                    )
                    (Unmapping-none P pt true (4096 * pages_up newsz) role ps k inv refl)
              | inl more ↦
                  let some_pages : ltb (4096 * pages_up newsz) (4096 * pages_up oldsz) ≡ true =
                    ground arith in
                  let count : sign_extend
                        ((4096 * pages_up oldsz - 4096 * pages_up newsz) / 4096 % 2 ^ 32)
                      ≡ pages_up oldsz - pages_up newsz =
                    ground arith in
                  rw
                    (
                      less,
                      go,
                      pgroundup-eq newsz (ground arith),
                      pgroundup-eq oldsz low,
                      some_pages,
                      count,
                    )
                    (Unmapping-then P pt true (λ after run. rw run refl)
                      (uvmunmap-Unmapping P pt true (4096 * pages_up newsz)
                        (pages_up oldsz - pages_up newsz) role ps k inv e (omega arith)
                        (ground arith) leaves))
            ]
      ]
