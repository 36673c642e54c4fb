-- ===== src/Uvm.antt =====
-- User memory: `uvmcreate`, `uvminit`, `uvmalloc`, `uvmdealloc`, `freewalk`, `uvmfree` and
-- `uvmcopy` of lab3/vm.c. An int result 0 is `true`, and -1 is `false`. A walk over pages takes at
-- most `page_rounds` rounds before an address reaches `maxva`, where `walk` panics.
pub mod Dealloc
pub mod Fresh
pub mod Backed
pub mod Rollback
pub mod AllocPage
pub mod Alloc
pub mod CopyPage
pub mod Copied
pub mod Halts
use my_os_proj.Base.{
  ℕ, zero, suc, ◌+◌, ◌-◌, ◌*◌, ◌/◌, ◌%◌, ◌^◌, Bool, true, false, not, ◌&&◌, ltb, leb, ◌==◌,
  if◌then◌else◌,
}
use my_os_proj.Memory.{load64, store64, memset, memmove}
use my_os_proj.Kernel.{
  page_size, u64, sign_extend, Platform, inituvm, freewalk_leaf, uvmcopy_pte, uvmcopy_page,
  null_pointer, Kernel, ok, panic, out_of_fuel, Cmd, pure, fail, ◌>>=◌, ◌>>◌, update,
}
use my_os_proj.Kalloc.{kfree, kalloc}
use my_os_proj.Pte.{pte2pa, is_valid, pte_flags, pte_r, pte_w, pte_x, pte_u}
use my_os_proj.Walk.{walk}
use my_os_proj.Vm.{mappages, uvmunmap, page_rounds}

-- An empty user page table, or the null pointer.
unfoldable pub uvmcreate : Cmd ℕ
uvmcreate k =
    (do
      pagetable ← kalloc
      if pagetable == 0
          then pure 0
          else do update (λ m. memset m pagetable 0 page_size); pure pagetable)
      k

-- `PTE_W|PTE_R|PTE_X|PTE_U`
abbrev pub user_perm : ℕ
user_perm = pte_w + pte_r + pte_x + pte_u

module _ (P : Platform) where
  -- The result of `kalloc` is not tested, nor is that of `mappages`.
  pub uvminit : (pagetable src sz : ℕ) → Cmd (Unit {0})
  uvminit pagetable src sz = if leb page_size sz then fail inituvm else do
    mem ← kalloc
    if mem == 0 then fail null_pointer else do
      update (λ m. memset m mem 0 page_size)
      mapped ← mappages P pagetable 0 page_size mem user_perm
      update (λ m. memmove m mem src sz)

  -- The new size. `int npages` is passed on as a uint64.
  pub uvmdealloc : (pagetable oldsz newsz : ℕ) → Cmd ℕ
  uvmdealloc pagetable oldsz newsz =
      if leb oldsz newsz
      then pure oldsz
      else if ltb (P.pgroundup newsz) (P.pgroundup oldsz)
      then (do
        let npages = (P.pgroundup oldsz - P.pgroundup newsz) / page_size % 2 ^ 32
        uvmunmap P pagetable (P.pgroundup newsz) (sign_extend npages) true
        pure newsz)
      else pure newsz

  -- The body of the loop of `uvmalloc`; `next` is the rest of the loop.
  pub alloc_page : (pagetable a oldsz : ℕ) → Cmd ℕ → Cmd ℕ
  alloc_page pagetable a oldsz next = do
    mem ← kalloc
    if mem == 0 then uvmdealloc pagetable a oldsz >>= (λ _. pure 0) else do
      update (λ m. memset m mem 0 page_size)
      done ← mappages P pagetable a page_size mem user_perm
      if not done then (do kfree P mem; sz ← uvmdealloc pagetable a oldsz; pure 0) else next

  pub alloc_loop : (fuel pagetable a oldsz newsz : ℕ) → Cmd ℕ
  alloc_loop zero pagetable a oldsz newsz k = out_of_fuel
  alloc_loop (suc fuel) pagetable a oldsz newsz k =
      let rest =
        alloc_page pagetable a oldsz
          (λ k'. alloc_loop fuel pagetable (u64 (a + page_size)) oldsz newsz k') k in
      if ltb a newsz then rest else ok newsz k

  -- The new size, or 0.
  pub uvmalloc : (pagetable oldsz newsz : ℕ) → Cmd ℕ
  uvmalloc pagetable oldsz newsz =
      if ltb newsz oldsz
      then pure oldsz
      else alloc_loop page_rounds pagetable (P.pgroundup oldsz) (P.pgroundup oldsz) newsz

  -- The 512 rounds of `freewalk`; `free_child` is its recursive call.
  pub freewalk_loop : (ℕ → Cmd (Unit {0})) → (rounds i pagetable : ℕ) → Cmd (Unit {0})
  freewalk_loop free_child zero i pagetable k = ok tt k
  freewalk_loop free_child (suc rounds) i pagetable k =
      let pte = load64 k.mem (pagetable + 8 * i) in
      let next = λ (k' : Kernel). freewalk_loop free_child rounds (i + 1) pagetable k' in
      if is_valid pte && (pte / 2 % 8 == 0)
      then (do free_child (pte2pa pte); update (λ m. store64 m (pagetable + 8 * i) 0); next) k
      else if is_valid pte
      then panic freewalk_leaf
      else next k

  -- `depth` bounds the depth of the recursion; a page table has three levels.
  pub freewalk : (depth pagetable : ℕ) → Cmd (Unit {0})
  freewalk zero pagetable k = out_of_fuel
  freewalk (suc depth) pagetable k =
      (freewalk_loop (λ child k'. freewalk depth child k') 512 0 pagetable >> kfree P pagetable) k

  pub uvmfree : (pagetable sz : ℕ) → Cmd (Unit {0})
  uvmfree pagetable sz = do
    if ltb 0 sz then uvmunmap P pagetable 0 (P.pgroundup sz / page_size) true else pure tt
    freewalk 3 pagetable

  -- The body of the loop of `uvmcopy` up to `goto err`, which is `false`.
  pub copy_page : (old new i : ℕ) → Cmd Bool
  copy_page old new i = do
    pte ← walk old i false
    if pte == 0 then fail uvmcopy_pte else λ k.
        let e = load64 k.mem pte in
        if not (is_valid e)
        then panic uvmcopy_page
        else (do
          mem ← kalloc
          if mem == 0 then pure false else do
            update (λ m. memmove m mem (pte2pa e) page_size)
            done ← mappages P new i page_size mem (pte_flags e)
            if not done then kfree P mem >> pure false else pure true)
            k

  pub copy_loop : (fuel old new i sz : ℕ) → Cmd Bool
  copy_loop zero old new i sz k = out_of_fuel
  copy_loop (suc fuel) old new i sz k =
      let rest =
        (do
          done ← copy_page old new i
          if done
              then (λ k'. copy_loop fuel old new (u64 (i + page_size)) sz k')
              else do uvmunmap P new 0 (i / page_size) true; pure false)
          k in
      if ltb i sz then rest else ok true k

  pub uvmcopy : (old new sz : ℕ) → Cmd Bool
  uvmcopy old new sz = copy_loop page_rounds old new 0 sz
