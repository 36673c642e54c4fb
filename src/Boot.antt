-- ===== src/Boot.antt =====
-- The kernel's own page table: `kvmmake`, `kvminit` and `kvminithart` of lab3/vm.c, with
-- `proc_mapstacks` of lab3/proc.c, and the listing `vmprint` of lab3/vm.c, whose output is a list
-- of lines.
pub mod Entries
pub mod Listing
use my_os_proj.Base.{ℕ, zero, suc, ◌+◌, ◌-◌, ◌*◌, ◌^◌, ◌==◌, if◌then◌else◌, List, [], ◌∷◌, ◌++◌}
use my_os_proj.Memory.{Memory, load64, memset}
use my_os_proj.Kernel.{
  page_size, kernbase, nproc, trampoline_va, u64, Platform, kalloc_panic, null_pointer, Cmd, pure,
  fail, ◌>>=◌, ◌>>◌, update, ok,
}
use my_os_proj.Kalloc.{kalloc}
use my_os_proj.Pte.{pte2pa, is_valid, pte_r, pte_w, pte_x}
use my_os_proj.Vm.{kvmmap}

-- vm.c quotes these.
abbrev uart0 : ℕ
uart0 = 0x1000_0000

abbrev virtio0 : ℕ
virtio0 = 0x1000_1000

abbrev plic : ℕ
plic = 0x0c00_0000

module _ (P : Platform) where
  -- The loop of `proc_mapstacks`, from process `i` on.
  pub mapstacks_loop : (rounds i kpgtbl : ℕ) → Cmd (Unit {0})
  mapstacks_loop zero i kpgtbl k = ok tt k
  mapstacks_loop (suc rounds) i kpgtbl k =
      (do
        pa ← kalloc
        if pa == 0 then fail kalloc_panic else do
          kvmmap P kpgtbl (P.kstack i) pa page_size (pte_r + pte_w)
          λ k'. mapstacks_loop rounds (i + 1) kpgtbl k')
        k

  pub proc_mapstacks : ℕ → Cmd (Unit {0})
  proc_mapstacks kpgtbl = mapstacks_loop nproc 0 kpgtbl

  -- The result of `kalloc` is not tested.
  pub kvmmake : Cmd ℕ
  kvmmake = do
    kpgtbl ← kalloc
    if kpgtbl == 0 then fail null_pointer else do
      update (λ m. memset m kpgtbl 0 page_size)
      kvmmap P kpgtbl uart0 uart0 page_size (pte_r + pte_w)
      kvmmap P kpgtbl virtio0 virtio0 page_size (pte_r + pte_w)
      kvmmap P kpgtbl plic plic 0x400000 (pte_r + pte_w)
      kvmmap P kpgtbl kernbase kernbase (u64 (P.etext + 2 ^ 64 - kernbase)) (pte_r + pte_x)
      kvmmap P kpgtbl P.etext P.etext (u64 (P.phystop + 2 ^ 64 - P.etext)) (pte_r + pte_w)
      kvmmap P kpgtbl trampoline_va P.trampoline page_size (pte_r + pte_x)
      proc_mapstacks kpgtbl
      pure kpgtbl

-- A line of the listing: the level of its table, the index, the entry and the address in it.
pub record Line : Type 0 where
  pub level : ℕ
  pub index : ℕ
  pub pte : ℕ
  pub pa : ℕ

-- The 512 rounds of `printwalk`; `children` is its recursive call.
pub printwalk_loop :
    (m : Memory) (level : ℕ) (children : ℕ → List Line) (rounds i pagetable : ℕ) → List Line
printwalk_loop m level children zero i pagetable = []
printwalk_loop m level children (suc rounds) i pagetable =
    let pte = load64 m (pagetable + 8 * i) in
    let rest = printwalk_loop m level children rounds (i + 1) pagetable in
    if is_valid pte
    then record { level = level; index = i; pte = pte; pa = pte2pa pte }
      ∷ (children (pte2pa pte) ++ rest)
    else rest

pub printwalk : (m : Memory) (level pagetable : ℕ) → List Line
printwalk m zero pagetable = printwalk_loop m 0 (λ _. []) 512 0 pagetable
printwalk m (suc level) pagetable =
    printwalk_loop m (suc level) (λ child. printwalk m level child) 512 0 pagetable

-- The lines that follow the first, "page table %p" with the address `pagetable`, which `vmprint`
-- itself prints before it calls `printwalk`.
pub vmprint : (m : Memory) (pagetable : ℕ) → List Line
vmprint m pagetable = printwalk m 2 pagetable

-- The variable `kernel_pagetable` and the register satp of a hart.
pub record Mmu : Type 0 where
  pub kernel_pagetable : ℕ
  pub satp : ℕ

pub kvminit : (P : Platform) → Mmu → Cmd Mmu
kvminit P u = do kpgtbl ← kvmmake P; pure (record u { kernel_pagetable = kpgtbl })

-- `make_satp` is the macro MAKE_SATP; the flush of the TLB changes nothing that is modelled.
pub kvminithart : (make_satp : ℕ → ℕ) → Mmu → Mmu
kvminithart make_satp u = record u { satp = make_satp u.kernel_pagetable }
