-- ===== src/Walk.antt =====
-- `walk` and `walkaddr` of lab3/vm.c.
pub mod Alloc
pub mod Lookup
pub mod Halts
use my_os_proj.Base.{ℕ, zero, suc, ◌+◌, ◌*◌, Bool, true, false, not, ◌||◌, leb, ◌==◌, if◌then◌else◌}
use my_os_proj.Memory.{load64, store64, memset}
use my_os_proj.Kernel.{
  page_size, maxva, walk_panic, Kernel, ok, panic, Cmd, pure, ◌>>=◌, ◌>>◌, update,
}
use my_os_proj.Kalloc.{kalloc}
use my_os_proj.Pte.{px, pte2pa, is_valid, is_user, branch}

-- `&pagetable[PX(level, va)]`
abbrev pub pte_at : ℕ → ℕ → ℕ → ℕ
pte_at level pagetable va = pagetable + 8 * px level va

-- The `else` of the loop in `walk`: a page for the missing table, cleared and entered at `pte`;
-- the null pointer where there is none.
grow : ℕ → Bool → Cmd ℕ
grow pte false k = ok 0 k
grow pte true k =
    (do
      pagetable ← kalloc
      if pagetable == 0 then pure 0 else do
        update (λ m. memset m pagetable 0 page_size)
        update (λ m. store64 m pte (branch pagetable))
        pure pagetable)
      k

-- The loop of `walk`, from the level given down to 0.
pub walk_loop : (level pagetable va : ℕ) → Bool → Cmd ℕ
unfolding grow
walk_loop zero pagetable va alloc k = ok (pte_at 0 pagetable va) k
walk_loop (suc level) pagetable va alloc k =
    let pte = pte_at (suc level) pagetable va in
    if is_valid (load64 k.mem pte)
    then walk_loop level (pte2pa (load64 k.mem pte)) va alloc k
    else (do table ← grow pte alloc; if table == 0 then pure 0 else walk_loop level table va alloc)
        k

-- The address of the entry for `va`, or the null pointer.
unfoldable pub walk : (pagetable va : ℕ) → Bool → Cmd ℕ
unfolding walk_loop
walk pagetable va alloc k =
    if leb maxva va then panic walk_panic else walk_loop 2 pagetable va alloc k

pub walkaddr : (pagetable va : ℕ) → Cmd ℕ
walkaddr pagetable va k =
    if leb maxva va
    then ok 0 k
    else (do
      pte ← walk pagetable va false
      if pte == 0 then pure 0 else λ k'.
          let e = load64 k'.mem pte in
          if not (is_valid e)
          then ok 0 k'
          else if not (is_user e)
          then ok 0 k'
          else ok (pte2pa e) k')
        k
