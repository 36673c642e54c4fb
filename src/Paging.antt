-- ===== src/Paging.antt =====
-- What the page tables in memory stand for. Every page has a role; a page-table page knows the
-- table and the index that lead to it, so tables cannot be shared or form a cycle. An address space
-- is the function that gives the leaf entry of every virtual address.
pub mod Grow
pub mod Growth
pub mod Slots
pub mod Leaf
pub mod Plain
pub mod User
pub mod Freed
pub mod Taken
use my_os_proj.Base.{
  ℕ, zero, suc, ◌+◌, ◌*◌, ◌<◌, ◌≡◌, Bool, true, false, Option, none, some, List, ◌∈◌, if◌then◌else◌,
  ◌==◌,
}
use my_os_proj.Memory.{Memory, load64}
use my_os_proj.Kernel.{Platform, Kernel}
use my_os_proj.Kalloc.FreeList.{IsFrame, FreeList}
use my_os_proj.Pte.{pte2pa, is_valid}
use my_os_proj.Walk.{pte_at}

-- `table l p i` is a table of level `l`, to which entry `i` of the page `p` leads. `used` is any
-- other page in use: user memory, kernel stacks, trap frames.
pub data Role : Type 0 where
  free used root : Role
  table : (level parent index : ℕ) → Role

abbrev pub Roles : Type 0
Roles = ℕ → Role

abbrev pub level_of : Role → Option ℕ
level_of root = some 2
level_of (table l p i) = some l
level_of _ = none

abbrev pub assign : Roles → ℕ → Role → Roles
assign role p r q = if p == q then r else role q

-- The free list and the tables, in the memory of `k`; the leaf entries are unconstrained.
pub record Inv (P : Platform) (role : Roles) (ps : List ℕ) (k : Kernel) : Type 0 where
  pub pool : FreeList P k ps
  pub free_listed : (p : ℕ) → role p ≡ free → p ∈ ps
  pub listed_free : (p : ℕ) → p ∈ ps → role p ≡ free
  pub frames : (p l : ℕ) → level_of (role p) ≡ some l → IsFrame P p
  pub links :
      (p l i : ℕ)
      → level_of (role p) ≡ some (suc l)
      → i < 512
      → is_valid (load64 k.mem (p + 8 * i)) ≡ true
      → role (pte2pa (load64 k.mem (p + 8 * i))) ≡ table l p i

-- The leaf entry for `va` below a table of the level; 0 where a table is missing.
unfoldable pub view_from : Memory → (level pagetable va : ℕ) → ℕ
view_from m zero pagetable va = load64 m (pte_at 0 pagetable va)
view_from m (suc l) pagetable va =
    let e = load64 m (pte_at (suc l) pagetable va) in
    if is_valid e then view_from m l (pte2pa e) va else 0

-- The address of that entry; the null pointer where a table is missing.
unfoldable pub slot_from : Memory → (level pagetable va : ℕ) → ℕ
slot_from m zero pagetable va = pte_at 0 pagetable va
slot_from m (suc l) pagetable va =
    let e = load64 m (pte_at (suc l) pagetable va) in
    if is_valid e then slot_from m l (pte2pa e) va else 0

abbrev pub view : Memory → (pagetable va : ℕ) → ℕ
view m pagetable va = view_from m 2 pagetable va

abbrev pub slot : Memory → (pagetable va : ℕ) → ℕ
slot m pagetable va = slot_from m 2 pagetable va
