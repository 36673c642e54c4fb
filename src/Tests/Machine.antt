-- ===== src/Tests/Machine.antt =====
-- A small machine for the tests: ten pages of RAM, of which one is a root, two map the virtual
-- page 1 below it, one is that page, four are free, one holds a buffer of the kernel, and the last
-- is the root of an empty address space.
use my_os_proj.Base.{
  ℕ, suc, ◌+◌, ◌-◌, ◌*◌, ◌/◌, ◌%◌, ◌^◌, ◌<◌, ◌≡◌, inl, inr, refl, ◌∙◌, arith, true, some, List, [],
  ◌∷◌, if◌then◌else◌, ◌==◌, ◌||◌, has, ==_iff, Bool-cases,
}
use my_os_proj.Memory.{Memory, load64, store64}
use my_os_proj.Memory.Words.{load64-store64_self, load64-store64_ne}
use my_os_proj.Kernel.{trampoline_va, Platform, Kernel}
use my_os_proj.Kalloc.FreeList.{IsFrame, FreeList}
use my_os_proj.Pte.{pte2pa, is_valid}
use my_os_proj.Paging.{Roles, free, used, root, table, level_of, Inv}

abbrev pub small : Platform
small = record {
  kernel_end = 0x8000_0000;
  phystop = 0x8000_a000;
  etext = 0x8000_0000;
  trampoline = 0x8000_0000;
  kstack = λ i. trampoline_va - (i + 1) * 8192;
  forkret = 0x8000_0000;
  xstate_at = λ i. 0x7000_0000 + 400 * i;
  pgroundup = λ a. (a + 4095) % 2 ^ 64 / 4096 * 4096;
  pgrounddown = λ a. a / 4096 * 4096;
  kernbase-le-end = omega arith;
  end-le-phystop = omega arith;
  phystop-le = omega arith;
  phystop_aligned = refl;
  pgroundup_lem = λ a. refl;
  pgrounddown_lem = λ a. refl;
}

-- Memory with the words of the list, and 0 elsewhere.
abbrev pub words : List (ℕ × ℕ) → Memory
words [] = λ _. 0
words ((a, v) ∷ ws) = store64 (words ws) a v

abbrev pub find : List (ℕ × ℕ) → ℕ → ℕ
find [] a = 0
find ((b, v) ∷ ws) a = if b == a then v else find ws a

abbrev AreWords : List (ℕ × ℕ) → Type 0
AreWords [] = Unit
AreWords ((a, v) ∷ ws) = (a % 8 ≡ 0) × (v < 2 ^ 64) × AreWords ws

load64-words :
    (ws : List (ℕ × ℕ)) (a : ℕ) → AreWords ws → a % 8 ≡ 0 → load64 (words ws) a ≡ find ws a
unfolding load64
load64-words [] a h al = refl
load64-words ((b, v) ∷ ws) a (hb, hv, h) al = elim (Bool-cases (b == a)) [
  | inl same ↦
      let e : b ≡ a = (==_iff b a).0 same in rw (same, e) (load64-store64_self (words ws) a v hv)
  | inr other ↦
      rw other (load64-store64_ne (words ws) b a v (ground arith) ∙ load64-words ws a h al)
]

abbrev pub root_page : ℕ
root_page = 0x8000_0000

abbrev pub child_root : ℕ
child_root = 0x8000_9000

abbrev pub user_frame : ℕ
user_frame = 0x8000_3000

abbrev pub free_pages : List ℕ
free_pages = 0x8000_4000 ∷ 0x8000_5000 ∷ 0x8000_6000 ∷ 0x8000_7000 ∷ []

-- The branch entries in their values: PA2PTE(0x80001000) | PTE_V and PA2PTE(0x80002000) | PTE_V,
-- and the leaf PA2PTE(0x80003000) | PTE_R | PTE_W | PTE_U | PTE_V.
abbrev pub contents : List (ℕ × ℕ)
contents =
    (0x8000_0000, 0x2000_0401)
    ∷ (0x8000_1000, 0x2000_0801)
    ∷ (0x8000_2008, 0x2000_0c17)
    ∷ (0x8000_4000, 0x8000_5000)
    ∷ (0x8000_5000, 0x8000_6000)
    ∷ (0x8000_6000, 0x8000_7000)
    ∷ []

abbrev pub machine : Kernel
machine = record { mem = words contents; freelist = 0x8000_4000 }

abbrev pub roles : Roles
roles p =
    if has p free_pages
    then free
    else if (p == 0x8000_0000) || (p == 0x8000_9000)
    then root
    else if p == 0x8000_1000
    then table 1 0x8000_0000 0
    else if p == 0x8000_2000
    then table 0 0x8000_1000 0
    else used

pub machine_word : (a : ℕ) → a % 8 ≡ 0 → load64 (words contents) a ≡ find contents a
machine_word a al = load64-words contents a (omega arith) al

machine-pool : FreeList small machine free_pages
unfolding load64 store64
machine-pool = (
  refl,
  omega arith,
  refl,
  (refl, omega arith, refl, (refl, omega arith, refl, (refl, omega arith, refl, refl))),
)

machine-frames : (p l : ℕ) → level_of (roles p) ≡ some l → IsFrame small p
machine-frames p l e = ground arith

links_value :
    (p l i w : ℕ)
    → w ≡ find contents (p + 8 * i)
    → level_of (roles p) ≡ some (suc l)
    → i < 512
    → is_valid w ≡ true
    → roles (pte2pa w) ≡ table l p i
unfolding pte2pa
links_value p l i w here e h v = ground arith

machine-links :
    (p l i : ℕ)
    → level_of (roles p) ≡ some (suc l)
    → i < 512
    → is_valid (load64 (words contents) (p + 8 * i)) ≡ true
    → roles (pte2pa (load64 (words contents) (p + 8 * i))) ≡ table l p i
machine-links p l i e h v =
    let f = machine-frames p (suc l) e in
    links_value p l i (load64 (words contents) (p + 8 * i)) (machine_word (p + 8 * i) (omega arith))
      e h v

pub machine-Inv : Inv small roles free_pages machine
machine-Inv = record {
  pool = machine-pool;
  free_listed = λ p e. ground arith;
  listed_free = λ p e. ground arith;
  frames = machine-frames;
  links = machine-links;
}
