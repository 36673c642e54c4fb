-- ===== src/Kalloc/Pool.antt =====
-- The contract of lab2/kalloc.c: a stack of free pages, of which `kalloc` takes the top and on
-- which `kfree` puts a page.
use my_os_proj.Base.{ℕ, ◌+◌, ◌≤◌, ◌<◌, ◌≡◌, ◌↔◌, List, [], ◌∷◌, refl, arith, ◌∉◌}
use my_os_proj.Memory.{memset}
use my_os_proj.Memory.Words.{SameOutside, memset-SameOutside}
use my_os_proj.Kernel.{page_size, Platform, Kernel, Run, ok, panic, kfree_panic, ◌>>◌}
use my_os_proj.Kalloc.{kfree, kalloc}
use my_os_proj.Kalloc.FreeList.{IsFrame, FreeList}
use my_os_proj.Kalloc.Laws.{
  freed, taken, kfree-ok, kfree-panic, freed-FreeList, freed-SameOutside, taken-FreeList,
  kalloc-cons, kalloc-nil,
}

module _ (P : Platform) where
  -- What `kalloc` does to the stack `ps`.
  abbrev pub Popped : Kernel → List ℕ → Run ℕ → Type 0
  Popped k [] r = r ≡ ok 0 k
  Popped k (p ∷ ps) r =
      (k' : Kernel) × (r ≡ ok p k')
      × FreeList P k' ps
      × IsFrame P p
      × (p ∉ ps)
      × ((x : ℕ) → p ≤ x → x < p + page_size → k'.mem x ≡ 5)
      × SameOutside p k.mem k'.mem

  memset_filled :
      (k : Kernel) (p x : ℕ) → p ≤ x → x < p + page_size → memset k.mem p 5 page_size x ≡ 5
  unfolding memset
  memset_filled k p x lo hi = ground arith

  -- On an empty stack `kalloc` returns the null pointer and changes nothing; otherwise it returns
  -- the top page, which is a frame of RAM and not on the rest of the stack, leaves that rest,
  -- fills the page with 5 and changes no other byte.
  pub kalloc-Popped : (k : Kernel) (ps : List ℕ) → FreeList P k ps → Popped k ps (kalloc k)
  kalloc-Popped k [] c = kalloc-nil k c
  kalloc-Popped k (p ∷ ps) (e, f, out, c) = (
    taken p k,
    kalloc-cons k p e (omega (arith, P.kernbase-le-end, f.above)),
    taken-FreeList P k p ps (e, f, out, c),
    f,
    out,
    memset_filled k p,
    memset-SameOutside k.mem p 5,
  )

  -- `kfree` of a frame that is not on the stack pushes it, and changes memory in that page only.
  pub kfree-push :
      (k : Kernel) (ps : List ℕ) (p : ℕ)
      → FreeList P k ps
      → IsFrame P p
      → p ∉ ps
      → (k' : Kernel) × (kfree P p k ≡ ok tt k')
        × FreeList P k' (p ∷ ps)
        × SameOutside p k.mem k'.mem
  kfree-push k ps p c f out =
      (freed p k, kfree-ok P k p f, freed-FreeList P k p ps c f out, freed-SameOutside k p)

  -- `kfree` panics exactly on the addresses that are no frames of RAM.
  pub kfree-panic_iff : (k : Kernel) (p : ℕ) → (kfree P p k ≡ panic kfree_panic) ↔ (¬ IsFrame P p)
  kfree-panic_iff k p = (λ e f. cc (kfree-ok P k p f), kfree-panic P k p)

  -- A page that has been freed is the next that is allocated, and the stack is as before.
  pub kalloc-kfree :
      (k : Kernel) (ps : List ℕ) (p : ℕ)
      → FreeList P k ps
      → IsFrame P p
      → p ∉ ps
      → (k' : Kernel) × ((kfree P p >> kalloc) k ≡ ok p k') × FreeList P k' ps
  kalloc-kfree k ps p c f out = (
    taken p (freed p k),
    rw (kfree-ok P k p f)
        (kalloc-cons (freed p k) p refl (omega (arith, P.kernbase-le-end, f.above))),
    taken-FreeList P (freed p k) p ps (freed-FreeList P k p ps c f out),
  )
