-- ===== src/Kalloc/Laws.antt =====
-- What `kfree` and `kalloc` do to the free list and to the contents of memory.
use my_os_proj.Base.{
  ℕ, ◌^◌, ◌<◌, ◌≡◌, ◌≢◌, inl, inr, false, List, [], ◌∷◌, refl, sym, ◌∙◌, subst, arith, ◌∉◌,
  Bool-cases,
}
use my_os_proj.Memory.{Memory, load64, store64, memset}
use my_os_proj.Memory.Words.{
  load64-store64_self, SameOutside, memset-SameOutside, store64-SameOutside,
}
use my_os_proj.Kernel.{page_size, Platform, Kernel, ok, panic, kfree_panic}
use my_os_proj.Kalloc.{bad_page, kfree, kalloc}
use my_os_proj.Kalloc.FreeList.{IsFrame, Chain, FreeList, Chain-SameOutside}

-- The states after `kfree p` and after `kalloc` has taken `p`.
abbrev pub freed : ℕ → Kernel → Kernel
freed p k = record { mem = store64 (memset k.mem p 1 page_size) p k.freelist; freelist = p }

abbrev pub taken : ℕ → Kernel → Kernel
taken p k = record { mem = memset k.mem p 5 page_size; freelist = load64 k.mem p }

pub freed-SameOutside : (k : Kernel) (p : ℕ) → SameOutside p k.mem (freed p k).mem
freed-SameOutside k p x out =
    store64-SameOutside (memset k.mem p 1 page_size) p p k.freelist (omega arith) (omega arith) x
      out
    ∙ memset-SameOutside k.mem p 1 x out

module _ (P : Platform) where
  bad_page-IsFrame : (p : ℕ) → IsFrame P p → bad_page P p ≡ false
  bad_page-IsFrame p f = ground arith

  pub kfree-ok : (k : Kernel) (p : ℕ) → IsFrame P p → kfree P p k ≡ ok tt (freed p k)
  unfolding kfree
  kfree-ok k p f = rw (bad_page-IsFrame p f)

  pub kfree-panic : (k : Kernel) (p : ℕ) → ¬ IsFrame P p → kfree P p k ≡ panic kfree_panic
  unfolding kfree
  kfree-panic k p bad = elim (Bool-cases (bad_page P p)) [
    | inl e ↦ rw e
    | inr e ↦
        absurd (bad (record { aligned = ground arith; above = ground arith; below = ground arith }))
  ]

  -- The head of the list fits a word.
  head-lt : (m : Memory) (r : ℕ) (ps : List ℕ) → Chain P m r ps → r < 2 ^ 64
  head-lt m r [] c = omega arith
  head-lt m r (p ∷ ps) (e, f, _, _) = omega arith

  pub freed-FreeList :
      (k : Kernel) (p : ℕ) (ps : List ℕ)
      → FreeList P k ps
      → IsFrame P p
      → p ∉ ps
      → FreeList P (freed p k) (p ∷ ps)
  freed-FreeList k p ps c f out =
      (refl, f, out, subst (λ q. Chain P (freed p k).mem q ps) (sym link) rest)
    where
      link : load64 (freed p k).mem p ≡ k.freelist
      link = load64-store64_self _ p k.freelist (head-lt k.mem k.freelist ps c)

      rest : Chain P (freed p k).mem k.freelist ps
      rest =
          Chain-SameOutside P k.mem (freed p k).mem k.freelist ps p (freed-SameOutside k p) f out c

  pub taken-FreeList :
      (k : Kernel) (p : ℕ) (ps : List ℕ) → FreeList P k (p ∷ ps) → FreeList P (taken p k) ps
  taken-FreeList k p ps (e, f, out, c) =
      Chain-SameOutside P k.mem (taken p k).mem (load64 k.mem p) ps p (memset-SameOutside k.mem p 5)
        f out c

-- `kalloc` takes the head of a list that is not empty.
pub kalloc-cons : (k : Kernel) (p : ℕ) → k.freelist ≡ p → p ≢ 0 → kalloc k ≡ ok p (taken p k)
unfolding kalloc
kalloc-cons k p e ne = ground arith

pub kalloc-nil : (k : Kernel) → k.freelist ≡ 0 → kalloc k ≡ ok 0 k
unfolding kalloc
kalloc-nil k e = ground arith
