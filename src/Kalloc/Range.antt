-- ===== src/Kalloc/Range.antt =====
-- `freerange` and `kinit` of lab2/kalloc.c: which pages the list holds after the boot.
use my_os_proj.Base.{
  ℕ, zero, suc, ◌+◌, ◌-◌, ◌*◌, ◌/◌, ◌%◌, ◌≤◌, ◌<◌, ◌≡◌, ◌⊎◌, ◌↔◌, inr, true, false, List, [], ◌∷◌,
  ◌∙◌, arith, ◌∈◌, ◌∉◌, leb, length,
}
use my_os_proj.Kernel.{page_size, u64, Platform, Kernel, ok}
use my_os_proj.Kalloc.{freerange_loop, freerange, kinit}
use my_os_proj.Kalloc.FreeList.{IsFrame, FreeList, IsFrame-mem}
use my_os_proj.Kalloc.Laws.{freed, kfree-ok, freed-FreeList}

-- The list after the pages `p`, `p + 4096`, … have been pushed, `n` of them.
pub pushed : ℕ → ℕ → List ℕ → List ℕ
pushed zero p ps = ps
pushed (suc n) p ps = pushed n (p + 4096) (p ∷ ps)

pub length-pushed : (n p : ℕ) (ps : List ℕ) → length (pushed n p ps) ≡ n + length ps
unfolding pushed
length-pushed zero p ps = omega arith
length-pushed (suc n) p ps = omega (arith, length-pushed n (p + 4096) (p ∷ ps))

-- The pushed pages are the multiples of 4096 in the range.
pub mem-pushed :
    (n p q : ℕ) (ps : List ℕ)
    → p % 4096 ≡ 0
    → q % 4096 ≡ 0
    → (q ∈ pushed n p ps) ↔ ((q ∈ ps) ⊎ ((p ≤ q) × (q < p + 4096 * n)))
unfolding pushed
mem-pushed zero p q ps hp hq = ground arith
mem-pushed (suc n) p q ps hp hq =
    ground (arith, mem-pushed n (p + 4096) q (p ∷ ps) (omega arith) hq)

module _ (P : Platform) where
  BelowAll : List ℕ → ℕ → Type 0
  BelowAll ps p = (q : ℕ) → q ∈ ps → q < p

  freerange_loop_step :
      (f p e : ℕ) (k : Kernel)
      → IsFrame P p
      → p + 4096 ≤ e
      → e ≤ P.phystop
      → freerange_loop P (suc f) p e k ≡ freerange_loop P f (p + 4096) e (freed p k)
  unfolding freerange_loop
  freerange_loop_step f p e k frame fits hi =
      let sum : u64 (p + page_size) ≡ p + 4096 = omega (arith, P.phystop-le) in
      let go : leb (p + 4096) e ≡ true = ground arith in rw (sum, go, kfree-ok P k p frame)

  freerange_loop-FreeList :
      (n fuel p pa_end : ℕ) (k : Kernel) (ps : List ℕ)
      → FreeList P k ps
      → BelowAll ps p
      → p % 4096 ≡ 0
      → P.kernel_end ≤ p
      → pa_end ≤ P.phystop
      → p + 4096 * n ≤ pa_end
      → pa_end < p + 4096 * n + 4096
      → n < fuel
      → (k' : Kernel) × (freerange_loop P fuel p pa_end k ≡ ok tt k')
        × FreeList P k' (pushed n p ps)
  unfolding freerange_loop pushed BelowAll
  freerange_loop-FreeList n zero p e k ps c below al lo hi fits last fuel = absurd (omega arith)
  freerange_loop-FreeList zero (suc f) p e k ps c below al lo hi fits last fuel =
      let stop : leb (u64 (p + page_size)) e ≡ false = ground (arith, P.phystop-le) in
      (k, rw stop, c)
  freerange_loop-FreeList (suc n) (suc f) p e k ps c below al lo hi fits last fuel =
      let frame : IsFrame P p = record { aligned = al; above = lo; below = omega arith } in
      let out : p ∉ ps = ground (arith, below p) in
      let (k', run, c') =
        freerange_loop-FreeList n f (p + 4096) e (freed p k) (p ∷ ps)
          (freed-FreeList P k p ps c frame out) (λ q i. ground (arith, below q)) (omega arith)
          (omega arith) hi (omega arith) (omega arith) (omega arith) in
      (k', freerange_loop_step f p e k frame (omega arith) hi ∙ run, c')

  -- The number of whole pages from `pa_start`, rounded up, to `pa_end`.
  abbrev pub page_count : ℕ → ℕ → ℕ
  page_count pa_start pa_end = (pa_end - P.pgroundup pa_start) / 4096

  -- `kinit` with an empty list, as the cleared `kmem` is: afterwards the list holds the frames of
  -- RAM, every one of them, and no other page.
  pub kinit-FreeList :
      (fuel : ℕ) (k : Kernel)
      → k.freelist ≡ 0
      → page_count P.kernel_end P.phystop < fuel
      → (k' : Kernel) × (ps : List ℕ) × (kinit P fuel k ≡ ok tt k')
        × FreeList P k' ps
        × (length ps ≡ page_count P.kernel_end P.phystop)
        × ((p : ℕ) → (p ∈ ps) ↔ IsFrame P p)
  unfolding kinit freerange BelowAll
  kinit-FreeList fuel k empty enough =
      let n = page_count P.kernel_end P.phystop in
      let p = P.pgroundup P.kernel_end in
      let (k', run, c) =
        freerange_loop-FreeList n fuel p P.phystop k [] empty (λ q i. cc)
          (omega (arith, P.pgroundup_lem P.kernel_end))
          (omega (arith, P.pgroundup_lem P.kernel_end, P.phystop-le, P.end-le-phystop))
          (omega arith) (omega (arith, start)) (omega (arith, start)) enough in
      (
        k',
        pushed n p [],
        run,
        c,
        omega (arith, length-pushed n p []),
        λ q. (
          IsFrame-mem P k'.mem k'.freelist (pushed n p []) q c,
          λ f. (mem-pushed n p q [] (omega (arith, start)) f.aligned).1 (
              inr (omega (arith, start, f.above, f.below), omega (arith, start, f.above, f.below))),
        ),
      )
    where
      start :
          (P.kernel_end ≤ P.pgroundup P.kernel_end)
          × (P.pgroundup P.kernel_end < P.kernel_end + 4096)
          × (P.pgroundup P.kernel_end ≤ P.phystop)
          × (P.pgroundup P.kernel_end % 4096 ≡ 0)
      start =
          omega
            (arith, P.pgroundup_lem P.kernel_end, P.phystop-le, P.end-le-phystop, P.phystop_aligned)
