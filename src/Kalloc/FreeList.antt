-- ===== src/Kalloc/FreeList.antt =====
-- What the free list in memory stands for: the list of its pages.
use my_os_proj.Base.{
  ℕ, ◌+◌, ◌%◌, ◌≤◌, ◌<◌, ◌≡◌, ◌≢◌, ◌⊎◌, inl, inr, List, [], ◌∷◌, sym, subst, arith, ◌∈◌, ◌∉◌, ◌==◌,
  ==_iff, Bool-cases, ap, has,
}
use my_os_proj.Memory.{Memory, load64}
use my_os_proj.Memory.Words.{SameOutside, load64-SameOutside}
use my_os_proj.Kernel.{Platform, Kernel}

module _ (P : Platform) where
  -- A page of RAM behind the kernel, as `kfree` asks for.
  pub record IsFrame (p : ℕ) : Type 0 where
    pub aligned : p % 4096 ≡ 0
    pub above : P.kernel_end ≤ p
    pub below : p < P.phystop

  -- From `r` the links lead through the distinct pages of the list to the null pointer.
  abbrev pub Chain : Memory → ℕ → List ℕ → Type 0
  Chain m r [] = r ≡ 0
  Chain m r (p ∷ ps) = (r ≡ p) × IsFrame p × (p ∉ ps) × Chain m (load64 m p) ps

  abbrev pub FreeList : Kernel → List ℕ → Type 0
  FreeList k ps = Chain k.mem k.freelist ps

  -- A chain survives a change of memory that spares the first words of its pages.
  pub Chain-frame :
      (m g : Memory) (r : ℕ) (ps : List ℕ)
      → ((p : ℕ) → p ∈ ps → load64 g p ≡ load64 m p)
      → Chain m r ps
      → Chain g r ps
  Chain-frame m g r [] same c = c
  Chain-frame m g r (p ∷ ps) same (e, f, out, c) =
      let rest = Chain-frame m g (load64 m p) ps (λ q i. same q (ground arith)) c in
      (e, f, out, subst (λ q. Chain g q ps) (sym (same p (ground arith))) rest)

  -- The pages of a chain are frames.
  pub IsFrame-mem : (m : Memory) (r : ℕ) (ps : List ℕ) (p : ℕ) → Chain m r ps → p ∈ ps → IsFrame p
  IsFrame-mem m r [] p c i = cc
  IsFrame-mem m r (q ∷ ps) p (e, f, out, c) i = elim (Bool-cases (p == q)) [
    | inl here ↦ let same : p ≡ q = (==_iff p q).0 here in subst IsFrame (sym same) f
    | inr there ↦ IsFrame-mem m (load64 m q) ps p c (ground arith)
  ]

  -- Two frames are the same page or do not overlap.
  pub frames_apart : (p q : ℕ) → IsFrame p → IsFrame q → p ≢ q → (p + 4096 ≤ q) ⊎ (q + 4096 ≤ p)
  frames_apart p q f g ne = omega arith

  pub ne_of_mem : (ps : List ℕ) (p q : ℕ) → p ∉ ps → q ∈ ps → q ≢ p
  ne_of_mem ps p q out i e = cc (ap (λ x. has x ps) e)

  -- A chain survives a change inside a frame that is not on it.
  pub Chain-SameOutside :
      (m g : Memory) (r : ℕ) (ps : List ℕ) (p : ℕ)
      → SameOutside p m g
      → IsFrame p
      → p ∉ ps
      → Chain m r ps
      → Chain g r ps
  Chain-SameOutside m g r ps p same f out c = Chain-frame m g r ps spared c
    where
      spared : (q : ℕ) → q ∈ ps → load64 g q ≡ load64 m q
      spared q i =
          let f' = IsFrame-mem m r ps q c i in
          let ne = ne_of_mem ps p q out i in load64-SameOutside m g p q same (omega arith)
