-- ===== src/Uvm/Halts.antt =====
-- The loops of `uvmalloc` and `uvmcopy` end, and so do the functions around them.
use my_os_proj.Base.{
  ℕ, zero, suc, ◌+◌, ◌*◌, ◌/◌, ◌≡◌, ◌≤◌, ◌<◌, ◌⊎◌, inl, inr, arith, Bool, true, false, not, ◌==◌,
  leb, ltb, if◌then◌else◌, Bool-cases,
}
use my_os_proj.Memory.{load64}
use my_os_proj.Kernel.{Platform, Kernel, Cmd, pure, ◌>>=◌, ◌>>◌, maxva, u64, page_size}
use my_os_proj.Kalloc.{kfree}
use my_os_proj.Pte.{is_valid, pte_flags}
use my_os_proj.Walk.Lookup.{walk_beyond}
use my_os_proj.Walk.Halts.{
  Halts, Halting, if-Halts, Halting-bind, Halting-then, Halting-if, Halting-pure, Halting-fail,
  Halting-update, Halting-kalloc, Halting-kfree, Halting-walk,
}
use my_os_proj.Vm.{mappages, uvmunmap}
use my_os_proj.Vm.Halts.{Halting-mappages, Halting-uvmunmap, mappages_beyond}
use my_os_proj.Copy.{copyout, copyin, copyinstr}
use my_os_proj.Copy.Halts.{Halting-copyout, Halting-copyin, Halting-copyinstr}
use my_os_proj.Uvm.{
  uvmdealloc, uvmalloc, alloc_page, alloc_loop, copy_page, copy_loop, uvmcopy, user_perm,
}

module _ (P : Platform) where
  pub Halting-uvmdealloc : (pt oldsz newsz : ℕ) → Halting (uvmdealloc P pt oldsz newsz)
  unfolding uvmdealloc
  Halting-uvmdealloc pt oldsz newsz = Halting-if (leb oldsz newsz) Halting-pure (
      Halting-if (ltb (P.pgroundup newsz) (P.pgroundup oldsz))
        (Halting-then (Halting-uvmunmap P pt _ _ true) Halting-pure) Halting-pure)

  -- Beyond `maxva` the rest of the loop is not reached.
  alloc_page-Halting :
      (pt a oldsz : ℕ) (next : Cmd ℕ)
      → (a < maxva → Halting next)
      → Halting (alloc_page P pt a oldsz next)
  unfolding alloc_page
  alloc_page-Halting pt a oldsz next rest = Halting-bind Halting-kalloc (λ mem.
      Halting-if (mem == 0) (Halting-bind (Halting-uvmdealloc pt a oldsz) (λ sz. Halting-pure))
        (Halting-then (Halting-update _) (entered mem (Bool-cases (ltb a maxva)))))
    where
      entered :
          (mem : ℕ)
          → (ltb a maxva ≡ true) ⊎ (ltb a maxva ≡ false)
          → Halting (do
            done ← mappages P pt a page_size mem user_perm
            if not done then (do kfree P mem; sz ← uvmdealloc P pt a oldsz; pure 0) else next)
      entered mem (inl low) = Halting-bind (Halting-mappages P pt a 4096 mem user_perm) (λ done.
          Halting-if (not done)
            (Halting-then (Halting-kfree P mem)
              (Halting-bind (Halting-uvmdealloc pt a oldsz) (λ sz. Halting-pure)))
            (rest (ground arith)))
      entered mem (inr high) = record {
        run = λ k. rw (mappages_beyond P pt a mem user_perm k (ground arith), Halts) tt;
      }

  alloc_loop-Halts :
      (f pt a oldsz newsz : ℕ) (k : Kernel)
      → maxva ≤ a + 4096 * f
      → Halts (alloc_loop P (suc f) pt a oldsz newsz k)
  unfolding alloc_loop
  alloc_loop-Halts zero pt a oldsz newsz k enough =
      if-Halts (ltb a newsz) _ _
        ((alloc_page-Halting pt a oldsz _ (λ low. absurd (omega arith))).run k) tt
  alloc_loop-Halts (suc f) pt a oldsz newsz k enough =
      if-Halts (ltb a newsz) _ _
        ((alloc_page-Halting pt a oldsz _ (λ low. record {
          run = λ k'. alloc_loop-Halts f pt (u64 (a + 4096)) oldsz newsz k' (omega arith);
        })).run
          k)
        tt

  pub Halting-uvmalloc : (pt oldsz newsz : ℕ) → Halting (uvmalloc P pt oldsz newsz)
  unfolding uvmalloc
  Halting-uvmalloc pt oldsz newsz = Halting-if (ltb newsz oldsz) Halting-pure (record {
    run = λ k.
        alloc_loop-Halts 0x400_0001 pt (P.pgroundup oldsz) (P.pgroundup oldsz) newsz k
          (omega arith);
  })

  copy_page-Halting : (old new i : ℕ) → Halting (copy_page P old new i)
  unfolding copy_page
  copy_page-Halting old new i = Halting-bind (Halting-walk old i false) (λ pte.
      Halting-if (pte == 0) Halting-fail (record {
        run = λ k. if-Halts (not (is_valid (load64 k.mem pte))) _ _ tt (
            (Halting-bind Halting-kalloc (λ mem. Halting-if (mem == 0) Halting-pure (
                Halting-then (Halting-update _) (
                  Halting-bind (Halting-mappages P new i 4096 mem (pte_flags (load64 k.mem pte)))
                    (λ done.
                      Halting-if (not done) (Halting-then (Halting-kfree P mem) Halting-pure)
                        Halting-pure))))).run
              k);
      }))

  copy_beyond :
      (old new i : ℕ) (rest : Bool → Cmd Bool) (k : Kernel)
      → maxva ≤ i
      → Halts ((copy_page P old new i >>= rest) k)
  unfolding copy_page
  copy_beyond old new i rest k high = rw (walk_beyond old i false k high, Halts) tt

  copy_loop-Halts :
      (f old new i sz : ℕ) (k : Kernel)
      → maxva ≤ i + 4096 * f
      → Halts (copy_loop P (suc f) old new i sz k)
  unfolding copy_loop
  copy_loop-Halts zero old new i sz k enough =
      if-Halts (ltb i sz) _ _ (copy_beyond old new i _ k (omega arith)) tt
  copy_loop-Halts (suc f) old new i sz k enough = elim (Bool-cases (ltb i maxva)) [
    | inr high ↦ if-Halts (ltb i sz) _ _ (copy_beyond old new i _ k (ground arith)) tt
    | inl low ↦
        if-Halts (ltb i sz) _ _
          ((Halting-bind (copy_page-Halting old new i) (λ done.
              Halting-if done
                (record {
                  run = λ k'. copy_loop-Halts f old new (u64 (i + 4096)) sz k' (ground arith);
                })
                (Halting-then (Halting-uvmunmap P new 0 (i / 4096) true) Halting-pure))).run
            k)
          tt
  ]

  pub Halting-uvmcopy : (old new sz : ℕ) → Halting (uvmcopy P old new sz)
  unfolding uvmcopy
  Halting-uvmcopy old new sz = record {
    run = λ k. copy_loop-Halts 0x400_0001 old new 0 sz k (omega arith);
  }

  -- A run of each function with loops over pages or bytes.
  abbrev pub AllHalt : (pt new a b c d : ℕ) (do_free : Bool) (k : Kernel) → Type 0
  AllHalt pt new a b c d do_free k =
      Halts (mappages P pt a b c d k)
      × Halts (uvmunmap P pt a b do_free k)
      × Halts (uvmalloc P pt a b k)
      × Halts (uvmdealloc P pt a b k)
      × Halts (uvmcopy P pt new a k)
      × Halts (copyout P pt a b c k)
      × Halts (copyin P pt a b c k)
      × Halts (copyinstr P pt a b c k)

  -- In every state and for all arguments, whatever the page tables hold, `mappages`, `uvmunmap`,
  -- `uvmalloc`, `uvmdealloc`, `uvmcopy`, `copyout`, `copyin` and `copyinstr` return or panic: none
  -- of their loops needs more than the rounds that it is given.
  pub memory-AllHalt :
      (pt new a b c d : ℕ) (do_free : Bool) (k : Kernel) → AllHalt pt new a b c d do_free k
  memory-AllHalt pt new a b c d do_free k = (
    (Halting-mappages P pt a b c d).run k,
    (Halting-uvmunmap P pt a b do_free).run k,
    (Halting-uvmalloc pt a b).run k,
    (Halting-uvmdealloc pt a b).run k,
    (Halting-uvmcopy pt new a).run k,
    (Halting-copyout P pt a b c).run k,
    (Halting-copyin P pt a b c).run k,
    (Halting-copyinstr P pt a b c).run k,
  )
