-- ===== src/Vm/Unmap.antt =====
-- `uvmunmap`: the loop over the pages of a range.
use my_os_proj.Base.{
  ℕ, zero, suc, ◌+◌, ◌*◌, ◌%◌, ◌<◌, ◌≤◌, ◌≡◌, refl, subst, arith, Bool, true, List, ltb, ◌==◌,
}
use my_os_proj.Kernel.{Platform, Kernel, Run, ok, maxva, u64}
use my_os_proj.Paging.{Roles, root, Inv}
use my_os_proj.Vm.{unmap_page, unmap_loop, uvmunmap, page_rounds}
use my_os_proj.Vm.Leaves.{Leaves, Unmapping, first-First, rest-Leaves, Unmapping-cons}

module _ (P : Platform) (pt : ℕ) (do_free : Bool) where
  -- Nothing is unmapped.
  pub Unmapping-none :
      {A : Type 0} {value : A} {r : Run A} (a : ℕ) (role : Roles) (ps : List ℕ) (k : Kernel)
      → Inv P role ps k
      → r ≡ ok value k
      → Unmapping P role ps k pt a 0 do_free value r
  Unmapping-none a role ps k inv run = record {
    after = k;
    roles = role;
    run = run;
    release = record {
      inv = inv;
      keeps = λ x out. refl;
      roots = λ q e. e;
      bytes = λ p x e out b lo hi. refl;
      views = λ q va e low. ground arith;
    };
  }

  -- Then a value is returned.
  pub Unmapping-then :
      {A : Type 0} {value : A} {r : Run (Unit {0})} {r' : Run A} {a n : ℕ} {role : Roles}
      {ps : List ℕ} {k : Kernel}
      → ((after : Kernel) → r ≡ ok tt after → r' ≡ ok value after)
      → Unmapping P role ps k pt a n do_free tt r
      → Unmapping P role ps k pt a n do_free value r'
  Unmapping-then last u = record {
    after = u.after;
    roles = u.roles;
    run = last u.after u.run;
    release = u.release;
  }

  unmap_loop-done : (f a : ℕ) (k : Kernel) → unmap_loop P (suc f) pt a a do_free k ≡ ok tt k
  unfolding unmap_loop
  unmap_loop-done f a k = ground arith

  unmap_loop-more :
      (fuel a end_va : ℕ) (k after : Kernel)
      → a < end_va
      → a < maxva
      → unmap_page P pt a do_free k ≡ ok tt after
      → unmap_loop P (suc fuel) pt a end_va do_free k
        ≡ unmap_loop P fuel pt (a + 4096) end_va do_free after
  unfolding unmap_loop
  unmap_loop-more fuel a end_va k after more low run =
      let go : ltb a end_va ≡ true = ground arith in
      let sum : u64 (a + 4096) ≡ a + 4096 = omega arith in rw (go, run, sum)

  unmap_loop-Unmapping :
      (n fuel a end_va : ℕ) (role : Roles) (ps : List ℕ) (k : Kernel)
      → Inv P role ps k
      → role pt ≡ root
      → a % 4096 ≡ 0
      → a + 4096 * n ≡ end_va
      → end_va ≤ maxva
      → Leaves P role k.mem pt a n do_free
      → n < fuel
      → Unmapping P role ps k pt a n do_free tt (unmap_loop P fuel pt a end_va do_free k)
  unmap_loop-Unmapping n zero a end_va role ps k inv e al at_end low leaves enough =
      absurd (omega arith)
  unmap_loop-Unmapping zero (suc f) a end_va role ps k inv e al at_end low leaves enough =
      let here : a ≡ end_va = omega arith in
      subst (λ x. Unmapping P role ps k pt a 0 do_free tt (unmap_loop P (suc f) pt a x do_free k))
        here (Unmapping-none a role ps k inv (unmap_loop-done f a k))
  unmap_loop-Unmapping (suc n) (suc f) a end_va role ps k inv e al at_end low leaves enough =
      let s = first-First inv pt a n do_free e al (omega arith) leaves in
      Unmapping-cons inv pt a n do_free e al (omega arith) leaves s
        (unmap_loop-more f a end_va k s.after (omega arith) (omega arith) s.run)
        (unmap_loop-Unmapping n f (a + 4096) end_va s.roles _ s.after s.release.inv
          (s.release.roots pt e) (omega arith) (omega arith) low
          (rest-Leaves inv pt a n do_free e al (omega arith) leaves s) (omega arith))

  -- On an aligned range of `n` pages of a root that lies below `maxva`, each of them mapped by a
  -- leaf entry, `uvmunmap` ends: it clears these entries and changes no other entry of any address
  -- space. With `do_free`, where the entries lead to distinct user pages, it pushes these pages on
  -- the free list, in order; without, the free list stays. The user pages that are not freed keep
  -- their bytes.
  pub uvmunmap-Unmapping :
      (va n : ℕ) (role : Roles) (ps : List ℕ) (k : Kernel)
      → Inv P role ps k
      → role pt ≡ root
      → va % 4096 ≡ 0
      → va + 4096 * n ≤ maxva
      → Leaves P role k.mem pt va n do_free
      → Unmapping P role ps k pt va n do_free tt (uvmunmap P pt va n do_free k)
  unfolding uvmunmap
  uvmunmap-Unmapping va n role ps k inv e al low leaves =
      let aligned : (va % 4096 == 0) ≡ true = ground arith in
      let sum : u64 (va + n * 4096) ≡ va + 4096 * n = omega arith in
      rw (aligned, sum)
        (unmap_loop-Unmapping n page_rounds va (va + 4096 * n) role ps k inv e al refl low leaves
          (omega arith))
