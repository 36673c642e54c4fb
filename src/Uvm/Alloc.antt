-- ===== src/Uvm/Alloc.antt =====
-- `uvmalloc` of lab3/vm.c as a change of the address space.
use my_os_proj.Base.{
  ℕ, zero, suc, ◌+◌, ◌-◌, ◌*◌, ◌≤◌, ◌<◌, ◌≡◌, ◌≢◌, ◌⊎◌, inl, inr, refl, sym, ◌∙◌, ap, subst, arith,
  true, false, List, if◌then◌else◌, ltb,
}
use my_os_proj.Kernel.{Platform, Kernel, Run, ok, maxva, u64, and_then}
use my_os_proj.Pte.{is_valid}
use my_os_proj.Paging.{Roles, free, used, root, Inv, view}
use my_os_proj.Vm.{page_rounds}
use my_os_proj.Vm.Step.{Space}
use my_os_proj.Vm.Leaves.{Leaves, Unmapping}
use my_os_proj.Uvm.{uvmdealloc, uvmalloc, alloc_loop, user_perm}
use my_os_proj.Uvm.Dealloc.{uvmdealloc-Unmapping, pages_up, pgroundup-eq}
use my_os_proj.Uvm.Backed.{Backed, Backed-Space, Backed-none, Backed-suc}
use my_os_proj.Uvm.AllocPage.{alloc_page-round}
use my_os_proj.Uvm.Rollback.{Backed-Leaves, Backed-undo, Backed-unused}

-- `n` pages, cleared, for user code to read, write and execute.
abbrev pub Allocated :
    (P : Platform) (role : Roles) (k : Kernel) (pt a n : ℕ) (roles : Roles) (pages : List ℕ)
    (after : Kernel)
    → Type 0
Allocated P role k pt a n roles pages after =
    Backed P role k pt a n (λ i. user_perm) (λ i offset. 0) roles pages after

-- The outcome of an operation that gives back what it has taken when it fails: of the free pages,
-- some may be tables now, but none is a user page.
pub record Undone (P : Platform) (role : Roles) (k : Kernel) {A : Type 0} (value : A) (r : Run A)
    : Type 0 where
  pub after : Kernel
  pub roles : Roles
  pub pages : List ℕ
  pub run : r ≡ ok value after
  pub space : Space P role k (view k.mem) roles pages after
  pub unused : (x : ℕ) → role x ≡ free → roles x ≢ used

pub record Allocation (P : Platform) (role : Roles) (k : Kernel) (pt a n newsz : ℕ) (r : Run ℕ)
    : Type 0 where
  pub after : Kernel
  pub roles : Roles
  pub pages : List ℕ
  pub run : r ≡ ok newsz after
  pub allocated : Allocated P role k pt a n roles pages after

-- The pages are there, or nothing has changed.
abbrev pub AllocResult :
    (P : Platform) (role : Roles) (k : Kernel) (pt a n newsz : ℕ) (r : Run ℕ) → Type 0
AllocResult P role k pt a n newsz r = Undone P role k 0 r ⊎ Allocation P role k pt a n newsz r

module _ (P : Platform) where
  -- `uvmdealloc` between two sizes that are multiples of the page size.
  dealloc_pages :
      (pt q n : ℕ) (role : Roles) (ps : List ℕ) (k : Kernel)
      → Inv P role ps k
      → role pt ≡ root
      → 4096 * q + 4096 * n ≤ maxva
      → Leaves P role k.mem pt (4096 * q) n true
      → Unmapping P role ps k pt
          (4096 * q)
          n
          true
          (if ltb (4096 * q) (4096 * q + 4096 * n) then 4096 * q else 4096 * q + 4096 * n)
          (uvmdealloc P pt (4096 * q + 4096 * n) (4096 * q) k)
  dealloc_pages pt q n role ps k inv e low leaves =
      let start : pages_up (4096 * q) ≡ q = omega arith in
      let count : pages_up (4096 * q + 4096 * n) - pages_up (4096 * q) ≡ n = omega arith in
      let result = λ (x y : ℕ).
        Unmapping P role ps k pt (4096 * x) y true
          (if ltb (4096 * q) (4096 * q + 4096 * n) then 4096 * q else 4096 * q + 4096 * n)
          (uvmdealloc P pt (4096 * q + 4096 * n) (4096 * q) k) in
      let leaves' =
        subst
          (λ x.
            Leaves P role k.mem pt (4096 * x) (pages_up (4096 * q + 4096 * n) - pages_up (4096 * q))
              true)
          (sym start) (subst (λ y. Leaves P role k.mem pt (4096 * q) y true) (sym count) leaves) in
      subst (λ x. result x n) start
        (subst (λ y. result (pages_up (4096 * q)) y) count
          (uvmdealloc-Unmapping P pt (4096 * q + 4096 * n) (4096 * q) role ps k inv e low leaves'))

module _ {P : Platform} {role : Roles} {k : Kernel} (pt q newsz : ℕ) (is_root : role pt ≡ root)
    (low : newsz ≤ maxva) (pages_in_all : ℕ) (total : pages_up newsz ≡ q + pages_in_all)
    (clear : (va : ℕ)
      → 4096 * q ≤ va
      → va < 4096 * q + 4096 * pages_in_all
      → view k.mem pt va ≡ 0) where
  -- A failure after `n` pages.
  undo :
      {roles : Roles} {pages : List ℕ} {mid : Kernel} {r : Run ℕ} (n : ℕ)
      → n ≤ pages_in_all
      → Allocated P role k pt (4096 * q) n roles pages mid
      → r ≡ and_then (uvmdealloc P pt (4096 * q + 4096 * n) (4096 * q) mid) (λ sz. ok 0)
      → Undone P role k 0 r
  undo {roles} {pages} {mid} n some_pages b run =
      let u =
        dealloc_pages P pt q n roles pages mid b.space.inv (b.space.keeps pt (λ z. cc) ∙ is_root)
          (omega arith)
          (Backed-Leaves b is_root (omega arith) (λ i h. (omega arith, omega arith))) in
      record {
        after = u.after;
        roles = u.roles;
        pages = _;
        run = run ∙ rw u.run refl;
        unused =
            Backed-unused b is_root (omega arith) (λ i h. (omega arith, omega arith)) u.release;
        space =
            Backed-undo b is_root (omega arith) (λ i h. (omega arith, omega arith))
              (λ va lo hi. clear va lo (omega arith)) u.release;
      }

  unmapped :
      {roles : Roles} {pages : List ℕ} {mid : Kernel} (n : ℕ)
      → Allocated P role k pt (4096 * q) n roles pages mid
      → n < pages_in_all
      → is_valid (view mid.mem pt (4096 * q + 4096 * n)) ≡ false
  unmapped n b h =
      let a = 4096 * q + 4096 * n in
      let outside : ltb a (4096 * q + 4096 * n) ≡ false = ground arith in
      let same = b.space.views pt a is_root (omega arith) in
      let empty = clear a (omega arith) (omega arith) in
      ap (λ e. is_valid e) same ∙ ground (arith, outside, empty)

  alloc_loop-AllocResult :
      (m fuel n : ℕ) (roles : Roles) (pages : List ℕ) (mid : Kernel)
      → Allocated P role k pt (4096 * q) n roles pages mid
      → n + m ≡ pages_in_all
      → m < fuel
      → AllocResult P role k pt
          (4096 * q)
          pages_in_all
          newsz
          (alloc_loop P fuel pt (4096 * q + 4096 * n) (4096 * q) newsz mid)
  unfolding alloc_loop
  alloc_loop-AllocResult m zero n roles pages mid b sum enough = absurd (omega arith)
  alloc_loop-AllocResult zero (suc f) n roles pages mid b sum enough =
      let stop : ltb (4096 * q + 4096 * n) newsz ≡ false = ground arith in
      let all : n ≡ pages_in_all = omega arith in
      rw stop (
        inr (record {
          after = mid;
          roles = roles;
          pages = pages;
          run = refl;
          allocated = subst (λ x. Allocated P role k pt (4096 * q) x roles pages mid) all b;
        }))
  alloc_loop-AllocResult (suc m) (suc f) n roles pages mid b sum enough =
      let a = 4096 * q + 4096 * n in
      let go : ltb a newsz ≡ true = ground arith in
      let next : u64 (a + 4096) ≡ 4096 * q + 4096 * suc n = omega arith in
      let e = b.space.keeps pt (λ z. cc) ∙ is_root in
      rw (go, next)
        (elim (alloc_page-round pt a (4096 * q) e (omega arith) (omega arith)
          (unmapped n b (omega arith))
          (λ k'. alloc_loop P f pt (4096 * q + 4096 * suc n) (4096 * q) newsz k') pages
          b.space.inv) [
            | inl s ↦ inl (
                undo n (omega arith)
                  (Backed-Space pt (4096 * q) (λ i. user_perm) (λ i offset. 0) b s.space s.unused)
                  s.run)
            | inr s ↦
                subst (λ r. AllocResult P role k pt (4096 * q) pages_in_all newsz r) (sym s.run)
                  (alloc_loop-AllocResult m f (suc n) s.roles s.pages s.after
                    (Backed-suc pt (4096 * q) (λ i. user_perm) (λ i offset. 0) b s.fresh is_root
                      (omega arith) s.zeros)
                    (omega arith) (omega arith))
          ])

module _ {P : Platform} where
  -- From an old size to a larger one below `maxva`, where nothing is mapped between them,
  -- `uvmalloc` either returns the new size, and the pages that it takes beyond the old one are then
  -- backed by distinct frames that were free, cleared, for user code; or it returns 0, every
  -- address space and every user page is as before, and no page that was free is a user page now.
  -- Nothing else changes.
  pub uvmalloc-AllocResult :
      (pt oldsz newsz : ℕ) (role : Roles) (ps : List ℕ) (k : Kernel)
      → Inv P role ps k
      → role pt ≡ root
      → oldsz ≤ newsz
      → newsz ≤ maxva
      → ((va : ℕ) → 4096 * pages_up oldsz ≤ va → va < 4096 * pages_up newsz → view k.mem pt va ≡ 0)
      → AllocResult P role k pt
          (4096 * pages_up oldsz)
          (pages_up newsz - pages_up oldsz)
          newsz
          (uvmalloc P pt oldsz newsz k)
  unfolding uvmalloc
  uvmalloc-AllocResult pt oldsz newsz role ps k inv e grows low clear =
      let q = pages_up oldsz in
      let go : ltb newsz oldsz ≡ false = ground arith in
      let start : 4096 * q + 4096 * 0 ≡ 4096 * q = omega arith in
      rw (go, pgroundup-eq P oldsz (omega arith))
        (subst
          (λ x.
            AllocResult P role k pt (4096 * q) (pages_up newsz - q) newsz
              (alloc_loop P page_rounds pt x (4096 * q) newsz k))
          start
          (alloc_loop-AllocResult pt q newsz e low (pages_up newsz - q) (omega arith)
            (λ va lo hi. clear va lo (omega arith)) (pages_up newsz - q) page_rounds 0 role ps k
            (Backed-none pt (4096 * q) (λ i. user_perm) (λ i offset. 0) inv) (omega arith)
            (omega arith)))
