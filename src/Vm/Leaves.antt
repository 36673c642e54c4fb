-- ===== src/Vm/Leaves.antt =====
-- The address space that `uvmunmap` leaves, and how the pages of a range add up.
use my_os_proj.Base.{
  ℕ, zero, suc, ◌+◌, ◌*◌, ◌/◌, ◌%◌, ◌<◌, ◌≤◌, ◌≡◌, ◌≢◌, inl, inr, refl, sym, ◌∙◌, ap, subst, arith,
  Bool, true, false, List, ◌∷◌, ◌∉◌, has, if◌then◌else◌, ◌&&◌, leb, ltb, ◌==◌, Bool-cases,
}
use my_os_proj.Memory.{Memory}
use my_os_proj.Kernel.{Platform, Kernel, Run, ok, maxva}
use my_os_proj.Kalloc.FreeList.{IsFrame}
use my_os_proj.Pte.{pte2pa}
use my_os_proj.Paging.{Roles, used, root, Inv, view}
use my_os_proj.Vm.{unmap_page}
use my_os_proj.Vm.Step.{with_page}
use my_os_proj.Vm.Release.{Release, is_leaf, unmap_page-keep, unmap_page-free}

-- The address spaces without `n` pages from `a` below the root `pt`.
abbrev pub without : (m : Memory) (pt a n : ℕ) → (q va : ℕ) → ℕ
without m pt a n q va = if (q == pt) && (leb a va && ltb va (a + 4096 * n)) then 0 else view m q va

-- The list of the free pages after `n` pages from `a` have been unmapped: with `do_free` they are
-- pushed on it, in order.
abbrev pub released : (m : Memory) (pt a n : ℕ) → Bool → List ℕ → List ℕ
released m pt a zero do_free ps = ps
released m pt a (suc n) do_free ps =
    released m pt (a + 4096) n do_free (if do_free then pte2pa (view m pt a) ∷ ps else ps)

-- Every page of the range has a leaf entry; for `do_free` these lead to distinct pages in use.
pub record Leaves (P : Platform) (role : Roles) (m : Memory) (pt a n : ℕ) (do_free : Bool)
    : Type 0 where
  pub mapped : (i : ℕ) → i < n → is_leaf (view m pt (a + 4096 * i)) ≡ true
  pub owned : (i : ℕ) → i < n → do_free ≡ true → role (pte2pa (view m pt (a + 4096 * i))) ≡ used
  pub frames : (i : ℕ) → i < n → do_free ≡ true → IsFrame P (pte2pa (view m pt (a + 4096 * i)))
  pub single :
      (i j : ℕ)
      → i < n
      → j < n
      → do_free ≡ true
      → pte2pa (view m pt (a + 4096 * i)) ≡ pte2pa (view m pt (a + 4096 * j))
      → i ≡ j

-- The outcome of the removal of `n` pages from `a`, with a result.
pub record Unmapping (P : Platform) (role : Roles) (ps : List ℕ) (k : Kernel) (pt a n : ℕ)
    (do_free : Bool) {A : Type 0} (value : A) (r : Run A) : Type 0 where
  pub after : Kernel
  pub roles : Roles
  pub run : r ≡ ok value after
  pub release :
      Release P role k (without k.mem pt a n) roles (released k.mem pt a n do_free ps) after

pub released_grows :
    (m : Memory) (pt a n : ℕ) (do_free : Bool) (ps : List ℕ) (x : ℕ)
    → x ∉ released m pt a n do_free ps
    → x ∉ ps
released_grows m pt a zero do_free ps x out = out
released_grows m pt a (suc n) do_free ps x out =
    let rest = released_grows m pt (a + 4096) n do_free _ x out in
    elim (Bool-cases do_free) [ inl b ↦ ground (arith, (rw b at rest)) | inr b ↦ (rw b at rest) ]

released_same :
    (m g : Memory) (pt a n : ℕ) (do_free : Bool) (ps : List ℕ)
    → ((va : ℕ) → a ≤ va → va < a + 4096 * n → view g pt va ≡ view m pt va)
    → released g pt a n do_free ps ≡ released m pt a n do_free ps
released_same m g pt a zero do_free ps same = refl
released_same m g pt a (suc n) do_free ps same =
    rw (same a (omega arith) (omega arith)) (
      released_same m g pt (a + 4096) n do_free _ (λ va lo hi. same va (omega arith) (omega arith)))

-- One page and the pages behind it.
without-suc :
    (m g : Memory) (pt a n q va : ℕ)
    → a % 4096 ≡ 0
    → view g q va ≡ with_page m pt a 0 q va
    → without g pt (a + 4096) n q va ≡ without m pt a (suc n) q va
without-suc m g pt a n q va al e = rw e (ground arith)

module _ {P : Platform} {role : Roles} {ps : List ℕ} {k : Kernel} (inv : Inv P role ps k)
    (pt a n : ℕ) (do_free : Bool) (is_root : role pt ≡ root) (al : a % 4096 ≡ 0)
    (low : a + 4096 * suc n ≤ maxva) (leaves : Leaves P role k.mem pt a (suc n) do_free) where
  abbrev first : ℕ
  first = pte2pa (view k.mem pt a)

  abbrev pages : List ℕ
  pages = if do_free then first ∷ ps else ps

  at_first : a + 4096 * 0 ≡ a
  at_first = omega arith

  -- The first page of the range.
  pub record First : Type 0 where
    pub after : Kernel
    pub roles : Roles
    pub run : unmap_page P pt a do_free k ≡ ok tt after
    pub release : Release P role k (with_page k.mem pt a 0) roles pages after

  first_leaf : is_leaf (view k.mem pt a) ≡ true
  first_leaf =
      subst (λ x. is_leaf (view k.mem pt x) ≡ true) at_first (leaves.mapped 0 (omega arith))

  first_owned : do_free ≡ true → role first ≡ used
  first_owned b =
      subst (λ x. role (pte2pa (view k.mem pt x)) ≡ used) at_first (leaves.owned 0 (omega arith) b)

  first-IsFrame : do_free ≡ true → IsFrame P first
  first-IsFrame b =
      subst (λ x. IsFrame P (pte2pa (view k.mem pt x))) at_first (leaves.frames 0 (omega arith) b)

  of_flag :
      (b : Bool) (after : Kernel) (roles : Roles)
      → do_free ≡ b
      → unmap_page P pt a b k ≡ ok tt after
      → Release P role k (with_page k.mem pt a 0) roles (if b then first ∷ ps else ps) after
      → First
  of_flag b after roles same run release = record {
    after = after;
    roles = roles;
    run = ap (λ d. unmap_page P pt a d k) same ∙ run;
    release =
        subst
          (λ d.
            Release P role k (with_page k.mem pt a 0) roles (if d then first ∷ ps else ps) after)
          (sym same) release;
  }

  pub first-First : First
  first-First = elim (Bool-cases do_free) [
    | inr b ↦
        let (run, release) = unmap_page-keep inv pt a is_root (omega arith) first_leaf in
        of_flag false _ role b run release
    | inl b ↦
        let (run, release) =
          unmap_page-free inv pt a is_root (omega arith) first_leaf first refl (first_owned b)
            (first-IsFrame b) in
        of_flag true _ _ b run release
  ]

  module _ (s : First) where
    same_entry :
        (i : ℕ)
        → i < n
        → view s.after.mem pt (a + 4096 + 4096 * i) ≡ view k.mem pt (a + 4096 * suc i)
    same_entry i h =
        let other : ((a + 4096 + 4096 * i) / 4096 == a / 4096) ≡ false = ground arith in
        let here : a + 4096 + 4096 * i ≡ a + 4096 * suc i = omega arith in
        s.release.views pt (a + 4096 + 4096 * i) is_root (omega arith) ∙ ground arith

    unlisted : (i : ℕ) → i < n → do_free ≡ true → pte2pa (view k.mem pt (a + 4096 * suc i)) ∉ pages
    unlisted i h b =
        let e = pte2pa (view k.mem pt (a + 4096 * suc i)) in
        let apart : e ≢ first = λ same. omega (
          arith,
          leaves.single (suc i) 0 (omega arith) (omega arith) b
              (same ∙ ap (λ x. pte2pa (view k.mem pt x)) (sym at_first)),
        ) in
        let in_use : role e ≡ used = leaves.owned (suc i) (omega arith) b in
        let out : e ∉ ps = elim (Bool-cases (has e ps)) [
          | inl m ↦ cc (inv.listed_free e m, in_use)
          | inr m ↦ m
        ] in
        rw b (ground (arith, apart, out))

    pub rest-Leaves : Leaves P s.roles s.after.mem pt (a + 4096) n do_free
    rest-Leaves = record {
      mapped = λ i h. ap (λ e. is_leaf e) (same_entry i h) ∙ leaves.mapped (suc i) (omega arith);
      owned = λ i h b.
          ap (λ e. s.roles (pte2pa e)) (same_entry i h)
          ∙ s.release.keeps _ (unlisted i h b)
          ∙ leaves.owned (suc i) (omega arith) b;
      frames = λ i h b.
          subst (λ e. IsFrame P (pte2pa e)) (sym (same_entry i h))
            (leaves.frames (suc i) (omega arith) b);
      single = λ i j h h' b same. omega (
        arith,
        leaves.single (suc i) (suc j) (omega arith) (omega arith) b (
            ap (λ e. pte2pa e) (sym (same_entry i h))
            ∙ same
            ∙ ap (λ e. pte2pa e) (same_entry j h')),
      );
    }

    rest_views :
        (va : ℕ)
        → a + 4096 ≤ va
        → va < a + 4096 + 4096 * n
        → view s.after.mem pt va ≡ view k.mem pt va
    rest_views va lo hi =
        let other : (va / 4096 == a / 4096) ≡ false = ground arith in
        s.release.views pt va is_root (omega arith) ∙ ground arith

    same_list :
        released s.after.mem pt (a + 4096) n do_free pages ≡ released k.mem pt a (suc n) do_free ps
    same_list = released_same k.mem s.after.mem pt (a + 4096) n do_free pages rest_views

    -- One page and the pages behind it.
    Release-cons :
        {roles : Roles} {after : Kernel}
        → Release P s.roles s.after
            (without s.after.mem pt (a + 4096) n)
            roles
            (released s.after.mem pt (a + 4096) n do_free pages)
            after
        → Release P role k
            (without k.mem pt a (suc n))
            roles
            (released s.after.mem pt (a + 4096) n do_free pages)
            after
    Release-cons t =
        let shrink = λ (x : ℕ). released_grows s.after.mem pt (a + 4096) n do_free pages x in
        record {
          inv = t.inv;
          keeps = λ x out. t.keeps x out ∙ s.release.keeps x (shrink x out);
          roots = λ q e. t.roots q (s.release.roots q e);
          bytes = λ p x e out b lo hi.
              t.bytes p x (s.release.keeps p (shrink p out) ∙ e) out b lo hi
              ∙ s.release.bytes p x e (shrink p out) b lo hi;
          views = λ q va e high.
              t.views q va (s.release.roots q e) high
              ∙ without-suc k.mem s.after.mem pt a n q va al (s.release.views q va e high);
        }

    pub Unmapping-cons :
        {A : Type 0} {value : A} {r r' : Run A}
        → r ≡ r'
        → Unmapping P s.roles pages s.after pt (a + 4096) n do_free value r'
        → Unmapping P role ps k pt a (suc n) do_free value r
    Unmapping-cons same rest = record {
      after = rest.after;
      roles = rest.roles;
      run = same ∙ rest.run;
      release =
          subst (λ l. Release P role k (without k.mem pt a (suc n)) rest.roles l rest.after)
            same_list (Release-cons rest.release);
    }
