-- ===== src/Uvm/Fresh.antt =====
-- A page from `kalloc`, filled and mapped at one virtual page: what the loops of `uvmalloc` and
-- `uvmcopy` share.
use my_os_proj.Base.{
  ℕ, ◌+◌, ◌-◌, ◌*◌, ◌/◌, ◌%◌, ◌<◌, ◌≤◌, ◌≡◌, ◌≢◌, ◌⊎◌, inl, inr, sym, ◌∙◌, ap, subst, arith, Bool,
  true, false, List, ◌∷◌, if◌then◌else◌, ◌&&◌, leb, ltb, ◌==◌, Bool-cases, ℕ_discrete,
}
use my_os_proj.Memory.{Memory, load64}
use my_os_proj.Memory.Words.{SameOutside}
use my_os_proj.Kernel.{Platform, Kernel, Run, ok, maxva}
use my_os_proj.Kalloc.{kfree}
use my_os_proj.Kalloc.FreeList.{IsFrame}
use my_os_proj.Kalloc.Laws.{freed, kfree-ok, freed-SameOutside}
use my_os_proj.Pte.{is_valid, leaf}
use my_os_proj.Paging.{Roles, free, used, root, level_of, assign, Inv, view}
use my_os_proj.Paging.Plain.{view_from-plain}
use my_os_proj.Paging.User.{view_from-changed}
use my_os_proj.Paging.Taken.{taken-Inv, taken-IsFrame, taken_free, taken_other}
use my_os_proj.Paging.Freed.{freed-Inv}
use my_os_proj.Copy.Span.{view_page}
use my_os_proj.Vm.{mappages}
use my_os_proj.Vm.Step.{Space, with_page}
use my_os_proj.Vm.Mapped.{MapResult, mapped, Unmapped}
use my_os_proj.Vm.Map.{mappages-MapResult, pages_of}

-- The page `p` was free; it is now a user page with the bytes of `g`, mapped at `a` and nowhere
-- else.
pub record Fresh (P : Platform) (role : Roles) (k : Kernel) (pt a perm p : ℕ) (g : Memory)
    (roles : Roles) (pages : List ℕ) (after : Kernel) : Type 0 where
  pub space : Space P role k (with_page k.mem pt a (leaf p perm)) roles pages after
  pub was_free : role p ≡ free
  pub unused : (x : ℕ) → x ≢ p → role x ≡ free → roles x ≢ used
  pub in_use : roles p ≡ used
  pub frame : IsFrame P p
  pub filled : (x : ℕ) → p ≤ x → x < p + 4096 → after.mem x ≡ g x

-- The outcome of `mappages` for the page: it is mapped, or no memory is left for a table, and then
-- `kfree` of the page brings back every address space.
pub record Refused (P : Platform) (role : Roles) (k : Kernel) (p : ℕ) (r : Run Bool) : Type 0 where
  pub between : Kernel
  pub after : Kernel
  pub roles : Roles
  pub pages : List ℕ
  pub run : r ≡ ok false between
  pub free_run : kfree P p between ≡ ok tt after
  pub space : Space P role k (view k.mem) roles pages after
  pub unused : (x : ℕ) → role x ≡ free → roles x ≢ used

pub record Accepted (P : Platform) (role : Roles) (k : Kernel) (pt a perm p : ℕ) (g : Memory)
    (r : Run Bool) : Type 0 where
  pub after : Kernel
  pub roles : Roles
  pub pages : List ℕ
  pub run : r ≡ ok true after
  pub fresh : Fresh P role k pt a perm p g roles pages after

module _ {P : Platform} {role : Roles} {p : ℕ} {ps : List ℕ} {k : Kernel}
    (inv : Inv P role (p ∷ ps) k) (g : Memory) (same : SameOutside p k.mem g) (pt a perm : ℕ)
    (is_root : role pt ≡ root) (al : a % 4096 ≡ 0) (low : a + 4096 ≤ maxva) (flags : perm < 1024)
    (clear : is_valid (view k.mem pt a) ≡ false) where
  abbrev given : Kernel
  given = record { mem = g; freelist = load64 k.mem p }

  frame : IsFrame P p
  frame = taken-IsFrame inv g same

  other : (q : ℕ) → role q ≢ free → assign role p used q ≡ role q
  other = taken_other inv g same

  given_view : (q va : ℕ) → role q ≡ root → view g q va ≡ view k.mem q va
  given_view q va e =
      view_from-plain inv p (ap level_of (taken_free inv g same)) frame g same 2 q va
        (ap level_of e)

  given_bytes : (q x : ℕ) → role q ≡ used → q % 4096 ≡ 0 → q ≤ x → x < q + 4096 → g x ≡ k.mem x
  given_bytes q x e b lo hi =
      let apart : q ≢ p = λ eq. cc (ap role eq, taken_free inv g same) in
      same x (omega (arith, frame.aligned))

  mapping : MapResult P (assign role p used) given pt a 1 p perm (mappages P pt a 4096 p perm given)
  mapping =
      let base : a / 4096 * 4096 ≡ a = omega arith in
      let count : pages_of a 4096 ≡ 1 = omega arith in
      let result = λ (x c : ℕ).
        MapResult P (assign role p used) given pt x c p perm (mappages P pt a 4096 p perm given) in
      let unmapped : Unmapped g pt (a / 4096 * 4096) (pages_of a 4096) = λ va lo hi.
        let here : va / 4096 ≡ a / 4096 = omega arith in
        ap (λ e. is_valid e) (view_page g pt va a here ∙ given_view pt a is_root) ∙ clear in
      subst (λ x. result x 1) base
        (subst (λ c. result (a / 4096 * 4096) c) count
          (mappages-MapResult pt a 4096 p perm (assign role p used) ps given (taken-Inv inv g same)
            (other pt (λ f. cc) ∙ is_root) (omega arith) low frame.aligned
            (omega (arith, frame.below, P.phystop-le, frame.aligned)) flags unmapped))

  open mapping use {n, done, after, roles, pages, run, space, unused, ending}

  unassigned : (x : ℕ) → x ≢ p → assign role p used x ≡ role x
  unassigned x ne = ground arith

  p_used : roles p ≡ used
  p_used = space.keeps p (λ f. ground arith) ∙ ground arith

  new_view :
      (q va : ℕ) → role q ≡ root → va < maxva → view after.mem q va ≡ mapped g pt a n p perm q va
  new_view q va e high = space.views q va (other q (λ f. cc) ∙ e) high

  all-Keeps : (x : ℕ) → role x ≢ free → roles x ≡ role x
  all-Keeps x ne = space.keeps x (λ f. ne (sym (other x ne) ∙ f)) ∙ other x ne

  kept_bytes :
      (q x : ℕ) → role q ≡ used → q % 4096 ≡ 0 → q ≤ x → x < q + 4096 → after.mem x ≡ k.mem x
  kept_bytes q x e b lo hi =
      space.bytes q x (other q (λ f. cc) ∙ e) b lo hi ∙ given_bytes q x e b lo hi

  one_page :
      (q va : ℕ)
      → (if (q == pt) && (leb a va && ltb va (a + 4096 * 1))
          then leaf (p + (va / 4096 * 4096 - a)) perm
          else view k.mem q va)
        ≡ with_page k.mem pt a (leaf p perm) q va
  one_page q va = elim (Bool-cases (va / 4096 == a / 4096)) [
    | inl here ↦
        let off : p + (va / 4096 * 4096 - a) ≡ p = ground arith in rw (here, off) (ground arith)
    | inr there ↦ ground arith
  ]

  accept : done ≡ true → n ≡ 1 → Accepted P role k pt a perm p g (mappages P pt a 4096 p perm given)
  accept d one = record {
    after = after;
    roles = roles;
    pages = pages;
    run = run ∙ ap (λ b. ok b after) d;
    fresh = record {
      space = record {
        inv = space.inv;
        keeps = all-Keeps;
        bytes = kept_bytes;
        views = λ q va e high. new_view q va e high ∙ rw (one, given_view q va e) (one_page q va);
      };
      was_free = taken_free inv g same;
      unused = λ x ne e. unused x (unassigned x ne ∙ e);
      in_use = p_used;
      frame = frame;
      filled = λ x lo hi. space.bytes p x (ground arith) frame.aligned lo hi;
    };
  }

  refuse : done ≡ false → n ≡ 0 → Refused P role k p (mappages P pt a 4096 p perm given)
  refuse d none = record {
    between = after;
    after = freed p after;
    roles = assign roles p free;
    pages = p ∷ pages;
    run = run ∙ ap (λ b. ok b after) d;
    free_run = kfree-ok P after p frame;
    unused = λ x e u. elim (ℕ_discrete x p) [
      | yes eq ↦ ground (arith, eq)
      | no ne ↦ unused x (unassigned x ne ∙ e) (ground (arith, ne))
    ];
    space = record {
      inv = freed-Inv space.inv p p_used frame;
      keeps = λ x ne.
          let apart : p ≢ x = λ eq. ne (ap role (sym eq) ∙ taken_free inv g same) in
          ground (arith, all-Keeps x ne);
      bytes = λ q x e b lo hi.
          let apart : q ≢ p = λ eq. cc (ap role eq, taken_free inv g same) in
          freed-SameOutside after p x (omega (arith, frame.aligned)) ∙ kept_bytes q x e b lo hi;
      views = λ q va e high.
          view_from-changed space.inv p p_used frame (freed p after).mem (freed-SameOutside after p)
            2 q va (ap level_of (all-Keeps q (λ f. cc) ∙ e))
          ∙ new_view q va e high
          ∙ rw none (ground (arith, given_view q va e));
    };
  }

  pub mappages-fresh :
      Refused P role k p (mappages P pt a 4096 p perm given)
      ⊎ Accepted P role k pt a perm p g (mappages P pt a 4096 p perm given)
  mappages-fresh = elim ending [
    | inl (d, one) ↦ inr (accept d one)
    | inr (d, less, _) ↦ inl (refuse d (omega arith))
  ]
