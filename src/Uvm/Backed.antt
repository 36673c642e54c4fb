-- ===== src/Uvm/Backed.antt =====
-- A range of virtual pages that new pages of memory back, page by page: what `uvmalloc` and
-- `uvmcopy` build.
use my_os_proj.Base.{
  ℕ, suc, ◌+◌, ◌-◌, ◌*◌, ◌/◌, ◌%◌, ◌<◌, ◌≡◌, ◌≢◌, inl, inr, refl, sym, ◌∙◌, ap, subst, arith, true,
  false, List, if◌then◌else◌, ◌&&◌, leb, ltb, ◌==◌, ==_iff, Bool-cases,
}
use my_os_proj.Memory.{Memory}
use my_os_proj.Kernel.{Platform, Kernel, maxva}
use my_os_proj.Kalloc.FreeList.{IsFrame}
use my_os_proj.Pte.{leaf}
use my_os_proj.Paging.{Roles, free, used, root, Inv, view}
use my_os_proj.Vm.Step.{Space, with_page}
use my_os_proj.Paging.Growth.{Role_cases}
use my_os_proj.Uvm.Fresh.{Fresh}

-- The address spaces with `n` pages from `a` below the root `pt`, the `i`th in the frame
-- `frame_of i`.
abbrev pub backed : (m : Memory) (pt a n : ℕ) (frame_of perm_of : ℕ → ℕ) → (q va : ℕ) → ℕ
backed m pt a n frame_of perm_of q va =
    if (q == pt) && (leb a va && ltb va (a + 4096 * n))
    then leaf (frame_of ((va - a) / 4096)) (perm_of ((va - a) / 4096))
    else view m q va

-- The frames were free; they are now distinct user pages, whose bytes are given by `content`.
pub record Backed (P : Platform) (role : Roles) (k : Kernel) (pt a n : ℕ) (perm_of : ℕ → ℕ)
    (content : (i offset : ℕ) → ℕ) (roles : Roles) (pages : List ℕ) (after : Kernel) : Type 0 where
  pub frame_of : ℕ → ℕ
  pub space : Space P role k (backed k.mem pt a n frame_of perm_of) roles pages after
  pub was_free : (i : ℕ) → i < n → role (frame_of i) ≡ free
  pub unused : (x : ℕ) → role x ≡ free → ((i : ℕ) → i < n → x ≢ frame_of i) → roles x ≢ used
  pub in_use : (i : ℕ) → i < n → roles (frame_of i) ≡ used
  pub frames : (i : ℕ) → i < n → IsFrame P (frame_of i)
  pub distinct : (i j : ℕ) → i < n → j < n → frame_of i ≡ frame_of j → i ≡ j
  pub filled :
      (i offset : ℕ) → i < n → offset < 4096 → after.mem (frame_of i + offset) ≡ content i offset

-- The page behind the range, in the two descriptions.
backed-suc :
    (m g : Memory) (pt a n p : ℕ) (frame_of perm_of : ℕ → ℕ) (q va : ℕ)
    → a % 4096 ≡ 0
    → view g q va ≡ backed m pt a n frame_of perm_of q va
    → with_page g pt (a + 4096 * n) (leaf p (perm_of n)) q va
      ≡ backed m pt a (suc n) (λ i. if i == n then p else frame_of i) perm_of q va
backed-suc m g pt a n p frame_of perm_of q va al e =
    elim (Bool-cases (va / 4096 == (a + 4096 * n) / 4096)) [
      | inl here ↦
          let index : (va - a) / 4096 ≡ n = ground arith in
          let lower : leb a va ≡ true = ground arith in
          let upper : ltb va (a + 4096 * suc n) ≡ true = ground arith in
          let self : (n == n) ≡ true = ground arith in
          rw (here, lower, upper, index, self)
            (elim (Bool-cases (q == pt)) [ inl t ↦ rw t | inr t ↦ rw (t, e) (rw t) ])
      | inr there ↦ elim (Bool-cases (leb a va && ltb va (a + 4096 * n))) [
        | inl inside ↦
            let lower : leb a va ≡ true = ground arith in
            let upper : ltb va (a + 4096 * suc n) ≡ true = ground arith in
            let index : ((va - a) / 4096 == n) ≡ false = ground arith in
            rw (there, e, inside, lower, upper, index) (ground arith)
        | inr outside ↦
            let beyond : (leb a va && ltb va (a + 4096 * suc n)) ≡ false = ground arith in
            rw (there, e, outside, beyond) (ground arith)
      ]
    ]

module _ {P : Platform} {role : Roles} {k : Kernel} (pt a : ℕ) (perm_of : ℕ → ℕ)
    (content : (i offset : ℕ) → ℕ) where
  -- No page yet.
  pub Backed-none :
      {ps : List ℕ} → Inv P role ps k → Backed P role k pt a 0 perm_of content role ps k
  Backed-none inv = record {
    frame_of = λ i. i;
    space = record {
      inv = inv;
      keeps = λ x ne. refl;
      bytes = λ p x e al lo hi. refl;
      views = λ q va e low. ground arith;
    };
    was_free = λ i h. absurd (omega arith);
    unused = λ x e ne u. cc;
    in_use = λ i h. absurd (omega arith);
    frames = λ i h. absurd (omega arith);
    distinct = λ i j h h' e. absurd (omega arith);
    filled = λ i o h h'. absurd (omega arith);
  }

  -- A change that no address space sees.
  pub Backed-Space :
      {n : ℕ} {roles roles' : Roles} {pages pages' : List ℕ} {mid after : Kernel}
      → Backed P role k pt a n perm_of content roles pages mid
      → Space P roles mid (view mid.mem) roles' pages' after
      → ((x : ℕ) → roles x ≡ free → roles' x ≢ used)
      → Backed P role k pt a n perm_of content roles' pages' after
  Backed-Space b s unused = record {
    frame_of = b.frame_of;
    space = record {
      inv = s.inv;
      keeps = λ x ne. s.keeps x (λ z. ne (sym (b.space.keeps x ne) ∙ z)) ∙ b.space.keeps x ne;
      bytes = λ q x e d lo hi.
          s.bytes q x (b.space.keeps q (λ z. cc) ∙ e) d lo hi ∙ b.space.bytes q x e d lo hi;
      views =
          λ q va e low. s.views q va (b.space.keeps q (λ z. cc) ∙ e) low ∙ b.space.views q va e low;
    };
    was_free = b.was_free;
    unused = λ x e ne u. elim (Role_cases _) [
      | inl f ↦ unused x f u
      | inr taken ↦ b.unused x e ne (sym (s.keeps x taken) ∙ u)
    ];
    in_use = λ i h. s.keeps (b.frame_of i) (λ z. cc (b.in_use i h)) ∙ b.in_use i h;
    frames = b.frames;
    distinct = b.distinct;
    filled = λ i o h h'.
        s.bytes (b.frame_of i) (b.frame_of i + o) (b.in_use i h) (b.frames i h).aligned
          (omega arith) (omega arith)
        ∙ b.filled i o h h';
  }

  -- One page more.
  module _ {n p : ℕ} {g : Memory} {roles roles' : Roles} {pages pages' : List ℕ}
      {mid after : Kernel} (b : Backed P role k pt a n perm_of content roles pages mid)
      (f : Fresh P roles mid pt (a + 4096 * n) (perm_of n) p g roles' pages' after)
      (is_root : role pt ≡ root) (al : a % 4096 ≡ 0)
      (bytes_of : (offset : ℕ) → offset < 4096 → g (p + offset) ≡ content n offset) where
    abbrev frame_of' : ℕ → ℕ
    frame_of' i = if i == n then p else b.frame_of i

    free_before : role p ≡ free
    free_before = elim (Role_cases (role p)) [
      | inl e ↦ e
      | inr ne ↦ absurd (ne (sym (b.space.keeps p ne) ∙ f.was_free))
    ]

    views' :
        (q va : ℕ)
        → role q ≡ root
        → va < maxva
        → view after.mem q va ≡ backed k.mem pt a (suc n) frame_of' perm_of q va
    views' q va e low =
        f.space.views q va (b.space.keeps q (λ z. cc) ∙ e) low
        ∙ backed-suc k.mem mid.mem pt a n p b.frame_of perm_of q va al (b.space.views q va e low)

    before_last : (i : ℕ) → i < suc n → (i == n) ≡ false → i < n
    before_last i h ne = ground arith

    apart : (i : ℕ) → i < n → b.frame_of i ≢ p
    apart i h e = cc (ap roles e, b.in_use i h, f.was_free)

    kept : (i : ℕ) → i < n → roles' (b.frame_of i) ≡ used
    kept i h = f.space.keeps (b.frame_of i) (λ z. cc (b.in_use i h)) ∙ b.in_use i h

    old_byte :
        (i offset : ℕ)
        → i < n
        → offset < 4096
        → after.mem (b.frame_of i + offset) ≡ content i offset
    old_byte i o h h' =
        f.space.bytes (b.frame_of i) (b.frame_of i + o) (b.in_use i h) (b.frames i h).aligned
          (omega arith) (omega arith)
        ∙ b.filled i o h h'

    -- What holds for the last page and for the others.
    each :
        (Q : ℕ → ℕ → Type 0)
        → Q n p
        → ((i : ℕ) → i < n → Q i (b.frame_of i))
        → (i : ℕ) → i < suc n
        → Q i (frame_of' i)
    each Q last others i h = elim (Bool-cases (i == n)) [
      | inl e ↦ rw e (subst (λ x. Q x p) (sym ((==_iff i n).0 e)) last)
      | inr ne ↦ rw ne (others i (before_last i h ne))
    ]

    distinct' : (i j : ℕ) → i < suc n → j < suc n → frame_of' i ≡ frame_of' j → i ≡ j
    distinct' i j h h' e = elim (Bool-cases (i == n)) [
      | inl x ↦ elim (Bool-cases (j == n)) [
        | inl y ↦ ground arith
        | inr y ↦ absurd (apart j (before_last j h' y) (sym (rw (x, y) at e)))
      ]
      | inr x ↦ elim (Bool-cases (j == n)) [
        | inl y ↦ absurd (apart i (before_last i h x) (rw (x, y) at e))
        | inr y ↦ b.distinct i j (before_last i h x) (before_last j h' y) (rw (x, y) at e)
      ]
    ]

    not_last : (x : ℕ) → ((i : ℕ) → i < suc n → x ≢ frame_of' i) → x ≢ p
    not_last x ne e = ne n (omega arith) (e ∙ ground arith)

    not_before :
        (x : ℕ) → ((i : ℕ) → i < suc n → x ≢ frame_of' i) → (i : ℕ) → i < n → x ≢ b.frame_of i
    not_before x ne i h e = ne i (omega arith) (e ∙ ground arith)

    pub Backed-suc : Backed P role k pt a (suc n) perm_of content roles' pages' after
    Backed-suc = record {
      frame_of = frame_of';
      space = record {
        inv = f.space.inv;
        keeps =
            λ x ne. f.space.keeps x (λ z. ne (sym (b.space.keeps x ne) ∙ z)) ∙ b.space.keeps x ne;
        bytes = λ q x e d lo hi.
            f.space.bytes q x (b.space.keeps q (λ z. cc) ∙ e) d lo hi ∙ b.space.bytes q x e d lo hi;
        views = views';
      };
      unused = λ x e ne u. elim (Role_cases (roles x)) [
        | inl f' ↦ f.unused x (not_last x ne) f' u
        | inr taken ↦ b.unused x e (λ i h. not_before x ne i h) (sym (f.space.keeps x taken) ∙ u)
      ];
      was_free = each (λ i p. role p ≡ free) free_before b.was_free;
      in_use = each (λ i p. roles' p ≡ used) f.in_use kept;
      frames = each (λ i p. IsFrame P p) f.frame b.frames;
      distinct = distinct';
      filled = λ i o h h'.
          each (λ i p. after.mem (p + o) ≡ content i o)
            (f.filled (p + o) (omega arith) (omega arith) ∙ bytes_of o h')
            (λ i h. old_byte i o h h') i h;
    }
