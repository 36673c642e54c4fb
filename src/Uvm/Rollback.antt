-- ===== src/Uvm/Rollback.antt =====
-- Taking back a range of new pages: the address spaces are as before.
use my_os_proj.Base.{
  ℕ, zero, suc, ◌+◌, ◌-◌, ◌*◌, ◌/◌, ◌<◌, ◌≤◌, ◌≡◌, ◌≢◌, inl, inr, sym, ◌∙◌, ap, subst, arith, true,
  List, ◌∷◌, ◌∈◌, ◌∉◌, has, ◌&&◌, leb, ltb, ◌==◌, Bool-cases,
}
use my_os_proj.Memory.{Memory}
use my_os_proj.Kernel.{Platform, Kernel, maxva}
use my_os_proj.Kalloc.FreeList.{IsFrame}
use my_os_proj.Pte.{pte2pa, leaf}
use my_os_proj.Pte.Laws.{leaf_fields}
use my_os_proj.Paging.{Roles, free, used, root, view}
use my_os_proj.Vm.Step.{Space}
use my_os_proj.Vm.Release.{Release, is_leaf}
use my_os_proj.Vm.Leaves.{Leaves, without, released, released_grows}
use my_os_proj.Uvm.Backed.{Backed}

-- What is on the list after a release was on it before, or is one of the released pages.
released_out :
    (m : Memory) (pt a n x : ℕ) (ps : List ℕ)
    → x ∉ ps
    → ((i : ℕ) → i < n → x ≢ pte2pa (view m pt (a + 4096 * i)))
    → x ∉ released m pt a n true ps
released_out m pt a zero x ps out ne = out
released_out m pt a (suc n) x ps out ne =
    let here : a + 4096 * 0 ≡ a = omega arith in
    let first : x ≢ pte2pa (view m pt a) =
      subst (λ y. x ≢ pte2pa (view m pt y)) here (ne 0 (omega arith)) in
    released_out m pt (a + 4096) n x (pte2pa (view m pt a) ∷ ps) (ground (arith, first, out))
      (λ i h.
        let next : a + 4096 * suc i ≡ a + 4096 + 4096 * i = omega arith in
        subst (λ y. x ≢ pte2pa (view m pt y)) next (ne (suc i) (omega arith)))

released_in :
    (m : Memory) (pt a n i : ℕ) (ps : List ℕ)
    → i < n
    → pte2pa (view m pt (a + 4096 * i)) ∈ released m pt a n true ps
released_in m pt a zero i ps h = absurd (omega arith)
released_in m pt a (suc n) zero ps h =
    let here : a + 4096 * 0 ≡ a = omega arith in
    let x = pte2pa (view m pt a) in
    subst (λ y. pte2pa (view m pt y) ∈ released m pt a (suc n) true ps) (sym here)
      (elim (Bool-cases (has x (released m pt a (suc n) true ps))) [
        | inl m' ↦ m'
        | inr out ↦
            let not_first = released_grows m pt (a + 4096) n true (x ∷ ps) x out in
            absurd (ground (arith, not_first))
      ])
released_in m pt a (suc n) (suc i) ps h =
    let there : a + 4096 + 4096 * i ≡ a + 4096 * suc i = omega arith in
    subst (λ y. pte2pa (view m pt y) ∈ released m pt a (suc n) true ps) there
      (released_in m pt (a + 4096) n i (pte2pa (view m pt a) ∷ ps) (omega arith))

module _ {P : Platform} {role roles : Roles} {pages : List ℕ} {k mid : Kernel} {pt a n : ℕ}
    {perm_of : ℕ → ℕ} {content : (i offset : ℕ) → ℕ}
    (b : Backed P role k pt a n perm_of content roles pages mid) (is_root : role pt ≡ root)
    (low : a + 4096 * n ≤ maxva)
    (flags : (i : ℕ) → i < n → (2 ≤ perm_of i) × (perm_of i < 1024)) where
  entry : (i : ℕ) → i < n → view mid.mem pt (a + 4096 * i) ≡ leaf (b.frame_of i) (perm_of i)
  entry i h =
      let index : (a + 4096 * i - a) / 4096 ≡ i = omega arith in
      let inside : (leb a (a + 4096 * i) && ltb (a + 4096 * i) (a + 4096 * n)) ≡ true =
        ground arith in
      b.space.views pt (a + 4096 * i) is_root (omega arith) ∙ rw (inside, index) (ground arith)

  fields :
      (i : ℕ)
      → i < n
      → (is_leaf (leaf (b.frame_of i) (perm_of i)) ≡ true)
        × (pte2pa (leaf (b.frame_of i) (perm_of i)) ≡ b.frame_of i)
  fields i h =
      let f = b.frames i h in
      let (lo, hi) = flags i h in
      let (valid, page, _, bits) =
        leaf_fields (b.frame_of i) (perm_of i) (omega (arith, f.below, P.phystop-le)) f.aligned
          hi in
      (ground (arith, valid, bits), page)

  leads : (i : ℕ) → i < n → pte2pa (view mid.mem pt (a + 4096 * i)) ≡ b.frame_of i
  leads i h = ap (λ e. pte2pa e) (entry i h) ∙ (fields i h).1

  -- The pages can be unmapped.
  pub Backed-Leaves : Leaves P roles mid.mem pt a n true
  Backed-Leaves = record {
    mapped = λ i h. ap (λ e. is_leaf e) (entry i h) ∙ (fields i h).0;
    owned = λ i h d. ap roles (leads i h) ∙ b.in_use i h;
    frames = λ i h d. subst (λ x. IsFrame P x) (sym (leads i h)) (b.frames i h);
    single = λ i j h h' d same. b.distinct i j h h' (sym (leads i h) ∙ same ∙ leads j h');
  }

  stays_out : (x : ℕ) → role x ≢ free → x ∉ released mid.mem pt a n true pages
  stays_out x ne =
      let out : x ∉ pages = elim (Bool-cases (has x pages)) [
        | inl m ↦ absurd (ne (sym (b.space.keeps x ne) ∙ b.space.inv.listed_free x m))
        | inr m ↦ m
      ] in
      released_out mid.mem pt a n x pages out
        (λ i h eq. ne (ap role (eq ∙ leads i h) ∙ b.was_free i h))

  back :
      ((va : ℕ) → a ≤ va → va < a + 4096 * n → view k.mem pt va ≡ 0)
      → (q va : ℕ) → role q ≡ root
      → va < maxva
      → without mid.mem pt a n q va ≡ view k.mem q va
  back clear q va e high = elim (Bool-cases ((q == pt) && (leb a va && ltb va (a + 4096 * n)))) [
    | inl inside ↦
        let same : q ≡ pt = ground arith in
        rw (inside, same) (sym (clear va (ground arith) (ground arith)))
    | inr outside ↦ rw outside (b.space.views q va e high ∙ (rw outside))
  ]

  -- After that nothing was mapped, where nothing was.
  pub Backed-undo :
      {roles' : Roles} {after : Kernel}
      → ((va : ℕ) → a ≤ va → va < a + 4096 * n → view k.mem pt va ≡ 0)
      → Release P roles mid
          (without mid.mem pt a n)
          roles'
          (released mid.mem pt a n true pages)
          after
      → Space P role k (view k.mem) roles' (released mid.mem pt a n true pages) after
  Backed-undo clear r = record {
    inv = r.inv;
    keeps = λ x ne. r.keeps x (stays_out x ne) ∙ b.space.keeps x ne;
    bytes = λ p x e al lo hi.
        r.bytes p x (b.space.keeps p (λ z. cc) ∙ e) (stays_out p (λ z. cc)) al lo hi
        ∙ b.space.bytes p x e al lo hi;
    views =
        λ q va e high. r.views q va (b.space.keeps q (λ z. cc) ∙ e) high ∙ back clear q va e high;
  }

  -- And no page that was free is a user page.
  pub Backed-unused :
      {roles' : Roles} {after : Kernel}
      → Release P roles mid
          (without mid.mem pt a n)
          roles'
          (released mid.mem pt a n true pages)
          after
      → (x : ℕ) → role x ≡ free
      → roles' x ≢ used
  Backed-unused r x e u = elim (Bool-cases (has x (released mid.mem pt a n true pages))) [
    | inl m ↦ cc (r.inv.listed_free x m)
    | inr out ↦
        b.unused x e
          (λ i h eq.
            let inside = released_in mid.mem pt a n i pages h in
            cc (ap (λ y. has y (released mid.mem pt a n true pages)) (eq ∙ sym (leads i h))))
          (sym (r.keeps x out) ∙ u)
  ]
