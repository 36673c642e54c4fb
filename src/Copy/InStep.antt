-- ===== src/Copy/InStep.antt =====
-- A round of `copyin`: a chunk of bytes from a page of the user, and the rest.
use my_os_proj.Base.{
  ℕ, ◌+◌, ◌-◌, ◌%◌, ◌≤◌, ◌<◌, ◌≡◌, ◌≢◌, ◌⊎◌, inl, inr, refl, sym, ◌∙◌, ap, subst, arith, Bool, true,
  false, ltb, leb, List, if◌then◌else◌, Bool-cases,
}
use my_os_proj.Memory.{Memory, memmove, within}
use my_os_proj.Memory.Words.{SameOutside}
use my_os_proj.Kernel.{maxva, Platform, Kernel, Run, ok}
use my_os_proj.Kalloc.FreeList.{IsFrame}
use my_os_proj.Walk.Lookup.{translate, user_page}
use my_os_proj.Paging.{Roles, used, root, level_of, Inv, view}
use my_os_proj.Paging.User.{changed-Inv, view_from-changed}
use my_os_proj.Copy.Span.{user_addr, UserSpace, UserSpace-translate, translate_page}

-- The outcome: the first `n` bytes are copied, no other byte of memory and no address space
-- changes; the result is 0 if these are all, and -1 if the next byte has no user page.
pub record CopiedIn (P : Platform) (role : Roles) (ps : List ℕ) (k : Kernel) (pt dst src len : ℕ)
    (r : Run Bool) : Type 0 where
  pub n : ℕ
  pub done : Bool
  pub after : Kernel
  pub run : r ≡ ok done after
  pub inv : Inv P role ps after
  pub views : (q va : ℕ) → role q ≡ root → view after.mem q va ≡ view k.mem q va
  pub reached : (i : ℕ) → i < n → translate k.mem pt (src + i) ≢ 0
  pub copied : (i : ℕ) → i < n → after.mem (dst + i) ≡ k.mem (user_addr k.mem pt (src + i))
  pub others : (x : ℕ) → (x < dst) ⊎ (dst + n ≤ x) → after.mem x ≡ k.mem x
  pub ending :
      ((done ≡ true) × (n ≡ len))
      ⊎ ((done ≡ false) × (n < len) × (translate k.mem pt (src + n) ≡ 0))

-- The `len` bytes at `dst` lie in the page `b`, which is in use and is no page of the user.
pub record KernelBuffer (P : Platform) (role : Roles) (m : Memory) (pt b dst len : ℕ) : Type 0 where
  pub in_use : role b ≡ used
  pub frame : IsFrame P b
  pub apart : (va : ℕ) → translate m pt va ≢ 0 → translate m pt va ≢ b
  pub lower : b ≤ dst
  pub upper : dst + len ≤ b + 4096

-- One chunk: `c` bytes inside the page of `src`.
module _ {P : Platform} {role : Roles} {ps : List ℕ} {k : Kernel} (inv : Inv P role ps k)
    (pt b dst src c len : ℕ) (e : role pt ≡ root) (space : UserSpace P role k.mem pt)
    (buffer : KernelBuffer P role k.mem pt b dst len) (short : c ≤ len)
    (there : translate k.mem pt src ≢ 0) (inside : src % 4096 + c ≤ 4096) where
  abbrev pub moved : Memory
  moved = memmove k.mem dst (user_addr k.mem pt src) c

  pub moved-SameOutside : SameOutside b k.mem moved
  unfolding memmove
  moved-SameOutside x out = ground (arith, buffer.lower, buffer.upper)

  pub moved-Inv : Inv P role ps (record k { mem = moved })
  moved-Inv = changed-Inv inv b buffer.in_use buffer.frame moved moved-SameOutside

  pub moved_views : (q va : ℕ) → role q ≡ root → view moved q va ≡ view k.mem q va
  moved_views q va h =
      view_from-changed inv b buffer.in_use buffer.frame moved moved-SameOutside 2 q va
        (ap level_of h)

  pub moved-translate : (va : ℕ) → translate moved pt va ≡ translate k.mem pt va
  moved-translate va = ap (λ v. if leb maxva va then 0 else user_page v) (moved_views pt va e)

  pub user_addr_chunk : (i : ℕ) → i < c → user_addr k.mem pt (src + i) ≡ user_addr k.mem pt src + i
  user_addr_chunk i h =
      let same = translate_page k.mem pt (src + i) src (omega arith) in omega (arith, same)

  pub moved_copied : (i : ℕ) → i < c → moved (dst + i) ≡ k.mem (user_addr k.mem pt (src + i))
  unfolding memmove
  moved_copied i h =
      let off : dst + i - dst ≡ i = omega arith in
      let inside : within dst c (dst + i) ≡ true = ground arith in
      rw (inside, off, user_addr_chunk i h) refl

  pub moved_others : (x : ℕ) → (x < dst) ⊎ (dst + c ≤ x) → moved x ≡ k.mem x
  unfolding memmove
  moved_others x out = let w : within dst c x ≡ false = ground arith in rw w refl

  -- User pages keep their bytes.
  pub moved_user :
      (va : ℕ)
      → translate k.mem pt va ≢ 0
      → moved (user_addr moved pt va) ≡ k.mem (user_addr k.mem pt va)
  moved_user va h =
      let f = (space.frames va h).aligned in
      let g = buffer.frame.aligned in
      let far = buffer.apart va h in
      ap (λ t. moved (t + va % 4096)) (moved-translate va)
      ∙ moved-SameOutside (user_addr k.mem pt va) (omega arith)

  pub moved-UserSpace : UserSpace P role moved pt
  moved-UserSpace = UserSpace-translate space moved moved-translate

  pub moved-KernelBuffer : KernelBuffer P role moved pt b (dst + c) (len - c)
  moved-KernelBuffer = record {
    in_use = buffer.in_use;
    frame = buffer.frame;
    apart =
        λ va h z. buffer.apart va (λ y. h (moved-translate va ∙ y)) (sym (moved-translate va) ∙ z);
    lower = omega (arith, buffer.lower);
    upper = omega (arith, buffer.upper);
  }

  pub reached_chunk : (i : ℕ) → i < c → translate k.mem pt (src + i) ≢ 0
  reached_chunk i h z = there (translate_page k.mem pt src (src + i) (omega arith) ∙ z)

  -- The chunk and the rest of the copy.
  module _ (src' : ℕ) (rest_of : (c ≡ len) ⊎ (src' ≡ src + c)) {r r' : Run Bool} (same_run : r ≡ r')
      (rest : CopiedIn P role ps (record k { mem = moved }) pt (dst + c) src' (len - c) r') where
    -- Where the rest copies anything, it starts behind the chunk.
    pub behind : (j : ℕ) → j < rest.n → src' + j ≡ src + (c + j)
    behind j h = omega (arith, rest_of, rest.ending)

    pub reached_rest : (j : ℕ) → j < rest.n → translate k.mem pt (src + (c + j)) ≢ 0
    reached_rest j h z =
        rest.reached j h
          (ap (λ x. translate moved pt x) (behind j h) ∙ moved-translate (src + (c + j)) ∙ z)

    pub rest_copied :
        (j : ℕ)
        → j < rest.n
        → rest.after.mem (dst + (c + j)) ≡ k.mem (user_addr k.mem pt (src + (c + j)))
    rest_copied j h =
        ap rest.after.mem (let assoc : dst + (c + j) ≡ dst + c + j = omega arith in assoc)
        ∙ rest.copied j h
        ∙ ap (λ x. moved (user_addr moved pt x)) (behind j h)
        ∙ moved_user (src + (c + j)) (reached_rest j h)

    pub all_reached : (i : ℕ) → i < c + rest.n → translate k.mem pt (src + i) ≢ 0
    all_reached i h = elim (Bool-cases (ltb i c)) [
      | inl lo ↦ reached_chunk i (ground (arith, lo))
      | inr hi ↦
          subst (λ j. translate k.mem pt (src + j) ≢ 0)
            (let split : c + (i - c) ≡ i = ground (arith, hi) in split)
            (reached_rest (i - c) (ground (arith, hi)))
    ]

    pub all_copied :
        (i : ℕ) → i < c + rest.n → rest.after.mem (dst + i) ≡ k.mem (user_addr k.mem pt (src + i))
    all_copied i h = elim (Bool-cases (ltb i c)) [
      | inl lo ↦
          let low : i < c = ground (arith, lo) in
          rest.others (dst + i) (inl (omega arith)) ∙ moved_copied i low
      | inr hi ↦
          subst (λ j. rest.after.mem (dst + j) ≡ k.mem (user_addr k.mem pt (src + j)))
            (let split : c + (i - c) ≡ i = ground (arith, hi) in split)
            (rest_copied (i - c) (ground (arith, hi)))
    ]

    pub all_others : (x : ℕ) → (x < dst) ⊎ (dst + (c + rest.n) ≤ x) → rest.after.mem x ≡ k.mem x
    all_others x out = rest.others x (omega arith) ∙ moved_others x (omega arith)

    pub all_ending :
        ((rest.done ≡ true) × (c + rest.n ≡ len))
        ⊎ ((rest.done ≡ false) × (c + rest.n < len) × (translate k.mem pt (src + (c + rest.n)) ≡ 0))
    all_ending = elim rest.ending [
      | inl (done, all) ↦ inl (done, omega arith)
      | inr (failed, part, missing) ↦
          let at : src' + rest.n ≡ src + (c + rest.n) = omega (arith, rest_of) in
          inr (
            failed,
            omega arith,
            sym (moved-translate (src + (c + rest.n)))
                ∙ ap (λ x. translate moved pt x) (sym at)
                ∙ missing,
          )
    ]

    pub CopiedIn-step : CopiedIn P role ps k pt dst src len r
    CopiedIn-step = record {
      n = c + rest.n;
      done = rest.done;
      after = rest.after;
      run = same_run ∙ rest.run;
      inv = rest.inv;
      views = λ q va h. rest.views q va h ∙ moved_views q va h;
      reached = all_reached;
      copied = all_copied;
      others = all_others;
      ending = all_ending;
    }
