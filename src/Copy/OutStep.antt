-- ===== src/Copy/OutStep.antt =====
-- A round of `copyout`: a chunk of bytes inside a page of the user, and the rest.
use my_os_proj.Base.{
  ℕ, ◌+◌, ◌-◌, ◌%◌, ◌<◌, ◌≤◌, ◌≡◌, ◌≢◌, ◌⊎◌, inl, inr, sym, ◌∙◌, ap, subst, arith, Bool, true,
  false, List, if◌then◌else◌, Bool-cases, dec_lt, leb,
}
use my_os_proj.Memory.{Memory, memmove, within}
use my_os_proj.Memory.Words.{SameOutside}
use my_os_proj.Kernel.{Platform, Kernel, Run, ok, maxva}
use my_os_proj.Paging.{Roles, root, level_of, Inv, view}
use my_os_proj.Paging.User.{changed-Inv, view_from-changed}
use my_os_proj.Walk.Lookup.{translate, user_page}
use my_os_proj.Copy.Span.{
  user_addr, UserSpace, UserSpace-translate, user_addr_injective, translate_page,
}

-- The outcome: the first `n` bytes are copied, no other byte of memory and no address space
-- changes; the result is 0 if these are all, and -1 if the next byte has no user page.
pub record CopiedOut (P : Platform) (role : Roles) (ps : List ℕ) (k : Kernel) (pt dst src len : ℕ)
    (r : Run Bool) : Type 0 where
  pub n : ℕ
  pub done : Bool
  pub after : Kernel
  pub run : r ≡ ok done after
  pub inv : Inv P role ps after
  pub views : (q va : ℕ) → role q ≡ root → view after.mem q va ≡ view k.mem q va
  pub reached : (i : ℕ) → i < n → translate k.mem pt (dst + i) ≢ 0
  pub copied : (i : ℕ) → i < n → after.mem (user_addr k.mem pt (dst + i)) ≡ k.mem (src + i)
  pub others :
      (x : ℕ) → ((i : ℕ) → i < n → x ≢ user_addr k.mem pt (dst + i)) → after.mem x ≡ k.mem x
  pub ending :
      ((done ≡ true) × (n ≡ len))
      ⊎ ((done ≡ false) × (n < len) × (translate k.mem pt (dst + n) ≡ 0))

-- The source lies outside the pages of the user.
abbrev pub SourceApart : (m : Memory) (pt src len : ℕ) → Type 0
SourceApart m pt src len =
    (i va : ℕ)
    → i < len
    → translate m pt va ≢ 0
    → (src + i < translate m pt va) ⊎ (translate m pt va + 4096 ≤ src + i)

-- One chunk: `c` bytes inside the page of `dst`.
module _ {P : Platform} {role : Roles} {ps : List ℕ} {k : Kernel} (inv : Inv P role ps k)
    (pt dst src c : ℕ) (e : role pt ≡ root) (space : UserSpace P role k.mem pt)
    (there : translate k.mem pt dst ≢ 0) (inside : dst % 4096 + c ≤ 4096) where
  abbrev pub moved : Memory
  moved = memmove k.mem (user_addr k.mem pt dst) src c

  pub moved-SameOutside : SameOutside (translate k.mem pt dst) k.mem moved
  unfolding memmove
  moved-SameOutside x out = ground arith

  pub moved-Inv : Inv P role ps (record k { mem = moved })
  moved-Inv =
      changed-Inv inv _ (space.owned dst there) (space.frames dst there) moved moved-SameOutside

  pub moved_views : (q va : ℕ) → role q ≡ root → view moved q va ≡ view k.mem q va
  moved_views q va h =
      view_from-changed inv _ (space.owned dst there) (space.frames dst there) moved
        moved-SameOutside 2 q va (ap level_of h)

  pub moved-translate : (va : ℕ) → translate moved pt va ≡ translate k.mem pt va
  moved-translate va = ap (λ v. if leb maxva va then 0 else user_page v) (moved_views pt va e)

  pub user_addr_chunk : (i : ℕ) → i < c → user_addr k.mem pt (dst + i) ≡ user_addr k.mem pt dst + i
  user_addr_chunk i h =
      let same = translate_page k.mem pt (dst + i) dst (omega arith) in omega (arith, same)

  pub moved_copied : (i : ℕ) → i < c → moved (user_addr k.mem pt (dst + i)) ≡ k.mem (src + i)
  unfolding memmove
  moved_copied i h =
      let off : user_addr k.mem pt dst + i - user_addr k.mem pt dst ≡ i = omega arith in
      let inside : within (user_addr k.mem pt dst) c (user_addr k.mem pt dst + i) ≡ true =
        ground arith in
      rw (user_addr_chunk i h) (rw (inside, off))

  pub moved_others :
      (x : ℕ) → ((i : ℕ) → i < c → x ≢ user_addr k.mem pt (dst + i)) → moved x ≡ k.mem x
  unfolding memmove
  moved_others x out = elim (Bool-cases (within (user_addr k.mem pt dst) c x)) [
    | inr w ↦ rw w
    | inl w ↦
        let i = x - user_addr k.mem pt dst in
        absurd (
          out i (ground arith) (
            omega (
              arith,
              user_addr_chunk i (ground arith),
              (let lo : user_addr k.mem pt dst ≤ x = ground arith in lo),
            )))
  ]

  pub moved-UserSpace : UserSpace P role moved pt
  moved-UserSpace = UserSpace-translate space moved moved-translate

  pub apart_moved :
      (len : ℕ) → c ≤ len → SourceApart k.mem pt src len → SourceApart moved pt (src + c) (len - c)
  apart_moved len short apart i va h h' =
      let t = moved-translate va in
      let ok_there = apart (c + i) va (omega arith) (λ z. h' (t ∙ z)) in omega (arith, t, ok_there)

  pub reached_chunk : (i : ℕ) → i < c → translate k.mem pt (dst + i) ≢ 0
  reached_chunk i h z = there (translate_page k.mem pt dst (dst + i) (omega arith) ∙ z)

  -- The chunk and the rest of the copy.
  module _ (len dst' : ℕ) (rest_of : (c ≡ len) ⊎ (dst' ≡ dst + c)) (short : c ≤ len)
      (apart : SourceApart k.mem pt src len) {r r' : Run Bool} (same_run : r ≡ r')
      (rest : CopiedOut P role ps (record k { mem = moved }) pt dst' (src + c) (len - c) r') where
    -- Where the rest copies anything, it starts behind the chunk.
    pub behind : (j : ℕ) → j < rest.n → dst' + j ≡ dst + (c + j)
    behind j h = omega (arith, rest_of, rest.ending)

    pub rest_addr :
        (j : ℕ) → j < rest.n → user_addr moved pt (dst' + j) ≡ user_addr k.mem pt (dst + (c + j))
    rest_addr j h =
        ap (λ x. user_addr moved pt x) (behind j h)
        ∙ ap (λ t. t + (dst + (c + j)) % 4096) (moved-translate (dst + (c + j)))

    pub reached_rest : (j : ℕ) → j < rest.n → translate k.mem pt (dst + (c + j)) ≢ 0
    reached_rest j h z =
        rest.reached j h
          (ap (λ x. translate moved pt x) (behind j h) ∙ moved-translate (dst + (c + j)) ∙ z)

    pub first_copied :
        (i : ℕ) → i < c → rest.after.mem (user_addr k.mem pt (dst + i)) ≡ k.mem (src + i)
    first_copied i h = rest.others (user_addr k.mem pt (dst + i)) elsewhere ∙ moved_copied i h
      where
        elsewhere :
            (j : ℕ) → j < rest.n → user_addr k.mem pt (dst + i) ≢ user_addr moved pt (dst' + j)
        elsewhere j h' same =
            let eq =
              user_addr_injective space (dst + i) (dst + (c + j)) (reached_chunk i h)
                (reached_rest j h') (same ∙ rest_addr j h') in
            absurd (omega (arith, eq))

    pub rest_copied :
        (j : ℕ)
        → j < rest.n
        → rest.after.mem (user_addr k.mem pt (dst + (c + j))) ≡ k.mem (src + (c + j))
    rest_copied j h =
        ap rest.after.mem (sym (rest_addr j h))
        ∙ rest.copied j h
        ∙ ap moved (let sum : src + c + j ≡ src + (c + j) = omega arith in sum)
        ∙ moved-SameOutside (src + (c + j)) (apart (c + j) dst (omega (arith, rest.ending)) there)

    pub all_copied :
        (i : ℕ) → i < c + rest.n → rest.after.mem (user_addr k.mem pt (dst + i)) ≡ k.mem (src + i)
    all_copied i h = elim (dec_lt i c) [
      | yes first ↦ first_copied i first
      | no later ↦
          let split : c + (i - c) ≡ i = omega arith in
          subst (λ x. rest.after.mem (user_addr k.mem pt (dst + x)) ≡ k.mem (src + x)) split
            (rest_copied (i - c) (omega arith))
    ]

    pub all_reached : (i : ℕ) → i < c + rest.n → translate k.mem pt (dst + i) ≢ 0
    all_reached i h = elim (dec_lt i c) [
      | yes first ↦ reached_chunk i first
      | no later ↦
          let split : c + (i - c) ≡ i = omega arith in
          subst (λ x. translate k.mem pt (dst + x) ≢ 0) split (reached_rest (i - c) (omega arith))
    ]

    pub all_others :
        (x : ℕ)
        → ((i : ℕ) → i < c + rest.n → x ≢ user_addr k.mem pt (dst + i))
        → rest.after.mem x ≡ k.mem x
    all_others x out =
        rest.others x (λ j h same. out (c + j) (omega arith) (same ∙ rest_addr j h))
        ∙ moved_others x (λ i h. out i (omega arith))

    pub all_ending :
        ((rest.done ≡ true) × (c + rest.n ≡ len))
        ⊎ ((rest.done ≡ false) × (c + rest.n < len) × (translate k.mem pt (dst + (c + rest.n)) ≡ 0))
    all_ending = elim rest.ending [
      | inl (d, all) ↦ inl (d, omega arith)
      | inr (d, less, missing) ↦
          let place : dst' + rest.n ≡ dst + (c + rest.n) = omega (arith, rest_of) in
          inr (
            d,
            omega arith,
            sym (moved-translate (dst + (c + rest.n)))
                ∙ ap (λ x. translate moved pt x) (sym place)
                ∙ missing,
          )
    ]

    pub CopiedOut-step : CopiedOut P role ps k pt dst src len r
    CopiedOut-step = record {
      n = c + rest.n;
      done = rest.done;
      after = rest.after;
      run = same_run ∙ rest.run;
      inv = rest.inv;
      views = λ q va h. rest.views q va h ∙ moved_views q va h;
      reached = all_reached;
      copied = all_copied;
      others = all_others;
      ending = all_ending;
    }
