-- ===== src/Proc/Access/Marks.antt =====
-- What the rounds of `pgaccess` for a range of pages add up to.
use Prim.Native.Nat.{bit_or}
use my_os_proj.Base.{
  ℕ, suc, ◌+◌, ◌*◌, ◌/◌, ◌%◌, ◌^◌, ◌<◌, ◌≤◌, ◌≡◌, ◌≢◌, ◌⊎◌, inl, inr, refl, sym, ◌∙◌, ap, subst,
  arith, Bool, true, false, List, if◌then◌else◌, ◌&&◌, ◌==◌, leb, ltb, Bool-cases, ℕ_discrete,
}
use my_os_proj.Base.Bits.{bit, bit-bit_or, bit-pow}
use my_os_proj.Memory.{Memory, load64}
use my_os_proj.Kernel.{Platform, Kernel, maxva}
use my_os_proj.Pte.{is_accessed}
use my_os_proj.Paging.{Roles, used, root, Inv, view, slot}
use my_os_proj.Proc.Access.Round.{Round, unaccessed, int_bit-pow, view_page}

-- The page `j` of the range that starts at `va`, and the address spaces when `n` of its pages from
-- the page `i` on have lost their accessed bits.
abbrev pub in_range : (va i n x : ℕ) → Bool
in_range va i n x = leb (va / 4096 + i) (x / 4096) && ltb (x / 4096) (va / 4096 + i + n)

abbrev pub forgotten : (m : Memory) (pt va i n : ℕ) → (q x : ℕ) → ℕ
forgotten m pt va i n q x =
    if (q == pt) && in_range va i n x then unaccessed (view m q x) else view m q x

-- The bit `j` of the answer, after the pages from `i` to `i + n`.
abbrev pub reported : (m : Memory) (pt va i n old j : ℕ) → ℕ
reported m pt va i n old j =
    if (leb i j && ltb j (i + n)) && is_accessed (view m pt (va + 4096 * j)) then 1 else bit old j

pub record Reported (P : Platform) (role : Roles) (ps : List ℕ) (pt va mask i n : ℕ)
    (k after : Kernel) : Type 0 where
  pub inv : Inv P role ps after
  pub bytes :
      (p x : ℕ)
      → role p ≡ used
      → p % 4096 ≡ 0
      → p ≤ x
      → x < p + 4096
      → (x < mask) ⊎ (mask + 8 ≤ x)
      → after.mem x ≡ k.mem x
  pub views :
      (q x : ℕ) → role q ≡ root → x < maxva → view after.mem q x ≡ forgotten k.mem pt va i n q x
  pub bits :
      (j : ℕ) → bit (load64 after.mem mask) j ≡ reported k.mem pt va i n (load64 k.mem mask) j

-- Every page of the range has a page table.
pub record Tables (m : Memory) (pt va i n : ℕ) : Type 0 where
  pub low : va + 4096 * (i + n) ≤ maxva
  pub there : (j : ℕ) → i ≤ j → j < i + n → slot m pt (va + 4096 * j) ≢ 0
  pub short : (j : ℕ) → i ≤ j → j < i + n → view m pt (va + 4096 * j) < 2 ^ 64

pub no_and : (b : Bool) → (b && false) ≡ false
no_and true = refl
no_and false = refl

module _ {P : Platform} {role : Roles} {ps : List ℕ} {k after : Kernel} (pt va mask i n : ℕ)
    (is_root : role pt ≡ root) (r : Round P role ps pt mask (va + 4096 * i) i k after)
    (t : Tables k.mem pt va i (suc n)) (small : i < 31) where
  later_view :
      (j : ℕ)
      → suc i ≤ j
      → j < suc i + n
      → view after.mem pt (va + 4096 * j) ≡ view k.mem pt (va + 4096 * j)
  later_view j lo hi =
      let other : ((va + 4096 * j) / 4096 == (va + 4096 * i) / 4096) ≡ false = ground arith in
      r.views pt (va + 4096 * j) is_root (omega (arith, t.low)) ∙ ground arith

  pub rest-Tables : Tables after.mem pt va (suc i) n
  rest-Tables = record {
    low = omega (arith, t.low);
    there = λ j lo hi z.
        t.there j (omega arith) (omega arith) (sym (r.slots pt (va + 4096 * j) is_root) ∙ z);
    short = λ j lo hi.
        subst (λ e. e < 2 ^ 64) (sym (later_view j lo hi)) (t.short j (omega arith) (omega arith));
  }

  first_view :
      (q x : ℕ)
      → role q ≡ root
      → x < maxva
      → forgotten after.mem pt va (suc i) n q x ≡ forgotten k.mem pt va i (suc n) q x
  first_view q x e low = elim (Bool-cases ((q == pt) && (x / 4096 == (va + 4096 * i) / 4096))) [
    | inl here ↦
        let table_eq : q ≡ pt = ground (arith, here) in
        let page : x / 4096 ≡ (va + 4096 * i) / 4096 = ground (arith, here) in
        let not_later : ((q == pt) && in_range va (suc i) n x) ≡ false = ground (arith, page) in
        let inside : ((q == pt) && in_range va i (suc n) x) ≡ true =
          ground (arith, page, table_eq) in
        let same : view k.mem q x ≡ view k.mem pt (va + 4096 * i) =
          ap (λ y. view k.mem y x) table_eq ∙ view_page k.mem pt x (va + 4096 * i) page in
        rw (not_later, inside)
          (r.views q x e low ∙ rw here refl ∙ ap (λ w. unaccessed w) (sym same))
    | inr other ↦
        let range : ((q == pt) && in_range va (suc i) n x)
            ≡ ((q == pt) && in_range va i (suc n) x) =
          ground (arith, other) in
        let same : view after.mem q x ≡ view k.mem q x = r.views q x e low ∙ rw other refl in
        rw (range, same) refl
  ]

  mark :
      (j : ℕ)
      → bit (load64 after.mem mask) j ≡ (
          if (i == j) && is_accessed (view k.mem pt (va + 4096 * i))
          then 1
          else bit (load64 k.mem mask) j)
  mark j = elim (Bool-cases (is_accessed (view k.mem pt (va + 4096 * i)))) [
    | inr no_access ↦ rw (r.word, no_access) (rw (no_and (i == j)) refl)
    | inl accessed ↦
        let word : load64 after.mem mask ≡ bit_or (load64 k.mem mask) (2 ^ i) =
          r.word ∙ rw (accessed, (int_bit-pow i small).0) refl in
        rw (word, bit-bit_or j (load64 k.mem mask) (2 ^ i), bit-pow i j, accessed) (ground arith)
  ]

  first_mark :
      (j : ℕ)
      → j ≡ i
      → (if (i == j) && is_accessed (view k.mem pt (va + 4096 * i))
          then 1
          else bit (load64 k.mem mask) j)
        ≡ reported k.mem pt va i (suc n) (load64 k.mem mask) j
  first_mark j e =
      let inside : (leb i i && ltb i (i + suc n)) ≡ true = ground arith in
      let here : (i == i) ≡ true = ground arith in rw (e, inside, here) refl

  mark_later :
      (j : ℕ)
      → reported after.mem pt va (suc i) n (load64 after.mem mask) j
        ≡ reported k.mem pt va i (suc n) (load64 k.mem mask) j
  mark_later j = elim (Bool-cases (leb (suc i) j && ltb j (suc i + n))) [
    | inl later ↦
        let inside : (leb i j && ltb j (i + suc n)) ≡ true = ground (arith, later) in
        let other : (i == j) ≡ false = ground (arith, later) in
        let same = later_view j (ground (arith, later)) (ground (arith, later)) in
        let word : bit (load64 after.mem mask) j ≡ bit (load64 k.mem mask) j =
          mark j ∙ rw other refl in
        rw (later, inside, same, word) refl
    | inr out ↦ rw out (mark j) ∙ elim (ℕ_discrete i j) [
      | yes here ↦ first_mark j (sym here)
      | no apart ↦
          let outside : (leb i j && ltb j (i + suc n)) ≡ false = ground (arith, out) in
          let other : (i == j) ≡ false = ground arith in rw (outside, other) refl
    ]
  ]

  pub Reported-cons :
      {final : Kernel}
      → Reported P role ps pt va mask (suc i) n after final
      → Reported P role ps pt va mask i (suc n) k final
  Reported-cons f = record {
    inv = f.inv;
    bytes = λ p x e al lo hi out. f.bytes p x e al lo hi out ∙ r.bytes p x e al lo hi out;
    views = λ q x e low. f.views q x e low ∙ first_view q x e low;
    bits = λ j. f.bits j ∙ mark_later j;
  }
