-- ===== src/Proc/Access/Round.antt =====
-- One round of the loop of `pgaccess`.
use Prim.Native.Nat.{bit_or}
use native.Mathlib.Nat.{pow-le-pow_right}
use my_os_proj.Base.{
  ℕ, ◌+◌, ◌-◌, ◌/◌, ◌%◌, ◌^◌, ◌<◌, ◌≤◌, ◌≡◌, ◌≢◌, ◌⊎◌, inl, inr, refl, sym, ◌∙◌, ap, subst, arith,
  true, false, List, if◌then◌else◌, ◌&&◌, ◌==◌, Bool-cases,
}
use my_os_proj.Base.Bits.{bit_or-lt}
use my_os_proj.Memory.{Memory, load64, store64}
use my_os_proj.Memory.Words.{load64_cong, load64-store64_self, store64-SameOutside, SameOutside}
use my_os_proj.Kernel.{Platform, Kernel, ok, maxva}
use my_os_proj.Kalloc.FreeList.{IsFrame}
use my_os_proj.Pte.{px, is_accessed}
use my_os_proj.Pte.Laws.{px-lt, px_of_page}
use my_os_proj.Walk.{walk}
use my_os_proj.Walk.Alloc.{Walked}
use my_os_proj.Walk.Lookup.{walk-slot}
use my_os_proj.Paging.{Roles, used, root, level_of, Inv, view_from, view, slot}
use my_os_proj.Paging.Slots.{view_from-slot_from, Home, slot_from-Home}
use my_os_proj.Paging.Growth.{Growth-refl}
use my_os_proj.Paging.User.{changed-Inv, view_from-changed}
use my_os_proj.Paging.Plain.{slot_from-plain}
use my_os_proj.Paging.Leaf.{written, slot_from-written}
use my_os_proj.Vm.Step.{Space, with_page, written-Space}
use my_os_proj.Proc.Access.{int_bit, record_access}

-- An entry without its accessed bit.
abbrev pub unaccessed : ℕ → ℕ
unaccessed e = if is_accessed e then e - 2 ^ 6 else e

-- What a round for the page of `a` does: it clears the accessed bit of the entry, and sets the bit
-- `i` of the word at `mask` if that was set; tables and other user memory stay.
pub record Round (P : Platform) (role : Roles) (ps : List ℕ) (pt mask a i : ℕ) (k after : Kernel)
    : Type 0 where
  pub inv : Inv P role ps after
  pub bytes :
      (p x : ℕ)
      → role p ≡ used
      → p % 4096 ≡ 0
      → p ≤ x
      → x < p + 4096
      → (x < mask) ⊎ (mask + 8 ≤ x)
      → after.mem x ≡ k.mem x
  pub views :
      (q x : ℕ)
      → role q ≡ root
      → x < maxva
      → view after.mem q x ≡ with_page k.mem pt a (unaccessed (view k.mem pt a)) q x
  pub slots : (q x : ℕ) → role q ≡ root → slot after.mem q x ≡ slot k.mem q x
  pub word : load64 after.mem mask ≡ (
      if is_accessed (view k.mem pt a)
      then bit_or (load64 k.mem mask) (int_bit i)
      else load64 k.mem mask)

-- On the first 31 pages the bit is that of the page.
pub int_bit-pow : (i : ℕ) → i < 31 → (int_bit i ≡ 2 ^ i) × (2 ^ i < 2 ^ 31)
int_bit-pow i h =
    let small : 2 ^ i ≤ 2 ^ 30 = pow-le-pow_right (omega arith) {i = i} {j = 30} (omega arith) in
    let same : i % 32 ≡ i = omega arith in (rw same (ground arith), omega arith)

-- An entry depends on the page of the address.
pub view_page : (m : Memory) (q x a : ℕ) → x / 4096 ≡ a / 4096 → view m q x ≡ view m q a
unfolding view_from
view_page m q x a e = let (e0, e1, e2) = px_of_page x a e in rw (e0, e1, e2)

with_page_same : (m : Memory) (pt a q x : ℕ) → view m q x ≡ with_page m pt a (view m pt a) q x
with_page_same m pt a q x = elim (Bool-cases ((q == pt) && (x / 4096 == a / 4096))) [
  | inr other ↦ rw other refl
  | inl same ↦
      let table_eq : q ≡ pt = ground (arith, same) in
      let page : x / 4096 ≡ a / 4096 = ground (arith, same) in
      rw (same, table_eq) (view_page m pt x a page)
]

module _ {P : Platform} {role : Roles} {ps : List ℕ} (pt mask page : ℕ) (is_root : role pt ≡ root)
    (in_use : role page ≡ used) (frame : IsFrame P page) (lo : page ≤ mask)
    (hi : mask + 8 ≤ page + 4096) {k : Kernel} (inv : Inv P role ps k) (a i : ℕ) (low : a < maxva)
    (there : slot k.mem pt a ≢ 0) where
  -- A page that was not accessed.
  pub same-Round : is_accessed (view k.mem pt a) ≡ false → Round P role ps pt mask a i k k
  same-Round not_accessed = record {
    inv = inv;
    bytes = λ p x e al p_lo p_hi out. refl;
    views = λ q x e x_low. rw not_accessed (with_page_same k.mem pt a q x);
    slots = λ q x e. refl;
    word = rw not_accessed refl;
  }

  -- The memory with the bit set.
  abbrev marked : Memory
  marked = store64 k.mem mask (bit_or (load64 k.mem mask) (int_bit i))

  marked_byte : (x : ℕ) → (x < mask) ⊎ (mask + 8 ≤ x) → marked x ≡ k.mem x
  unfolding store64
  marked_byte x out = ground arith

  marked-SameOutside : SameOutside page k.mem marked
  marked-SameOutside =
      store64-SameOutside k.mem page mask (bit_or (load64 k.mem mask) (int_bit i)) lo hi

  abbrev k₁ : Kernel
  k₁ = record k { mem = marked }

  inv₁ : Inv P role ps k₁
  inv₁ = changed-Inv inv page in_use frame marked marked-SameOutside

  view₁ : (q x : ℕ) → role q ≡ root → view marked q x ≡ view k.mem q x
  view₁ q x e =
      view_from-changed inv page in_use frame marked marked-SameOutside 2 q x (ap level_of e)

  slot₁ : (q x : ℕ) → role q ≡ root → slot marked q x ≡ slot k.mem q x
  slot₁ q x e =
      slot_from-plain inv page (ap level_of in_use) frame marked marked-SameOutside 2 q x
        (ap level_of e)

  abbrev found₁ : Walked P role k₁ 2 pt a (walk pt a false k₁)
  found₁ = record {
    pte = slot k.mem pt a;
    after = k₁;
    roles = role;
    pages = ps;
    run = walk-slot pt a k₁ low ∙ ap (λ s. ok s k₁) (slot₁ pt a is_root);
    growth = Growth-refl inv₁;
    found = inr (there, sym (slot₁ pt a is_root));
  }

  home₁ : Home inv₁ a (slot marked pt a)
  home₁ =
      slot_from-Home inv₁ 2 pt a (ap level_of is_root) (λ z. there (sym (slot₁ pt a is_root) ∙ z))

  entry₁ : load64 marked (slot k.mem pt a) ≡ view k.mem pt a
  entry₁ =
      ap (load64 marked) (sym (slot₁ pt a is_root))
      ∙ sym (view_from-slot_from marked 2 pt a (λ z. there (sym (slot₁ pt a is_root) ∙ z)))
      ∙ view₁ pt a is_root

  -- The state when the accessed bit of the entry is cleared as well.
  abbrev pub cleared : Kernel
  cleared = written (slot k.mem pt a) (view k.mem pt a - 2 ^ 6) k₁

  module _ (accessed : is_accessed (view k.mem pt a) ≡ true) (short : view k.mem pt a < 2 ^ 64)
      (word_short : load64 k.mem mask < 2 ^ 64) (small : i < 31) where
    space : Space P role k₁ (with_page marked pt a (view k.mem pt a - 2 ^ 6)) role ps cleared
    space =
        written-Space found₁ is_root low (view k.mem pt a - 2 ^ 6) (omega arith)
          (sym (slot₁ pt a is_root)) there

    same_slots : (q x : ℕ) → role q ≡ root → slot cleared.mem q x ≡ slot k.mem q x
    same_slots q x e =
        subst (λ y. slot (written y (view k.mem pt a - 2 ^ 6) k₁).mem q x ≡ slot marked q x)
          (sym home₁.place ∙ slot₁ pt a is_root)
          (slot_from-written inv₁ home₁.page (px 0 a) (view k.mem pt a - 2 ^ 6) home₁.level
            (px-lt 0 a) 2 q x (ap level_of e))
        ∙ slot₁ q x e

    pub word_fits : bit_or (load64 k.mem mask) (int_bit i) < 2 ^ 64
    word_fits =
        bit_or-lt 64 (load64 k.mem mask) (int_bit i) word_short
          (let (e, b) = int_bit-pow i small in omega (arith, e, b))

    pub clear-Round : Round P role ps pt mask a i k cleared
    clear-Round = record {
      inv = space.inv;
      bytes = λ p x e al p_lo p_hi out. space.bytes p x e al p_lo p_hi ∙ marked_byte x out;
      views = λ q x e x_low. space.views q x e x_low ∙ rw (view₁ q x e, accessed) refl;
      slots = same_slots;
      word =
          load64_cong marked cleared.mem mask
            (λ j h. space.bytes page (mask + j) in_use frame.aligned (omega arith) (omega arith))
          ∙ load64-store64_self k.mem mask (bit_or (load64 k.mem mask) (int_bit i)) word_fits
          ∙ rw accessed refl;
    }

    -- The two stores of the round.
    pub cleared-eq : record k { mem = record_access i (slot k.mem pt a) mask k.mem } ≡ cleared
    unfolding record_access
    cleared-eq = rw (entry₁, accessed) refl
