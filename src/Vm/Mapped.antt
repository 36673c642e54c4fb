-- ===== src/Vm/Mapped.antt =====
-- The address space that `mappages` leaves, and how the pages of a range add up.
use my_os_proj.Base.{
  ℕ, suc, ◌+◌, ◌-◌, ◌*◌, ◌/◌, ◌%◌, ◌^◌, ◌<◌, ◌≤◌, ◌≡◌, ◌≢◌, ◌⊎◌, inl, inr, sym, ◌∙◌, ap, subst,
  arith, Bool, true, false, List, [], if◌then◌else◌, ◌&&◌, leb, ltb, ◌==◌, Bool-cases,
}
use my_os_proj.Memory.{Memory, load64}
use my_os_proj.Kernel.{Platform, Kernel, Run, ok, Cmd, pure, maxva}
use my_os_proj.Pte.{is_valid, leaf}
use my_os_proj.Pte.Laws.{leaf_fields}
use my_os_proj.Walk.Alloc.{walk-Walked}
use my_os_proj.Paging.{Roles, free, used, root, level_of, Inv, view}
use my_os_proj.Paging.Growth.{Growth}
use my_os_proj.Paging.Leaf.{written}
use my_os_proj.Vm.{map_page}
use my_os_proj.Vm.Step.{Space, with_page, found_entry, written-Space}

-- The address spaces with `n` pages mapped from `a` below the root `pt`, to the addresses from
-- `pa`.
abbrev pub mapped : (m : Memory) (pt a n pa perm : ℕ) → (q va : ℕ) → ℕ
mapped m pt a n pa perm q va =
    if (q == pt) && (leb a va && ltb va (a + 4096 * n))
    then leaf (pa + (va / 4096 * 4096 - a)) perm
    else view m q va

-- No page of the range is mapped.
abbrev pub Unmapped : (m : Memory) (pt a n : ℕ) → Type 0
Unmapped m pt a n = (va : ℕ) → a ≤ va → va < a + 4096 * n → is_valid (view m pt va) ≡ false

-- The outcome: `n` of the `count` pages are mapped and all else is as before; of the free pages,
-- some may be tables now. The result is 0 if these are all of them; it is -1 if fewer are, and then
-- no free page is left.
pub record MapResult (P : Platform) (role : Roles) (k : Kernel) (pt a count pa perm : ℕ)
    (r : Run Bool) : Type 0 where
  pub n : ℕ
  pub done : Bool
  pub after : Kernel
  pub roles : Roles
  pub pages : List ℕ
  pub run : r ≡ ok done after
  pub space : Space P role k (mapped k.mem pt a n pa perm) roles pages after
  pub unused : (x : ℕ) → role x ≡ free → roles x ≢ used
  pub ending : ((done ≡ true) × (n ≡ count)) ⊎ ((done ≡ false) × (n < count) × (pages ≡ []))

module _ {P : Platform} {role : Roles} {ps : List ℕ} {k : Kernel} (inv : Inv P role ps k)
    (pt a last pa perm : ℕ) (is_root : role pt ≡ root) (low : a < maxva)
    (unmapped : is_valid (view k.mem pt a) ≡ false) (next : Cmd Bool) where
  -- A round without memory.
  pub record Starved : Type 0 where
    pub after : Kernel
    pub roles : Roles
    pub run : map_page pt a last pa perm next k ≡ ok false after
    pub growth : Growth P role k roles [] after

  -- A round that maps the page.
  pub record Entered : Type 0 where
    pub after : Kernel
    pub roles : Roles
    pub pages : List ℕ
    pub run : map_page pt a last pa perm next k ≡ (if a == last then pure true else next) after
    pub space : Space P role k (with_page k.mem pt a (leaf pa perm)) roles pages after
    pub unused : (x : ℕ) → role x ≡ free → roles x ≢ used

  pub map_page-round : pa < 2 ^ 56 → pa % 4096 ≡ 0 → perm < 1024 → Starved ⊎ Entered
  unfolding map_page
  map_page-round short al flags =
      let w = walk-Walked pt a role ps k inv is_root low in
      let fits = (leaf_fields pa perm short al flags).2 in
      elim w.found [
        | inl (null, none_left) ↦ inl (record {
          after = w.after;
          roles = w.roles;
          run = rw (w.run, null);
          growth = subst (λ x. Growth P role k w.roles x w.after) none_left w.growth;
        })
        | inr (ne, there) ↦
            let nonzero : (w.pte == 0) ≡ false = ground arith in
            let clear : is_valid (load64 w.after.mem w.pte) ≡ false =
              ap (λ e. is_valid e) (found_entry w is_root low (leaf pa perm) fits there ne)
              ∙ unmapped in
            inr (record {
              after = written w.pte (leaf pa perm) w.after;
              roles = w.roles;
              pages = w.pages;
              run = rw (w.run, nonzero, clear);
              space = written-Space w is_root low (leaf pa perm) fits there ne;
              unused = w.growth.unused;
            })
      ]

-- Nothing is mapped yet.
pub Space-none :
    {P : Platform} {role roles : Roles} {k after : Kernel} {pages : List ℕ} (pt a pa perm : ℕ)
    → Growth P role k roles pages after
    → Space P role k (mapped k.mem pt a 0 pa perm) roles pages after
Space-none {k} pt a pa perm g = record {
  inv = g.inv;
  keeps = g.keeps;
  bytes = g.bytes;
  views = λ q va e low. g.views 2 q va (ap level_of e) ∙ ground arith;
}

-- One page, and the pages behind it.
pub Space-one :
    {P : Platform} {role roles : Roles} {k after : Kernel} {pages : List ℕ} (pt a pa perm : ℕ)
    → a % 4096 ≡ 0
    → Space P role k (with_page k.mem pt a (leaf pa perm)) roles pages after
    → Space P role k (mapped k.mem pt a 1 pa perm) roles pages after
Space-one {k} pt a pa perm al s = record {
  inv = s.inv;
  keeps = s.keeps;
  bytes = s.bytes;
  views = λ q va e low. s.views q va e low ∙ ground arith;
}

pub mapped-suc :
    (m g : Memory) (pt a n pa perm q va : ℕ)
    → a % 4096 ≡ 0
    → view g q va ≡ with_page m pt a (leaf pa perm) q va
    → mapped g pt (a + 4096) n (pa + 4096) perm q va ≡ mapped m pt a (suc n) pa perm q va
mapped-suc m g pt a n pa perm q va al e = elim (Bool-cases (va / 4096 == a / 4096)) [
  | inl here ↦
      let off : pa + (va / 4096 * 4096 - a) ≡ pa = ground arith in
      let before : leb (a + 4096) va ≡ false = ground arith in
      rw (e, here, before, off) (ground arith)
  | inr there ↦
      elim (Bool-cases ((q == pt) && (leb (a + 4096) va && ltb va (a + 4096 + 4096 * n)))) [
        | inl inside ↦
            let off : pa + 4096 + (va / 4096 * 4096 - (a + 4096)) ≡ pa + (va / 4096 * 4096 - a) =
              ground arith in
            rw (inside, off) (ground arith)
        | inr outside ↦ rw (outside, e, there) (ground arith)
      ]
]

pub Space-cons :
    {P : Platform} {role role1 role2 : Roles} {k k1 k2 : Kernel} {ps1 ps2 : List ℕ}
    (pt a n pa perm : ℕ)
    → a % 4096 ≡ 0
    → Space P role k (with_page k.mem pt a (leaf pa perm)) role1 ps1 k1
    → Space P role1 k1 (mapped k1.mem pt (a + 4096) n (pa + 4096) perm) role2 ps2 k2
    → Space P role k (mapped k.mem pt a (suc n) pa perm) role2 ps2 k2
Space-cons {k} {k1} pt a n pa perm al s t = record {
  inv = t.inv;
  keeps = λ x e. t.keeps x (λ f. e (sym (s.keeps x e) ∙ f)) ∙ s.keeps x e;
  bytes = λ p x e b lo hi. t.bytes p x (s.keeps p (λ f. cc) ∙ e) b lo hi ∙ s.bytes p x e b lo hi;
  views = λ q va e low.
      t.views q va (s.keeps q (λ f. cc) ∙ e) low
      ∙ mapped-suc k.mem k1.mem pt a n pa perm q va al (s.views q va e low);
}
