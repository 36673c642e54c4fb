-- ===== src/Walk/Alloc.antt =====
-- `walk` with `alloc`: it adds the missing tables and changes nothing else.
use my_os_proj.Base.{
  ℕ, zero, suc, ◌+◌, ◌*◌, ◌<◌, ◌≡◌, ◌≢◌, ◌⊎◌, inl, inr, refl, ◌∙◌, ap, arith, true, false, some,
  List, [], ◌∷◌, ◌==◌, Bool-cases, lt→leb,
}
use my_os_proj.Memory.{load64}
use my_os_proj.Kernel.{Platform, Kernel, Run, ok, maxva}
use my_os_proj.Kalloc.Laws.{kalloc-cons, kalloc-nil}
use my_os_proj.Pte.{px, pte2pa, is_valid, branch}
use my_os_proj.Pte.Laws.{px-lt}
use my_os_proj.Walk.{pte_at, grow, walk_loop, walk}
use my_os_proj.Paging.{Roles, root, table, level_of, assign, Inv, slot_from}
use my_os_proj.Paging.Grow.{grown, grown_link, branch_c, grown-Inv}
use my_os_proj.Paging.Growth.{Growth, Growth-refl, Growth-trans, grown-Growth}

module _ {P : Platform} {role : Roles} {k : Kernel} where
  grow-nil : (pte : ℕ) → Inv P role [] k → grow pte true k ≡ ok 0 k
  unfolding grow
  grow-nil pte inv = rw (kalloc-nil k inv.pool)

  grow-cons :
      {c : ℕ} {ps : List ℕ} (p i : ℕ)
      → Inv P role (c ∷ ps) k
      → (grow (p + 8 * i) true k ≡ ok c (grown p i c k)) × ((c == 0) ≡ false)
  unfolding grow
  grow-cons {c} p i inv =
      let f = inv.pool.1 in
      let nonzero : (c == 0) ≡ false = ground (arith, P.kernbase-le-end, f.above) in
      (
        rw (kalloc-cons k c inv.pool.0 (omega (arith, P.kernbase-le-end, f.above)), nonzero),
        nonzero,
      )

-- The outcome of the walk: the null pointer, and then no page is left; or the entry's address.
pub record Walked (P : Platform) (role : Roles) (k : Kernel) (l q va : ℕ) (r : Run ℕ) : Type 0 where
  pub pte : ℕ
  pub after : Kernel
  pub roles : Roles
  pub pages : List ℕ
  pub run : r ≡ ok pte after
  pub growth : Growth P role k roles pages after
  pub found : ((pte ≡ 0) × (pages ≡ [])) ⊎ ((pte ≢ 0) × (pte ≡ slot_from after.mem l q va))

module _ {P : Platform} {role : Roles} {ps : List ℕ} {k : Kernel} (inv : Inv P role ps k)
    (l q va : ℕ) (e : level_of (role q) ≡ some (suc l)) where
  abbrev entry : ℕ
  entry = load64 k.mem (pte_at (suc l) q va)

  -- Through a table that is there.
  Walked-child :
      (r : Run ℕ)
      → is_valid entry ≡ true
      → Walked P role k l (pte2pa entry) va r
      → Walked P role k (suc l) q va r
  unfolding slot_from
  Walked-child r valid w = record {
    pte = w.pte;
    after = w.after;
    roles = w.roles;
    pages = w.pages;
    run = w.run;
    growth = w.growth;
    found =
        let same = w.growth.entry q (suc l) (px (suc l) va) e (px-lt (suc l) va) (inr valid) in
        rw (same, valid) w.found;
  }

module _ {P : Platform} {role : Roles} {c : ℕ} {ps : List ℕ} {k : Kernel}
    (inv : Inv P role (c ∷ ps) k) (l q va : ℕ) (e : level_of (role q) ≡ some (suc l))
    (missing : is_valid (load64 k.mem (pte_at (suc l) q va)) ≡ false) where
  -- Through a table that has just been added.
  Walked-grown :
      (r : Run ℕ)
      → Walked P (assign role c (table l q (px (suc l) va))) (grown q (px (suc l) va) c k) l c va r
      → Walked P role k (suc l) q va r
  unfolding slot_from
  Walked-grown r w =
      let i = px (suc l) va in
      let small = px-lt (suc l) va in
      let link = grown_link inv q l i e small in
      let fields = branch_c inv q l i e small in
      let level : level_of (assign role c (table l q i) q) ≡ some (suc l) =
        ground (arith, inv.listed_free c) in
      let same : load64 w.after.mem (q + 8 * i) ≡ branch c =
        w.growth.entry q (suc l) i level small (inr (rw link fields.0)) ∙ link in
      record {
        pte = w.pte;
        after = w.after;
        roles = w.roles;
        pages = w.pages;
        run = w.run;
        growth = Growth-trans (grown-Growth inv q l i e small missing) w.growth;
        found = rw (same, fields.0, fields.1) w.found;
      }

module _ {P : Platform} where
  pub walk_loop-Walked :
      (l q va : ℕ) (role : Roles) (ps : List ℕ) (k : Kernel)
      → Inv P role ps k
      → level_of (role q) ≡ some l
      → Walked P role k l q va (walk_loop l q va true k)
  unfolding walk_loop slot_from
  walk_loop-Walked zero q va role ps k inv e = record {
    pte = pte_at 0 q va;
    after = k;
    roles = role;
    pages = ps;
    run = refl;
    growth = Growth-refl inv;
    found = inr (omega (arith, inv.frames q 0 e, P.kernbase-le-end), refl);
  }
  walk_loop-Walked (suc l) q va role [] k inv e =
      elim (Bool-cases (is_valid (load64 k.mem (pte_at (suc l) q va)))) [
        | inl v ↦ rw v (
            Walked-child inv l q va e _ v (
              walk_loop-Walked l _ va role [] k inv
                (ap level_of (inv.links q l (px (suc l) va) e (px-lt (suc l) va) v))))
        | inr missing ↦
            rw (missing, grow-nil (pte_at (suc l) q va) inv)
              (record {
                pte = 0;
                after = k;
                roles = role;
                pages = [];
                run = refl;
                growth = Growth-refl inv;
                found = inl (refl, refl);
              })
      ]
  walk_loop-Walked (suc l) q va role (c ∷ ps) k inv e =
      elim (Bool-cases (is_valid (load64 k.mem (pte_at (suc l) q va)))) [
        | inl v ↦ rw v (
            Walked-child inv l q va e _ v (
              walk_loop-Walked l _ va role (c ∷ ps) k inv
                (ap level_of (inv.links q l (px (suc l) va) e (px-lt (suc l) va) v))))
        | inr missing ↦
            let i = px (suc l) va in
            let (run, nonzero) = grow-cons q i inv in
            rw (missing, run, nonzero)
              (Walked-grown inv l q va e missing _ (
                walk_loop-Walked l c va (assign role c (table l q i)) ps (grown q i c k)
                  (grown-Inv inv q l i e (px-lt (suc l) va)) (ground arith)))
      ]

  -- `walk` with `alloc`, from a root and on an address below `maxva`, ends. It returns the address
  -- of the last entry on the way down, or the null pointer, and then no free page is left. Pages in
  -- use keep their roles, valid entries and address spaces what they were, and user pages their
  -- bytes; the invariant holds again.
  pub walk-Walked :
      (pt va : ℕ) (role : Roles) (ps : List ℕ) (k : Kernel)
      → Inv P role ps k
      → role pt ≡ root
      → va < maxva
      → Walked P role k 2 pt va (walk pt va true k)
  unfolding walk
  walk-Walked pt va role ps k inv is_root low =
      rw (lt→leb maxva va low) (walk_loop-Walked 2 pt va role ps k inv (ap level_of is_root))
