-- ===== src/Paging/Grow.antt =====
-- Entering a new page table: the step of `walk` with `alloc`, on memory, roles and address spaces.
use my_os_proj.Base.{
  ℕ, zero, suc, ◌+◌, ◌*◌, ◌^◌, ◌<◌, ◌≤◌, ◌≡◌, ◌≢◌, ◌⊎◌, inl, inr, ◌∙◌, ap, subst, arith, true,
  false, some, List, ◌∷◌, ◌∈◌, ◌==◌, ==_iff, Bool-cases, ℕ_discrete,
}
use my_os_proj.Memory.{load64, store64, memset}
use my_os_proj.Memory.Words.{
  load64-store64_self, load64-store64_ne, load64-memset_out, load64-memset_zero,
}
use my_os_proj.Kernel.{Platform, Kernel, page_size}
use my_os_proj.Kalloc.FreeList.{IsFrame, FreeList, Chain-frame, IsFrame-mem, ne_of_mem}
use my_os_proj.Pte.{px, pte2pa, is_valid, branch}
use my_os_proj.Pte.Laws.{px-lt, branch_fields}
use my_os_proj.Walk.{pte_at}
use my_os_proj.Paging.{Roles, free, table, level_of, assign, Inv, view_from}

-- The state after page `c` has been taken, cleared and entered at entry `i` of table `p`.
abbrev pub grown : ℕ → ℕ → ℕ → Kernel → Kernel
grown p i c k = record {
  mem = store64 (memset (memset k.mem c 5 page_size) c 0 page_size) (p + 8 * i) (branch c);
  freelist = load64 k.mem c;
}

module _ {P : Platform} {role : Roles} {ps : List ℕ} {k : Kernel} {c : ℕ}
    (inv : Inv P role (c ∷ ps) k) (p l i : ℕ) (level : level_of (role p) ≡ some (suc l))
    (small : i < 512) where
  open inv use {pool, free_listed, listed_free, frames, links}

  c-IsFrame : IsFrame P c
  c-IsFrame = pool.1

  c_free : role c ≡ free
  c_free = listed_free c (ground arith)

  -- A table is not the free page.
  table_ne : (q l' : ℕ) → level_of (role q) ≡ some l' → q ≢ c
  table_ne q l' e same = cc (c_free, ap role same)

  grown_other :
      (a : ℕ)
      → (a + 8 ≤ c) ⊎ (c + 4096 ≤ a)
      → (p + 8 * i + 8 ≤ a) ⊎ (a + 8 ≤ p + 8 * i)
      → load64 (grown p i c k).mem a ≡ load64 k.mem a
  grown_other a off_page off_entry =
      load64-store64_ne _ (p + 8 * i) a (branch c) off_entry
      ∙ load64-memset_out _ c 0 page_size a off_page
      ∙ load64-memset_out k.mem c 5 page_size a off_page

  -- An entry of a table, other than the new one, is as before.
  pub grown_entry :
      (q l' j : ℕ)
      → level_of (role q) ≡ some l'
      → j < 512
      → (q ≢ p) ⊎ (j ≢ i)
      → load64 (grown p i c k).mem (q + 8 * j) ≡ load64 k.mem (q + 8 * j)
  grown_entry q l' j e hj ne =
      let f = frames q l' e in
      let fp = frames p (suc l) level in
      let apart = table_ne q l' e in
      grown_other (q + 8 * j) (omega (arith, c-IsFrame)) (omega arith)

  pub grown_new : (j : ℕ) → j < 512 → load64 (grown p i c k).mem (c + 8 * j) ≡ 0
  grown_new j hj =
      let fp = frames p (suc l) level in
      let apart = table_ne p (suc l) level in
      load64-store64_ne _ (p + 8 * i) (c + 8 * j) (branch c) (omega (arith, c-IsFrame))
      ∙ load64-memset_zero _ c page_size (c + 8 * j) (omega arith) (omega arith)

  pub branch_c : (is_valid (branch c) ≡ true) × (pte2pa (branch c) ≡ c) × (branch c < 2 ^ 64)
  branch_c = branch_fields c (omega (arith, c-IsFrame, P.phystop-le)) c-IsFrame.aligned

  pub grown_link : load64 (grown p i c k).mem (p + 8 * i) ≡ branch c
  grown_link = load64-store64_self _ (p + 8 * i) (branch c) branch_c.2

  abbrev pub role' : Roles
  role' = assign role c (table l p i)

  grown-pool : FreeList P (grown p i c k) ps
  grown-pool = Chain-frame P k.mem (grown p i c k).mem (load64 k.mem c) ps spared pool.3
    where
      spared : (q : ℕ) → q ∈ ps → load64 (grown p i c k).mem q ≡ load64 k.mem q
      spared q m =
          let f = IsFrame-mem P k.mem (load64 k.mem c) ps q pool.3 m in
          let fp = frames p (suc l) level in
          let ne = ne_of_mem P ps c q pool.2 m in
          let not_p : q ≢ p = λ e. cc (ap role e, listed_free q (ground arith)) in
          grown_other q (omega (arith, c-IsFrame)) (omega arith)

  grown-frames : (q l' : ℕ) → level_of (role' q) ≡ some l' → IsFrame P q
  grown-frames q l' e = elim (Bool-cases (c == q)) [
    | inl new ↦ subst (IsFrame P) ((==_iff c q).0 new) c-IsFrame
    | inr old ↦ frames q l' (rw old at e)
  ]

  -- The links of the new table, of the entry that leads to it, and of the others.
  links_new :
      (q l' j : ℕ) → c ≡ q → j < 512 → is_valid (load64 (grown p i c k).mem (q + 8 * j)) ≡ false
  links_new q l' j e hj = rw (← e, grown_new j hj)

  links_here :
      (l' : ℕ)
      → level_of (role p) ≡ some (suc l')
      → role' (pte2pa (load64 (grown p i c k).mem (p + 8 * i))) ≡ table l' p i
  links_here l' e = rw (grown_link, branch_c.1) (ground arith)

  links_old :
      (q l' j : ℕ)
      → level_of (role q) ≡ some (suc l')
      → j < 512
      → (q ≢ p) ⊎ (j ≢ i)
      → is_valid (load64 (grown p i c k).mem (q + 8 * j)) ≡ true
      → role' (pte2pa (load64 (grown p i c k).mem (q + 8 * j))) ≡ table l' q j
  links_old q l' j e hj ne =
      rw (grown_entry q (suc l') j e hj ne)
        (λ v. let old = links q l' j e hj v in ground (arith, c_free))

  grown-links :
      (q l' j : ℕ)
      → level_of (role' q) ≡ some (suc l')
      → j < 512
      → is_valid (load64 (grown p i c k).mem (q + 8 * j)) ≡ true
      → role' (pte2pa (load64 (grown p i c k).mem (q + 8 * j))) ≡ table l' q j
  grown-links q l' j e hj v = elim (Bool-cases (c == q)) [
    | inl new ↦ absurd (cc (links_new q l' j ((==_iff c q).0 new) hj))
    | inr old ↦
        let e' : level_of (role q) ≡ some (suc l') = rw old at e in
        elim (ℕ_discrete q p) [
          | no ne ↦ links_old q l' j e' hj (inl ne) v
          | yes same ↦ elim (ℕ_discrete j i) [
            | no ne ↦ links_old q l' j e' hj (inr ne) v
            | yes same' ↦ rw (same, same') (links_here l' (rw same at e'))
          ]
        ]
  ]

  pub grown-Inv : Inv P role' ps (grown p i c k)
  grown-Inv = record {
    pool = grown-pool;
    free_listed = λ q e. ground (arith, free_listed q);
    listed_free = λ q m. ground (arith, listed_free q, pool.2);
    frames = grown-frames;
    links = grown-links;
  }

  -- The new table is empty, so no address space changes.
  view_from-new : (l' va : ℕ) → view_from (grown p i c k).mem l' c va ≡ 0
  unfolding view_from
  view_from-new zero va = grown_new (px 0 va) (px-lt 0 va)
  view_from-new (suc l') va = rw (grown_new (px (suc l') va) (px-lt (suc l') va))

  module _ (missing : is_valid (load64 k.mem (p + 8 * i)) ≡ false) where
    view_here :
        (l' va : ℕ)
        → px (suc l') va ≡ i
        → view_from (grown p i c k).mem (suc l') p va ≡ view_from k.mem (suc l') p va
    unfolding view_from
    view_here l' va e = rw (e, missing, grown_link, branch_c.0, branch_c.1) (view_from-new l' va)

    view_old :
        (l' q va : ℕ)
        → level_of (role q) ≡ some (suc l')
        → (q ≢ p) ⊎ (px (suc l') va ≢ i)
        → ((t : ℕ)
            → level_of (role t) ≡ some l'
            → view_from (grown p i c k).mem l' t va ≡ view_from k.mem l' t va)
        → view_from (grown p i c k).mem (suc l') q va ≡ view_from k.mem (suc l') q va
    unfolding view_from
    view_old l' q va e ne below =
        rw (grown_entry q (suc l') (px (suc l') va) e (px-lt (suc l') va) ne)
          (elim (Bool-cases (is_valid (load64 k.mem (pte_at (suc l') q va)))) [
            | inl v ↦ rw v (
                below (pte2pa (load64 k.mem (pte_at (suc l') q va)))
                  (ap level_of (links q l' (px (suc l') va) e (px-lt (suc l') va) v)))
            | inr v ↦ rw v
          ])

    pub view_from-grown :
        (l' q va : ℕ)
        → level_of (role q) ≡ some l'
        → view_from (grown p i c k).mem l' q va ≡ view_from k.mem l' q va
    unfolding view_from
    view_from-grown zero q va e =
        grown_entry q 0 (px 0 va) e (px-lt 0 va)
          (inl (λ same. cc (ap (λ x. level_of (role x)) same)))
    view_from-grown (suc l') q va e =
        let below = λ (t : ℕ) (h : level_of (role t) ≡ some l'). view_from-grown l' t va h in
        elim (ℕ_discrete q p) [
          | no ne ↦ view_old l' q va e (inl ne) below
          | yes same ↦ elim (ℕ_discrete (px (suc l') va) i) [
            | no ne ↦ view_old l' q va e (inr ne) below
            | yes same' ↦ rw same (view_here l' va same')
          ]
        ]
