-- ===== src/Paging/Growth.antt =====
-- How the kernel's state may change while page tables are added: what stays as it was.
use my_os_proj.Base.{
  ℕ, suc, ◌+◌, ◌*◌, ◌%◌, ◌<◌, ◌≤◌, ◌≡◌, ◌≢◌, ◌⊎◌, inl, inr, refl, sym, ◌∙◌, ap, arith, true, false,
  some, List, ◌∷◌, ℕ_discrete,
}
use my_os_proj.Memory.{load64}
use my_os_proj.Memory.Words.{memset-SameOutside, store64-SameOutside}
use my_os_proj.Kernel.{Platform, Kernel}
use my_os_proj.Pte.{is_valid, branch}
use my_os_proj.Paging.{Role, Roles, free, used, root, table, level_of, assign, Inv, view_from}
use my_os_proj.Paging.Grow.{grown, grown_entry, grown-Inv, view_from-grown}

-- From `role` and `k` to `role'` and `k'` free pages may have become tables, and nothing else.
-- Pages in use keep their roles, valid entries and leaf entries their values, address spaces their
-- contents, and user pages their bytes.
pub record Growth (P : Platform) (role : Roles) (k : Kernel) (role' : Roles) (ps' : List ℕ)
    (k' : Kernel) : Type 0 where
  pub inv : Inv P role' ps' k'
  pub keeps : (x : ℕ) → role x ≢ free → role' x ≡ role x
  pub unused : (x : ℕ) → role x ≡ free → role' x ≢ used
  pub entry :
      (q l j : ℕ)
      → level_of (role q) ≡ some l
      → j < 512
      → (l ≡ 0) ⊎ (is_valid (load64 k.mem (q + 8 * j)) ≡ true)
      → load64 k'.mem (q + 8 * j) ≡ load64 k.mem (q + 8 * j)
  pub views :
      (l q va : ℕ) → level_of (role q) ≡ some l → view_from k'.mem l q va ≡ view_from k.mem l q va
  pub bytes : (p x : ℕ) → role p ≡ used → p % 4096 ≡ 0 → p ≤ x → x < p + 4096 → k'.mem x ≡ k.mem x

pub level-ne-free : {r : Role} {l : ℕ} → level_of r ≡ some l → r ≢ free
level-ne-free {r} e f = cc (ap level_of f)

pub Role_cases : (r : Role) → (r ≡ free) ⊎ (r ≢ free)
Role_cases free = inl refl
Role_cases used = inr (λ e. cc)
Role_cases root = inr (λ e. cc)
Role_cases (table l p i) = inr (λ e. cc)

-- A free page that is not taken in two steps.
pub unused_trans :
    {role role1 role2 : Roles}
    → ((x : ℕ) → role x ≢ free → role1 x ≡ role x)
    → ((x : ℕ) → role x ≡ free → role1 x ≢ used)
    → ((x : ℕ) → role1 x ≢ free → role2 x ≡ role1 x)
    → ((x : ℕ) → role1 x ≡ free → role2 x ≢ used)
    → (x : ℕ) → role x ≡ free
    → role2 x ≢ used
unused_trans {role1} keeps unused keeps' unused' x e u = elim (Role_cases (role1 x)) [
  | inl f ↦ unused' x f u
  | inr ne ↦ unused x e (sym (keeps' x ne) ∙ u)
]

module _ {P : Platform} {role : Roles} {k : Kernel} where
  pub Growth-refl : {ps : List ℕ} → Inv P role ps k → Growth P role k role ps k
  Growth-refl inv = record {
    inv = inv;
    keeps = λ x e. refl;
    unused = λ x e u. cc;
    entry = λ q l j e h v. refl;
    views = λ l q va e. refl;
    bytes = λ p x e al lo hi. refl;
  }

  pub Growth-trans :
      {role1 role2 : Roles} {ps1 ps2 : List ℕ} {k1 k2 : Kernel}
      → Growth P role k role1 ps1 k1
      → Growth P role1 k1 role2 ps2 k2
      → Growth P role k role2 ps2 k2
  Growth-trans {role1} g h = record {
    inv = h.inv;
    keeps = λ x e. h.keeps x (λ f. e (sym (g.keeps x e) ∙ f)) ∙ g.keeps x e;
    unused = λ x e. unused_trans g.keeps g.unused h.keeps h.unused x e;
    entry = λ q l j e small v.
        let same = g.entry q l j e small v in
        h.entry q l j (level1 q l e) small (ground arith) ∙ same;
    views = λ l q va e. h.views l q va (level1 q l e) ∙ g.views l q va e;
    bytes =
        λ p x e al lo hi. h.bytes p x (g.keeps p (λ f. cc) ∙ e) al lo hi ∙ g.bytes p x e al lo hi;
  }
    where
      level1 : (q l : ℕ) → level_of (role q) ≡ some l → level_of (role1 q) ≡ some l
      level1 q l e = ap level_of (g.keeps q (level-ne-free e)) ∙ e

module _ {P : Platform} {role : Roles} {ps : List ℕ} {k : Kernel} {c : ℕ}
    (inv : Inv P role (c ∷ ps) k) (p l i : ℕ) (level : level_of (role p) ≡ some (suc l))
    (small : i < 512) (missing : is_valid (load64 k.mem (p + 8 * i)) ≡ false) where
  listed : role c ≡ free
  listed = inv.listed_free c (ground arith)

  grown_bytes :
      (q x : ℕ)
      → role q ≡ used
      → q % 4096 ≡ 0
      → q ≤ x
      → x < q + 4096
      → (grown p i c k).mem x ≡ k.mem x
  grown_bytes q x e al lo hi =
      let fc = inv.pool.1 in
      let fp = inv.frames p (suc l) level in
      let apart : q ≢ c = λ same. cc (ap role same, listed) in
      let apart' : q ≢ p = λ same. cc (ap (λ y. level_of (role y)) same, ap level_of e) in
      store64-SameOutside _ p (p + 8 * i) (branch c) (omega arith) (omega arith) x
        (omega (arith, fp.aligned))
      ∙ memset-SameOutside _ c 0 x (omega (arith, fc.aligned))
      ∙ memset-SameOutside k.mem c 5 x (omega (arith, fc.aligned))

  entry_ne :
      (q l' j : ℕ)
      → level_of (role q) ≡ some l'
      → (l' ≡ 0) ⊎ (is_valid (load64 k.mem (q + 8 * j)) ≡ true)
      → (q ≢ p) ⊎ (j ≢ i)
  entry_ne q l' j e v = elim (ℕ_discrete q p) [
    | no ne ↦ inl ne
    | yes same ↦ elim (ℕ_discrete j i) [
      | no ne ↦ inr ne
      | yes same' ↦ elim v [
        | inl zero_level ↦ cc (ap (λ y. level_of (role y)) same, zero_level)
        | inr valid ↦ cc
      ]
    ]
  ]

  pub grown-Growth : Growth P role k (assign role c (table l p i)) ps (grown p i c k)
  grown-Growth = record {
    inv = grown-Inv inv p l i level small;
    keeps = λ x e. ground (arith, listed);
    unused = λ x e u. ground (arith, listed);
    entry = λ q l' j e h v. grown_entry inv p l i level small q l' j e h (entry_ne q l' j e v);
    views = view_from-grown inv p l i level small missing;
    bytes = grown_bytes;
  }
