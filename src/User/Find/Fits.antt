-- ===== src/User/Find/Fits.antt =====
-- The trees on which find stays inside its array, and what it prints on them.
use my_os_proj.Base.{
  ℕ, ◌+◌, ◌≤◌, ◌≡◌, inl, inr, refl, sym, subst, ap, arith, false, List, [], ◌∷◌, ◌++◌, length, leb,
  ltb, Bool-cases,
}
use my_os_proj.User.Find.Text.{is_passed_over-text}
use my_os_proj.User.Find.{
  Node, Entries, Printed, Kind, kind_of, is_passed_over, same_text, text, dirsiz, child_path,
  length_warning, slash_overflow, name_overflow, is_overflow, determined, find, entries, visit,
}

-- The path of every directory that find reads leaves room in the 512 bytes of `buf` for a name and
-- the final 0.
unfoldable mutual
  pub Fits : (path : List ℕ) → Node → Type 0
  Fits path (Node.directory es) = (length path + 1 + dirsiz + 1 ≤ 512) × FitEntries path es
  Fits path Node.file = Unit
  Fits path Node.device = Unit
  Fits path Node.unopened = Unit
  Fits path Node.unstated = Unit
  Fits path Node.broken = Unit

  pub FitEntries : (path : List ℕ) → Entries → Type 0
  FitEntries path Entries.nil = Unit
  FitEntries path (Entries.entry inum name node es) =
      (is_passed_over inum name ≡ false → Fits (child_path path name) node) × FitEntries path es

-- No overflow among the lines.
abbrev pub IsDetermined : List Printed → Type 0
IsDetermined [] = Unit
IsDetermined (l ∷ ls) = (is_overflow l ≡ false) × IsDetermined ls

pub append-IsDetermined :
    (ls ms : List Printed) → IsDetermined ls → IsDetermined ms → IsDetermined (ls ++ ms)
append-IsDetermined [] ms h g = g
append-IsDetermined (l ∷ ls) ms (e, h) g = (e, append-IsDetermined ls ms h g)

pub determined_all : (ls : List Printed) → IsDetermined ls → determined ls ≡ ls
unfolding determined
determined_all [] h = refl
determined_all (l ∷ ls) (e, h) = rw e (ap (λ ms. l ∷ ms) (determined_all ls h))

-- Where a path has room, neither the test nor the array complains.
quiet :
    (path : List ℕ)
    → length path + 1 + dirsiz + 1 ≤ 512
    → (length_warning path ≡ []) × (slash_overflow path ≡ []) × (name_overflow path ≡ [])
quiet path h =
    let below : ltb 512 (length path + 1 + dirsiz + 1) ≡ false = ground arith in
    let short : leb 512 (length path) ≡ false = ground arith in
    (rw below refl, rw short refl, rw below refl)

visit-IsDetermined :
    (beyond path filename name : List ℕ) (kind : Kind) (inner : List Printed)
    → (kind ≡ Kind.t_dir → IsDetermined inner)
    → IsDetermined (visit beyond path filename name kind inner).0
unfolding visit
visit-IsDetermined beyond path filename name Kind.t_dir inner h = h refl
visit-IsDetermined beyond path filename name Kind.t_device inner h = tt
visit-IsDetermined beyond path filename name Kind.stat_failed inner h = (refl, tt)
visit-IsDetermined beyond path filename name Kind.t_file inner h =
    elim (Bool-cases (same_text (text beyond name) filename)) [
      | inl e ↦ rw e (refl, tt)
      | inr e ↦ rw e tt
    ]

head-IsDetermined :
    (path : List ℕ) (out : List Printed)
    → length path + 1 + dirsiz + 1 ≤ 512
    → IsDetermined out
    → IsDetermined (length_warning path ++ (slash_overflow path ++ out))
head-IsDetermined path out room h =
    let (no_warning, no_overflow, _) = quiet path room in
    subst (λ ls. IsDetermined (ls ++ (slash_overflow path ++ out))) (sym no_warning)
      (subst (λ ls. IsDetermined (ls ++ out)) (sym no_overflow) h)

added-IsDetermined :
    (path : List ℕ) (out rest : List Printed)
    → length path + 1 + dirsiz + 1 ≤ 512
    → IsDetermined out
    → IsDetermined rest
    → IsDetermined (name_overflow path ++ (out ++ rest))
added-IsDetermined path out rest room h g =
    let (_, _, no_overflow) = quiet path room in
    subst (λ ls. IsDetermined (ls ++ (out ++ rest))) (sym no_overflow)
      (append-IsDetermined out rest h g)

module _ (beyond : (path name : List ℕ) → List ℕ) where
  mutual
    unfolding find entries Fits FitEntries

    -- A directory, or what `stat` takes for one.
    pub find-IsDetermined :
        (path filename : List ℕ) (node : Node)
        → Fits path node
        → kind_of node ≡ Kind.t_dir
        → IsDetermined (find beyond path filename node).0
    find-IsDetermined path filename (Node.directory es) (room, fits) e =
        head-IsDetermined path (entries beyond path filename es).0 room
          (entries-IsDetermined path filename es room fits)
    find-IsDetermined path filename Node.unopened fits e = (refl, tt)
    find-IsDetermined path filename Node.unstated fits e = (refl, tt)
    find-IsDetermined path filename Node.file fits e = absurd cc
    find-IsDetermined path filename Node.device fits e = absurd cc
    find-IsDetermined path filename Node.broken fits e = absurd cc

    entries-IsDetermined :
        (path filename : List ℕ) (es : Entries)
        → length path + 1 + dirsiz + 1 ≤ 512
        → FitEntries path es
        → IsDetermined (entries beyond path filename es).0
    entries-IsDetermined path filename Entries.nil room fits = tt
    entries-IsDetermined path filename (Entries.entry inum name node es) room (here, fits) =
        elim (Bool-cases (is_passed_over inum name)) [
          | inl over ↦
              rw (is_passed_over-text (beyond path name) inum name, over)
                (entries-IsDetermined path filename es room fits)
          | inr met ↦
              rw (is_passed_over-text (beyond path name) inum name, met)
                (added-IsDetermined path
                  (visit (beyond path name) path filename name (kind_of node)
                    (find beyond (child_path path name) filename node).0).0
                  (entries beyond path filename es).0 room
                  (visit-IsDetermined (beyond path name) path filename name (kind_of node)
                    (find beyond (child_path path name) filename node).0
                    (λ d. find-IsDetermined (child_path path name) filename node (here met) d))
                  (entries-IsDetermined path filename es room fits))
        ]
