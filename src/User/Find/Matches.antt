-- ===== src/User/Find/Matches.antt =====
-- What find prints, against a listing of the tree.
use mathlib.Core.Path.{ap₂}
use my_os_proj.Base.{
  ℕ, ◌<◌, ◌≡◌, inl, inr, refl, sym, ◌∙◌, ap, arith, Bool, true, false, not, List, [], ◌∷◌, ◌++◌,
  length, if◌then◌else◌, Bool-cases,
}
use my_os_proj.User.Find.Success.{is_entry, success-find}
use my_os_proj.User.Find.Text.{same_text-text, is_passed_over-text}
use my_os_proj.User.Find.Fits.{
  Fits, IsDetermined, append-IsDetermined, determined_all, find-IsDetermined,
}
use my_os_proj.User.Find.{
  Node, Entries, Printed, Kind, kind_of, is_passed_over, same_text, dirsiz, child_path,
  length_warning, slash_overflow, name_overflow, determined, find, entries, visit, main,
}

-- The regular files below a directory, in the order of the entries: the path and the last name of
-- each. `below` are those below the entry itself.
pub listing_entry :
    (path name : List ℕ) → Kind → (below : List (List ℕ × List ℕ)) → List (List ℕ × List ℕ)
listing_entry path name Kind.t_file below = (path, name) ∷ []
listing_entry path name Kind.t_dir below = below
listing_entry path name Kind.t_device below = []
listing_entry path name Kind.stat_failed below = []

mutual
  pub listing : (path : List ℕ) → Node → List (List ℕ × List ℕ)
  listing path (Node.directory es) = listing_entries path es
  listing path Node.file = []
  listing path Node.device = []
  listing path Node.unopened = []
  listing path Node.unstated = []
  listing path Node.broken = []

  pub listing_entries : (path : List ℕ) → Entries → List (List ℕ × List ℕ)
  listing_entries path Entries.nil = []
  listing_entries path (Entries.entry inum name node es) =
      let here =
        listing_entry (child_path path name) name (kind_of node)
          (listing (child_path path name) node) in
      let rest = listing_entries path es in if is_passed_over inum name then rest else here ++ rest

-- The paths of the files with a name.
pub named : (filename : List ℕ) → List (List ℕ × List ℕ) → List (List ℕ)
named filename [] = []
named filename ((path, name) ∷ fs) =
    if same_text name filename then path ∷ named filename fs else named filename fs

-- The paths of the lines that report a file.
pub reported : List Printed → List (List ℕ)
reported [] = []
reported (Printed.found path ∷ ls) = path ∷ reported ls
reported (Printed.cannot_open path ∷ ls) = reported ls
reported (Printed.cannot_stat path ∷ ls) = reported ls
reported (Printed.too_long ∷ ls) = reported ls
reported (Printed.overflowed ∷ ls) = reported ls
reported (Printed.no_such_file ∷ ls) = reported ls
reported (Printed.usage ∷ ls) = reported ls

reported-append : (ls ms : List Printed) → reported (ls ++ ms) ≡ reported ls ++ reported ms
unfolding reported
reported-append [] ms = refl
reported-append (Printed.found path ∷ ls) ms = ap (λ ps. path ∷ ps) (reported-append ls ms)
reported-append (Printed.cannot_open path ∷ ls) ms = reported-append ls ms
reported-append (Printed.cannot_stat path ∷ ls) ms = reported-append ls ms
reported-append (Printed.too_long ∷ ls) ms = reported-append ls ms
reported-append (Printed.overflowed ∷ ls) ms = reported-append ls ms
reported-append (Printed.no_such_file ∷ ls) ms = reported-append ls ms
reported-append (Printed.usage ∷ ls) ms = reported-append ls ms

named-append :
    (filename : List ℕ) (fs gs : List (List ℕ × List ℕ))
    → named filename (fs ++ gs) ≡ named filename fs ++ named filename gs
unfolding named
named-append filename [] gs = refl
named-append filename ((path, name) ∷ fs) gs = elim (Bool-cases (same_text name filename)) [
  | inl e ↦ rw e (ap (λ ps. path ∷ ps) (named-append filename fs gs))
  | inr e ↦ rw e (named-append filename fs gs)
]

reported-length_warning : (path : List ℕ) → reported (length_warning path) ≡ []
unfolding reported
reported-length_warning path = ground arith

reported-slash_overflow : (path : List ℕ) → reported (slash_overflow path) ≡ []
unfolding reported
reported-slash_overflow path = ground arith

reported-name_overflow : (path : List ℕ) → reported (name_overflow path) ≡ []
unfolding reported
reported-name_overflow path = ground arith

-- The lines before those of the entries.
reported-head :
    (path : List ℕ) (out : List Printed)
    → reported (length_warning path ++ (slash_overflow path ++ out)) ≡ reported out
reported-head path out =
    reported-append (length_warning path) (slash_overflow path ++ out)
    ∙ ap₂ (λ ps qs. ps ++ qs) (reported-length_warning path)
        (reported-append (slash_overflow path) out
          ∙ ap (λ ps. ps ++ reported out) (reported-slash_overflow path))

reported-visit :
    (beyond path filename name : List ℕ) (kind : Kind) (inner : List Printed)
    (below : List (List ℕ × List ℕ))
    → length filename < dirsiz
    → reported inner ≡ named filename below
    → reported (visit beyond path filename name kind inner).0
      ≡ named filename (listing_entry (child_path path name) name kind below)
unfolding visit listing_entry reported named
reported-visit beyond path filename name Kind.t_dir inner below short h = h
reported-visit beyond path filename name Kind.t_device inner below short h = refl
reported-visit beyond path filename name Kind.stat_failed inner below short h = refl
reported-visit beyond path filename name Kind.t_file inner below short h =
    rw (same_text-text beyond name filename short)
      (elim (Bool-cases (same_text name filename)) [ inl e ↦ rw e refl | inr e ↦ rw e refl ])

-- What the loop adds for an entry.
reported-added :
    (path : List ℕ) (out rest : List Printed) (here later : List (List ℕ × List ℕ))
    (filename : List ℕ)
    → reported out ≡ named filename here
    → reported rest ≡ named filename later
    → reported (name_overflow path ++ (out ++ rest)) ≡ named filename (here ++ later)
reported-added path out rest here later filename a b =
    reported-append (name_overflow path) (out ++ rest)
    ∙ ap₂ (λ ps qs. ps ++ qs) (reported-name_overflow path)
        (reported-append out rest ∙ ap₂ (λ ps qs. ps ++ qs) a b)
    ∙ sym (named-append filename here later)

module _ (beyond : (path name : List ℕ) → List ℕ) where
  mutual
    unfolding find entries listing listing_entries reported named

    reported-find :
        (path filename : List ℕ) (node : Node)
        → length filename < dirsiz
        → reported (find beyond path filename node).0 ≡ named filename (listing path node)
    reported-find path filename (Node.directory es) short =
        reported-head path (entries beyond path filename es).0
        ∙ reported-entries path filename es short
    reported-find path filename Node.file short =
        reported-append (length_warning path) (slash_overflow path)
        ∙ ap₂ (λ ps qs. ps ++ qs) (reported-length_warning path) (reported-slash_overflow path)
    reported-find path filename Node.device short =
        reported-append (length_warning path) (slash_overflow path)
        ∙ ap₂ (λ ps qs. ps ++ qs) (reported-length_warning path) (reported-slash_overflow path)
    reported-find path filename Node.unopened short = refl
    reported-find path filename Node.unstated short = refl
    reported-find path filename Node.broken short = refl

    reported-entries :
        (path filename : List ℕ) (es : Entries)
        → length filename < dirsiz
        → reported (entries beyond path filename es).0 ≡ named filename (listing_entries path es)
    reported-entries path filename Entries.nil short = refl
    reported-entries path filename (Entries.entry inum name node es) short =
        elim (Bool-cases (is_passed_over inum name)) [
          | inl over ↦
              rw (is_passed_over-text (beyond path name) inum name, over)
                (reported-entries path filename es short)
          | inr met ↦
              rw (is_passed_over-text (beyond path name) inum name, met)
                (reported-added path
                  (visit (beyond path name) path filename name (kind_of node)
                    (find beyond (child_path path name) filename node).0).0
                  (entries beyond path filename es).0
                  (listing_entry (child_path path name) name (kind_of node)
                    (listing (child_path path name) node))
                  (listing_entries path es) filename
                  (reported-visit (beyond path name) path filename name (kind_of node)
                    (find beyond (child_path path name) filename node).0
                    (listing (child_path path name) node) short
                    (reported-find (child_path path name) filename node short))
                  (reported-entries path filename es short))
        ]

module _ (beyond : (path name : List ℕ) → List ℕ) where
  not_verdict :
      (b : Bool)
      → (if not b then Printed.no_such_file ∷ [] else [])
        ≡ (if b then [] else Printed.no_such_file ∷ [])
  not_verdict true = refl
  not_verdict false = refl

  verdict-IsDetermined : (b : Bool) → IsDetermined (if b then [] else Printed.no_such_file ∷ [])
  verdict-IsDetermined true = tt
  verdict-IsDetermined false = (refl, tt)

  -- Take `find path filename` on a directory, a file name of less than 14 bytes, and a tree in
  -- which the path of every directory that is read has at most 496 bytes, so that a name still
  -- fits behind it. Then the array never overflows, and the program reports, in the order of the
  -- entries, the paths of all regular files below the directory whose last name is the file name,
  -- and no other. It says "No such file" last exactly when no entry of the directory itself is such
  -- a file, so also when it has reported files of its subdirectories.
  pub main-listing :
      (path filename : List ℕ) (root : List ℕ → Node) (es : Entries)
      → root path ≡ Node.directory es
      → length filename < dirsiz
      → Fits path (Node.directory es)
      → (out : List Printed) × ((main beyond (path ∷ filename ∷ []) root
            ≡ out ++ (if is_entry filename es then [] else Printed.no_such_file ∷ []))
          × IsDetermined out
          × (reported out ≡ named filename (listing path (Node.directory es))))
  unfolding main
  main-listing path filename root es h short fits =
      let out = (find beyond path filename (Node.directory es)).0 in
      let clean : IsDetermined out =
        find-IsDetermined beyond path filename (Node.directory es) fits refl in
      let result_of : (es : Entries)
          → (find beyond path filename (Node.directory es)).1 ≡ is_entry filename es =
        λ es. success-find beyond path filename es short in
      let last = if is_entry filename es then [] else Printed.no_such_file ∷ [] in
      (
        out,
        (
          rw h (
              ap (λ ls. determined (out ++ ls))
                (not_verdict (find beyond path filename (Node.directory es)).1
                  ∙ ap (λ b. if b then [] else Printed.no_such_file ∷ []) (result_of es))
              ∙ determined_all (out ++ last) (
                  append-IsDetermined out last clean
                    (verdict-IsDetermined (is_entry filename es)))),
          clean,
          reported-find beyond path filename (Node.directory es) short,
        ),
      )
