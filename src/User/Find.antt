-- ===== src/User/Find.antt =====
-- lab1/find.c. The file system is a tree. A name is the list of its bytes up to the first 0; it has
-- at most DIRSIZ bytes, and the field of a directory entry has no 0 where it has DIRSIZ of them.
pub mod Fits
pub mod Matches
pub mod Name
pub mod Success
pub mod Text
use my_os_proj.Base.{
  ℕ, zero, suc, ◌+◌, Bool, true, false, not, ◌&&◌, ◌||◌, ltb, leb, ◌==◌, List, [], ◌∷◌, ◌++◌,
  length, if◌then◌else◌,
}

-- What lies at a path: a regular file, a device, a directory, a directory on which `stat` succeeds
-- and then `open` or `fstat` fails, and something that `stat` and `open` fail on. An entry has an
-- `inum`, 0 for a free one, and a name.
mutual
  pub data Node : Type 0 where
    file : Node
    device : Node
    directory : Entries → Node
    unopened : Node
    unstated : Node
    broken : Node

  pub data Entries : Type 0 where
    nil : Entries
    entry : (inum : ℕ) (name : List ℕ) (node : Node) → Entries → Entries

-- The lines that are printed, with the path that they name, and the mark `overflowed`: there the
-- program writes past the 512 bytes of `buf`, and what it does from then on is not determined.
pub data Printed : Type 0 where
  found : List ℕ → Printed
  cannot_open : List ℕ → Printed
  cannot_stat : List ℕ → Printed
  too_long : Printed
  overflowed : Printed
  no_such_file : Printed
  usage : Printed

-- `!strcmp(a, b)`
abbrev pub same_text : List ℕ → List ℕ → Bool
same_text [] [] = true
same_text (a ∷ as') (b ∷ bs) = (a == b) && same_text as' bs
same_text _ _ = false

abbrev pub dot : List ℕ
dot = b'.' ∷ []

abbrev pub dot_dot : List ℕ
dot_dot = b'.' ∷ b'.' ∷ []

-- DIRSIZ of kernel/fs.h
abbrev pub dirsiz : ℕ
dirsiz = 14

-- The bytes of `de.name` up to the first 0, as `strcmp` reads them: those of the name, and where it
-- takes up all of the field also those that lie `beyond` it on the stack.
abbrev pub text : (beyond name : List ℕ) → List ℕ
text beyond name = if leb dirsiz (length name) then name ++ beyond else name

abbrev pub child_path : (path name : List ℕ) → List ℕ
child_path path name = path ++ b'/' ∷ name

-- The test on the path of a directory, which is only reported.
abbrev pub length_warning : List ℕ → List Printed
length_warning path = if ltb 512 (length path + 1 + dirsiz + 1) then Printed.too_long ∷ [] else []

-- `strcpy(buf, path)` and the '/' behind it take `length path + 1` bytes of `buf`.
abbrev pub slash_overflow : List ℕ → List Printed
slash_overflow path = if leb 512 (length path) then Printed.overflowed ∷ [] else []

-- The DIRSIZ bytes of a name and the 0 behind them.
abbrev pub name_overflow : List ℕ → List Printed
name_overflow path = if ltb 512 (length path + 1 + dirsiz + 1) then Printed.overflowed ∷ [] else []

abbrev pub is_overflow : Printed → Bool
is_overflow Printed.overflowed = true
is_overflow (Printed.found path) = false
is_overflow (Printed.cannot_open path) = false
is_overflow (Printed.cannot_stat path) = false
is_overflow Printed.too_long = false
is_overflow Printed.no_such_file = false
is_overflow Printed.usage = false

-- The output up to the first overflow.
unfoldable pub determined : List Printed → List Printed
determined [] = []
determined (l ∷ ls) = let rest = determined ls in l ∷ (if is_overflow l then [] else rest)

-- What `stat` says of a node; the type of a device is neither T_DIR nor T_FILE.
pub data Kind : Type 0 where
  t_file t_device t_dir stat_failed : Kind

abbrev pub kind_of : Node → Kind
kind_of Node.file = Kind.t_file
kind_of Node.device = Kind.t_device
kind_of (Node.directory es) = Kind.t_dir
kind_of Node.unopened = Kind.t_dir
kind_of Node.unstated = Kind.t_dir
kind_of Node.broken = Kind.stat_failed

-- The part of the loop body behind `stat`: what is printed, and whether `cur_success` is set.
-- `inner` is what the recursive call prints; its result is dropped.
unfoldable pub visit :
    (beyond path filename name : List ℕ) → Kind → (inner : List Printed) → List Printed × Bool
visit beyond path filename name Kind.t_dir inner = (inner, false)
visit beyond path filename name Kind.t_file inner =
    if same_text (text beyond name) filename
    then (Printed.found (child_path path name) ∷ [], true)
    else ([], false)
visit beyond path filename name Kind.t_device inner = ([], false)
visit beyond path filename name Kind.stat_failed inner =
    (Printed.cannot_stat (child_path path name) ∷ [], false)

-- The entries that the loop passes over; `name` is what `strcmp` reads.
abbrev pub is_passed_over : (inum : ℕ) (name : List ℕ) → Bool
is_passed_over inum name = inum == 0 || (same_text name dot || same_text name dot_dot)

-- `find` at a node that `open` is called on, and its loop over the entries: what is printed, and
-- `cur_success`. Where `find` starts at a file or a device, whose bytes it takes for entries, there
-- are none in the model. `beyond` is what lies on the stack behind the entry with a path and a name
-- when it is looked at. What follows an overflow is cut off in `main`.
module _ (beyond : (path name : List ℕ) → List ℕ) where
  unfoldable mutual
    pub find : (path filename : List ℕ) → Node → List Printed × Bool
    find path filename (Node.directory es) =
        let (out, success) = entries path filename es in
        (length_warning path ++ (slash_overflow path ++ out), success)
    find path filename Node.unopened = (Printed.cannot_open path ∷ [], false)
    find path filename Node.unstated = (Printed.cannot_stat path ∷ [], false)
    find path filename Node.broken = (Printed.cannot_open path ∷ [], false)
    find path filename Node.file = (length_warning path ++ slash_overflow path, false)
    find path filename Node.device = (length_warning path ++ slash_overflow path, false)

    pub entries : (path filename : List ℕ) → Entries → List Printed × Bool
    entries path filename Entries.nil = ([], false)
    entries path filename (Entries.entry inum name node es) =
        let rest = entries path filename es in
        let inner = find (child_path path name) filename node in
        let (out, success) = visit (beyond path name) path filename name (kind_of node) inner.0 in
        if is_passed_over inum (text (beyond path name) name)
        then rest
        else (name_overflow path ++ (out ++ rest.0), success || rest.1)

  -- `main`; `root` is what lies at a path, which is ".", or the first argument of two.
  unfoldable pub main : (argv : List (List ℕ)) (root : List ℕ → Node) → List Printed
  main (filename ∷ []) root =
      let (out, success) = find dot filename (root dot) in
      determined (out ++ (if not success then Printed.no_such_file ∷ [] else []))
  main (path ∷ filename ∷ []) root =
      let (out, success) = find path filename (root path) in
      determined (out ++ (if not success then Printed.no_such_file ∷ [] else []))
  main _ root = Printed.usage ∷ []
