-- ===== src/User/Find/Success.antt =====
-- The result of `find` of find.c: whether the directory itself has a file with the name.
use mathlib.Core.Path.{ap₂}
use my_os_proj.Base.{
  ℕ, ◌<◌, ◌≡◌, inl, inr, refl, arith, Bool, true, false, not, ◌&&◌, ◌||◌, List, length, Bool-cases,
}
use my_os_proj.User.Find.Text.{same_text-text, is_passed_over-text}
use my_os_proj.User.Find.{
  Node, Entries, Printed, Kind, kind_of, is_passed_over, same_text, dirsiz, child_path, find,
  entries, visit,
}

abbrev pub is_file : Kind → Bool
is_file Kind.t_file = true
is_file Kind.t_device = false
is_file Kind.t_dir = false
is_file Kind.stat_failed = false

-- A regular file with the name among the entries themselves.
pub is_entry : (filename : List ℕ) → Entries → Bool
is_entry filename Entries.nil = false
is_entry filename (Entries.entry inum name node es) =
    (not (is_passed_over inum name) && (is_file (kind_of node) && same_text name filename))
    || is_entry filename es

success-visit :
    (beyond path filename name : List ℕ) (kind : Kind) (inner : List Printed)
    → length filename < dirsiz
    → (visit beyond path filename name kind inner).1 ≡ (is_file kind && same_text name filename)
unfolding visit
success-visit beyond path filename name Kind.t_file inner short =
    rw (same_text-text beyond name filename short) (ground arith)
success-visit beyond path filename name Kind.t_device inner short = refl
success-visit beyond path filename name Kind.t_dir inner short = refl
success-visit beyond path filename name Kind.stat_failed inner short = refl

module _ (beyond : (path name : List ℕ) → List ℕ) where
  success-entries :
      (path filename : List ℕ) (es : Entries)
      → length filename < dirsiz
      → (entries beyond path filename es).1 ≡ is_entry filename es
  unfolding entries is_entry
  success-entries path filename Entries.nil short = refl
  success-entries path filename (Entries.entry inum name node es) short =
      elim (Bool-cases (is_passed_over inum name)) [
        | inl over ↦
            rw (is_passed_over-text (beyond path name) inum name, over)
              (success-entries path filename es short)
        | inr met ↦
            rw (is_passed_over-text (beyond path name) inum name, met)
              (ap₂ (λ b c. b || c)
                (success-visit (beyond path name) path filename name (kind_of node)
                  (find beyond (child_path path name) filename node).0 short)
                (success-entries path filename es short))
      ]

  pub success-find :
      (path filename : List ℕ) (es : Entries)
      → length filename < dirsiz
      → (find beyond path filename (Node.directory es)).1 ≡ is_entry filename es
  unfolding find
  success-find path filename es short = success-entries path filename es short
