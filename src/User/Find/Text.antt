-- ===== src/User/Find/Text.antt =====
-- What `strcmp` reads of a name in find.c.
use mathlib.Core.Path.{ap₂}
use my_os_proj.Base.{
  ℕ, ◌<◌, ◌≤◌, ◌≡◌, inl, inr, refl, sym, ◌∙◌, arith, Bool, true, false, ◌&&◌, ◌||◌, ◌==◌, List, [],
  ◌∷◌, ◌++◌, length, leb, Bool-cases,
}
use my_os_proj.User.Find.{dot, dot_dot, dirsiz, same_text, text, is_passed_over}

and_false : (b : Bool) → (b && false) ≡ false
and_false true = refl
and_false false = refl

same_text_shorter : (name s : List ℕ) → length s < length name → same_text name s ≡ false
same_text_shorter [] s h = absurd (omega arith)
same_text_shorter (c ∷ name) [] h = refl
same_text_shorter (c ∷ name) (d ∷ s) h =
    rw (same_text_shorter name s (omega arith)) (and_false (c == d))

length_prefix : (name more : List ℕ) → length name ≤ length (name ++ more)
length_prefix [] more = omega arith
length_prefix (c ∷ name) more = omega (arith, length_prefix name more)

-- What lies behind the field of the name makes no difference for a shorter string.
pub same_text-text :
    (beyond name s : List ℕ) → length s < dirsiz → same_text (text beyond name) s ≡ same_text name s
same_text-text beyond name s short = elim (Bool-cases (leb dirsiz (length name))) [
  | inr below ↦ rw below refl
  | inl full ↦
      let longer : length s < length name = ground (arith, full) in
      let longer' : length s < length (name ++ beyond) = omega (arith, length_prefix name beyond) in
      rw full (same_text_shorter (name ++ beyond) s longer' ∙ sym (same_text_shorter name s longer))
]

pub is_passed_over-text :
    (beyond : List ℕ) (inum : ℕ) (name : List ℕ)
    → is_passed_over inum (text beyond name) ≡ is_passed_over inum name
is_passed_over-text beyond inum name =
    ap₂ (λ b c. inum == 0 || (b || c)) (same_text-text beyond name dot (omega arith))
      (same_text-text beyond name dot_dot (omega arith))
