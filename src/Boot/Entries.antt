-- ===== src/Boot/Entries.antt =====
-- The lines of `vmprint` for the last level, and the valid entries of a range of pages.
use my_os_proj.Base.{
  ℕ, zero, suc, ◌+◌, ◌<◌, ◌≡◌, refl, ◌∙◌, ap, arith, Bool, true, false, List, [], ◌∷◌, ◌++◌,
  if◌then◌else◌, ◌==◌,
}
use my_os_proj.Pte.{is_valid}
use my_os_proj.Boot.{Line}

-- The entries of the lines for the last level.
unfoldable pub leaf_lines : List Line → List ℕ
leaf_lines [] = []
leaf_lines (x ∷ xs) = let rest = leaf_lines xs in if x.level == 0 then x.pte ∷ rest else rest

-- The valid ones of the entries that `f` gives to `n` pages from `start` on.
unfoldable pub valid_entries : (f : ℕ → ℕ) (n start : ℕ) → List ℕ
valid_entries f zero start = []
valid_entries f (suc n) start =
    let rest = valid_entries f n (start + 1) in if is_valid (f start) then f start ∷ rest else rest

pub leaf_lines-append : (xs ys : List Line) → leaf_lines (xs ++ ys) ≡ leaf_lines xs ++ leaf_lines ys
unfolding leaf_lines
leaf_lines-append [] ys = refl
leaf_lines-append (x ∷ xs) ys = ground (arith, leaf_lines-append xs ys)

if_append :
    (b : Bool) (x : ℕ) (xs ys : List ℕ)
    → (if b then x ∷ (xs ++ ys) else xs ++ ys) ≡ (if b then x ∷ xs else xs) ++ ys
if_append true x xs ys = refl
if_append false x xs ys = refl

pub valid_entries-add :
    (f : ℕ → ℕ) (a b start : ℕ)
    → valid_entries f (a + b) start ≡ valid_entries f a start ++ valid_entries f b (start + a)
unfolding valid_entries
valid_entries-add f zero b start =
    ap (λ n. valid_entries f n start) (let e : 0 + b ≡ b = omega arith in e)
    ∙ ap (valid_entries f b) (let e : start ≡ start + 0 = omega arith in e)
valid_entries-add f (suc a) b start =
    let rest = valid_entries-add f a b (start + 1) in
    let shift : start + 1 + a ≡ start + suc a = omega arith in
    let all : valid_entries f (a + b) (start + 1)
        ≡ valid_entries f a (start + 1) ++ valid_entries f b (start + suc a) =
      rest ∙ ap (λ x. valid_entries f a (start + 1) ++ valid_entries f b x) shift in
    ap (λ n. valid_entries f n start) (let e : suc a + b ≡ suc (a + b) = omega arith in e)
    ∙ rw all (
        if_append (is_valid (f start)) (f start) (valid_entries f a (start + 1))
          (valid_entries f b (start + suc a)))

pub valid_entries_cong :
    (f g : ℕ → ℕ) (n s t : ℕ)
    → ((j : ℕ) → j < n → f (s + j) ≡ g (t + j))
    → valid_entries f n s ≡ valid_entries g n t
unfolding valid_entries
valid_entries_cong f g zero s t same = refl
valid_entries_cong f g (suc n) s t same =
    let first : f s ≡ g t = ap f (omega arith) ∙ same 0 (omega arith) ∙ ap g (omega arith) in
    let rest =
      valid_entries_cong f g n (s + 1) (t + 1)
        (λ j h. ap f (omega arith) ∙ same (suc j) (omega arith) ∙ ap g (omega arith)) in
    rw (first, rest) refl

pub valid_entries_none :
    (f : ℕ → ℕ) (n s : ℕ)
    → ((j : ℕ) → j < n → is_valid (f (s + j)) ≡ false)
    → valid_entries f n s ≡ []
unfolding valid_entries
valid_entries_none f zero s none = refl
valid_entries_none f (suc n) s none =
    let first : is_valid (f s) ≡ false =
      ap (λ x. is_valid (f x)) (omega arith) ∙ none 0 (omega arith) in
    rw first (
      valid_entries_none f n (s + 1)
        (λ j h. ap (λ x. is_valid (f x)) (omega arith) ∙ none (suc j) (omega arith)))
