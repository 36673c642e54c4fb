-- ===== src/Base/Elements.antt =====
-- Reads and writes of a list at an index.
use my_os_proj.Base.{
  ℕ, zero, suc, ◌<◌, ◌≡◌, ◌≢◌, refl, ap, arith, none, some, List, [], ◌∷◌, get_elem?, set, length,
}

module _ {ℓ} {A : Type ℓ} where
  pub get-set :
      (xs : List A) (i : ℕ) (x y : A) → get_elem? xs i ≡ some x → get_elem? (set xs i y) i ≡ some y
  get-set [] i x y e = cc
  get-set (z ∷ xs) zero x y e = refl
  get-set (z ∷ xs) (suc i) x y e = get-set xs i x y e

  pub get-set_apart :
      (xs : List A) (i j : ℕ) (y : A) → i ≢ j → get_elem? (set xs i y) j ≡ get_elem? xs j
  get-set_apart [] i j y ne = refl
  get-set_apart (x ∷ xs) zero zero y ne = absurd (ne refl)
  get-set_apart (x ∷ xs) zero (suc j) y ne = refl
  get-set_apart (x ∷ xs) (suc i) zero y ne = refl
  get-set_apart (x ∷ xs) (suc i) (suc j) y ne = get-set_apart xs i j y (λ e. ne (ap suc e))

  pub get_elem?-lt : (xs : List A) (i : ℕ) (x : A) → get_elem? xs i ≡ some x → i < length xs
  get_elem?-lt [] i x e = cc
  get_elem?-lt (y ∷ xs) zero x e = omega arith
  get_elem?-lt (y ∷ xs) (suc i) x e = let lt : i < length xs = get_elem?-lt xs i x e in omega arith

  pub after_none :
      (xs : List A) (i j : ℕ) (x : A) → get_elem? xs i ≡ none → get_elem? xs j ≡ some x → j < i
  after_none [] i j x e e' = cc
  after_none (y ∷ xs) zero j x e e' = cc
  after_none (y ∷ xs) (suc i) zero x e e' = omega arith
  after_none (y ∷ xs) (suc i) (suc j) x e e' =
      let lt : j < i = after_none xs i j x e e' in omega arith
