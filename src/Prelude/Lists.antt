-- ===== src/Prelude/Lists.antt =====
-- Lists measured by native numbers, and Boolean filters and searches.
use Prim.Native.Nat.{ℕ, zero, suc, ◌+◌}
use mathlib.Core.Option.{Option, none, some}
use mathlib.Core.Logic.{◌⊎◌, inl, inr}
use mathlib.Core.Path.{◌≡◌, refl}
use mathlib.Core.List.{List, [], ◌∷◌, ◌++◌}
use native.Mathlib.Omega.{arith}

module _ {ℓ} {A : Type ℓ} where
  abbrev pub length : List A → ℕ
  length [] = 0
  length (x ∷ xs) = suc (length xs)

  pub length-append : (xs ys : List A) → length (xs ++ ys) ≡ length xs + length ys
  length-append [] ys = omega arith
  length-append (x ∷ xs) ys = omega (arith, length-append xs ys)

  -- The statement holds of every element.
  abbrev pub All {κ} : (A → Type κ) → List A → Type κ
  All P [] = Unit
  All P (x ∷ xs) = P x × All P xs

  abbrev pub drop : ℕ → List A → List A
  drop zero xs = xs
  drop (suc n) [] = []
  drop (suc n) (x ∷ xs) = drop n xs

  abbrev pub get_elem? : List A → ℕ → Option A
  get_elem? [] i = none
  get_elem? (x ∷ xs) zero = some x
  get_elem? (x ∷ xs) (suc i) = get_elem? xs i

  -- No element, one, or more.
  pub List-cases :
      (xs : List A)
      → (xs ≡ []) ⊎ ((x : A) × (xs ≡ x ∷ [])) ⊎ ((x y : A) × (ys : List A) × (xs ≡ x ∷ y ∷ ys))
  List-cases [] = inl refl
  List-cases (x ∷ []) = inr (inl (x, refl))
  List-cases (x ∷ y ∷ ys) = inr (inr (x, y, ys, refl))

  pub append_middle : (xs ys : List A) (u : A) → (xs ++ u ∷ []) ++ ys ≡ xs ++ u ∷ ys
  append_middle [] ys u = refl
  append_middle (x ∷ xs) ys u = ground (arith, append_middle xs ys u)

  pub append_assoc : (xs ys zs : List A) → xs ++ ys ++ zs ≡ xs ++ (ys ++ zs)
  append_assoc [] ys zs = refl
  append_assoc (x ∷ xs) ys zs = ground (arith, append_assoc xs ys zs)

  pub append_nil : (xs : List A) → xs ++ [] ≡ xs
  append_nil [] = refl
  append_nil (x ∷ xs) = ground (arith, append_nil xs)
