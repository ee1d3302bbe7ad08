-- ===== src/Prelude/Maps.antt =====
-- Maps as lists of pairs with text keys, and lists of names.
use Prim.Native.Nat.{ℕ, suc, ◌+◌}
use Prim.Native.String.{String}
use mathlib.Core.Path.{◌≡◌, refl}
use mathlib.Core.Bool.{Bool, true, false, ◌||◌}
use mathlib.Core.Option.{Option, none, some}
use mathlib.Core.List.{List, [], ◌∷◌, ◌++◌}
use mathlib.Core.Logic.{◌≢◌, inl, inr}
use native.Mathlib.Omega.{arith}
use text.Mathlib.Text.{◌==◌}
use text.Mathlib.TextPositions.{eq_refl}
use text.Mathlib.TextEquality.{eq_iff}
use openpanel_opencore.Prelude.Tests.{Bool-cases, if◌then◌else◌}

module _ {ℓ} {A : Type ℓ} where
  unfoldable pub find_key : String → List (String × A) → Option A
  find_key id [] = none
  find_key id ((k, v) ∷ rest) = if k == id then some v else find_key id rest

  -- `map[id] = v`
  unfoldable pub put_key : String → A → List (String × A) → List (String × A)
  put_key id v [] = (id, v) ∷ []
  put_key id v ((k, w) ∷ rest) = if k == id then (k, v) ∷ rest else (k, w) ∷ put_key id v rest

  -- `map.rmval (id)`
  unfoldable pub remove_key : String → List (String × A) → List (String × A)
  remove_key id [] = []
  remove_key id ((k, v) ∷ rest) = if k == id then rest else (k, v) ∷ remove_key id rest

  pub find_key-put :
      (id : String) (v : A) (m : List (String × A)) → find_key id (put_key id v m) ≡ some v
  unfolding find_key put_key
  find_key-put id v [] = grind (arith, eq_refl id)
  find_key-put id v ((j, u) ∷ rest) = elim (Bool-cases (j == id)) [
    | inl f ↦ rw (f, f) refl
    | inr f ↦ rw (f, f) (find_key-put id v rest)
  ]

  -- Where an entry stands, one stands after another is put.
  pub put_key-keeps :
      (k id : String) (v w : A) (m : List (String × A))
      → find_key k m ≡ some w
      → (u : A) × (find_key k (put_key id v m) ≡ some u)
  unfolding find_key put_key
  put_key-keeps k id v w [] e = cc
  put_key-keeps k id v w ((j, u) ∷ rest) e = elim (Bool-cases (j == k)) [
    | inl f ↦ elim (Bool-cases (j == id)) [ inl g ↦ (v, ground arith) | inr g ↦ (u, ground arith) ]
    | inr f ↦ elim (Bool-cases (j == id)) [
      | inl g ↦ (w, ground arith)
      | inr g ↦ let (x, i) = put_key-keeps k id v w rest (ground arith) in (x, ground arith)
    ]
  ]

  -- An entry stays when another is put under a key that was free.
  pub find_key-put_fresh :
      (k id : String) (v w : A) (m : List (String × A))
      → find_key id m ≡ none
      → find_key k m ≡ some w
      → find_key k (put_key id v m) ≡ some w
  unfolding find_key put_key
  find_key-put_fresh k id v w [] e f = cc
  find_key-put_fresh k id v w ((j, u) ∷ rest) e f = elim (Bool-cases (j == id)) [
    | inl g ↦ ground arith
    | inr g ↦ elim (Bool-cases (j == k)) [
      | inl h ↦ ground arith
      | inr h ↦
          let i = find_key-put_fresh k id v w rest (ground arith) (ground arith) in ground arith
    ]
  ]

unfoldable pub has_name : String → List String → Bool
has_name x [] = false
has_name x (y ∷ ys) = y == x || has_name x ys

-- How often the name stands in the list.
unfoldable pub count_name : String → List String → ℕ
count_name x [] = 0
count_name x (y ∷ ys) = if y == x then suc (count_name x ys) else count_name x ys

pub count_name-append :
    (x : String) (xs ys : List String) → count_name x (xs ++ ys) ≡ count_name x xs + count_name x ys
unfolding count_name
count_name-append x [] ys = omega arith
count_name-append x (z ∷ zs) ys = ground (arith, count_name-append x zs ys)

pub has_name-tail :
    (x y : String) (ys : List String) → has_name x (y ∷ ys) ≡ false → has_name x ys ≡ false
unfolding has_name
has_name-tail x y ys e = ground arith

pub has_name-head : (x : String) (ys : List String) → has_name x (x ∷ ys) ≡ true
unfolding has_name
has_name-head x ys = rw (eq_refl x) refl

pub has_name-cons :
    (x y : String) (ys : List String) → has_name x ys ≡ true → has_name x (y ∷ ys) ≡ true
unfolding has_name
has_name-cons x y ys e = ground arith

pub has_name-append :
    (u : String) (xs ys : List String) → has_name u (xs ++ ys) ≡ (has_name u xs || has_name u ys)
unfolding has_name
has_name-append u [] ys = refl
has_name-append u (x ∷ xs) ys = ground (arith, has_name-append u xs ys)

module _ {ℓ} {A : Type ℓ} where
  pub find_key-put_other :
      (k id : String) (v : A) (m : List (String × A))
      → k ≢ id
      → find_key k (put_key id v m) ≡ find_key k m
  unfolding find_key put_key
  find_key-put_other k id v [] n = grind (arith, eq_iff id k)
  find_key-put_other k id v ((j, u) ∷ rest) n = elim (Bool-cases (j == id)) [
    | inl e ↦ let f : j == k ≡ false = grind (arith, eq_iff j k, eq_iff j id) in rw (e, f) refl
    | inr e ↦ elim (Bool-cases (j == k)) [
      | inl f ↦ rw (e, f) refl
      | inr f ↦ rw (e, f) (find_key-put_other k id v rest n)
    ]
  ]
