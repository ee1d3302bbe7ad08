-- ===== src/Prelude/Int.antt =====
-- The integers over the native numbers, and results with an error.
use Prim.Native.Nat.{ℕ}
use mathlib.Core.Logic.{◌⊎◌, inl, inr}
use mathlib.Core.Path.{◌≡◌, refl}

pub data ℤ : Type 0 where
  pos : ℕ → ℤ
  negsuc : ℕ → ℤ

-- The next step of a computation that fails on the left.
abbrev pub and_then {ℓ κ μ} : {E : Type ℓ} {A : Type κ} {B : Type μ} → E ⊎ A → (A → E ⊎ B) → E ⊎ B
and_then (inl e) k = inl e
and_then (inr a) k = k a

-- To split on a result and keep the equation.
pub ⊎-cases {ℓ κ} :
    {E : Type ℓ} {A : Type κ} (r : E ⊎ A) → ((e : E) × (r ≡ inl e)) ⊎ ((a : A) × (r ≡ inr a))
⊎-cases (inl e) = inl (e, refl)
⊎-cases (inr a) = inr (a, refl)

-- The error satisfies the first statement, the result the second.
abbrev pub OnBoth {ℓ κ} : {E : Type ℓ} {A : Type κ} → (E → Type 0) → (A → Type 0) → E ⊎ A → Type 0
OnBoth P Q (inl e) = P e
OnBoth P Q (inr a) = Q a

pub and_then-OnBoth {ℓ κ μ} :
    {E : Type ℓ} {A : Type κ} {B : Type μ} (P : E → Type 0) (Q : A → Type 0) (R : B → Type 0)
    (r : E ⊎ A) (k : A → E ⊎ B)
    → OnBoth P Q r
    → ((a : A) → Q a → OnBoth P R (k a))
    → OnBoth P R (and_then r k)
and_then-OnBoth P Q R (inl e) k h f = h
and_then-OnBoth P Q R (inr a) k h f = f a h
