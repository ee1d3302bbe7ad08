-- ===== src/Database/Suffix.antt =====
-- _checkdomainsuffix against a description of what it looks for.
use openpanel_opencore.Prelude.{
  ℕ, zero, suc, ◌-◌, ◌≡◌, ◌≢◌, refl, true, some, List, [], ◌∷◌, ◌++◌, arith, ◌⊎◌, inl, inr, ◌↔◌,
  length, length-append, drop, get_elem?, Bool-cases, Option-cases,
}
use openpanel_opencore.Database.Realm.{same_text, check_domain_suffix}

-- The child is a name, the separator, and the parent in any case.
pub record IsSuffixed (child parent : List ℕ) (sep : ℕ) : Type 0 where
  pub name : List ℕ
  pub tail : List ℕ
  pub split : child ≡ name ++ sep ∷ tail
  pub same : same_text tail parent ≡ true

length-same_text : (xs ys : List ℕ) → same_text xs ys ≡ true → length xs ≡ length ys
unfolding same_text
length-same_text [] [] e = refl
length-same_text [] (y ∷ ys) e = cc
length-same_text (x ∷ xs) [] e = cc
length-same_text (x ∷ xs) (y ∷ ys) e = ground (arith, length-same_text xs ys)

get_elem?-split :
    (xs : List ℕ) (i x : ℕ)
    → get_elem? xs i ≡ some x
    → (pre : List ℕ) × (xs ≡ pre ++ x ∷ drop (suc i) xs)
get_elem?-split [] i x e = cc
get_elem?-split (y ∷ ys) zero x e = ([], cc)
get_elem?-split (y ∷ ys) (suc i) x e = let (pre, f) = get_elem?-split ys i x e in (y ∷ pre, cc)

drop-append : (xs ys : List ℕ) (y : ℕ) → drop (suc (length xs)) (xs ++ y ∷ ys) ≡ ys
drop-append [] ys y = refl
drop-append (x ∷ xs) ys y = drop-append xs ys y

get_elem?-append : (xs ys : List ℕ) (y : ℕ) → get_elem? (xs ++ y ∷ ys) (length xs) ≡ some y
get_elem?-append [] ys y = refl
get_elem?-append (x ∷ xs) ys y = get_elem?-append xs ys y

suffix_found :
    (child parent : List ℕ) (sep : ℕ)
    → check_domain_suffix child parent sep ≡ true
    → (same_text child parent ≡ true) ⊎ IsSuffixed child parent sep
unfolding check_domain_suffix
suffix_found child parent sep h =
    let i = length child - length parent in
    elim (Bool-cases (same_text child parent)) [
      | inl e ↦ inl e
      | inr e ↦ elim (Bool-cases (same_text (drop i child) parent)) [
        | inr f ↦ absurd (ground (arith, e, f))
        | inl f ↦ elim (Option-cases (get_elem? child (i - 1))) [
          | inl g ↦ absurd (ground (arith, e, f, g))
          | inr (s, g) ↦
              let some_before : i ≢ 0 = λ z. ground (arith, rw z at f) in
              let next : suc (i - 1) ≡ i = omega arith in
              let is_sep : s ≡ sep = ground (arith, e, f, g) in
              let (name, split) = get_elem?-split child (i - 1) s g in
              inr (record {
                name = name;
                tail = drop i child;
                split = rw (← is_sep) (rw next at split);
                same = f;
              })
        ]
      ]
    ]

suffix_accepted :
    (child parent : List ℕ) (sep : ℕ)
    → IsSuffixed child parent sep
    → check_domain_suffix child parent sep ≡ true
unfolding check_domain_suffix
suffix_accepted child parent sep w =
    let tail_length = length-same_text w.tail parent w.same in
    let all_length = length-append w.name (sep ∷ w.tail) in
    let i : length (w.name ++ sep ∷ w.tail) - length parent ≡ suc (length w.name) = omega arith in
    let before : suc (length w.name) - 1 ≡ length w.name = omega arith in
    rw
      (
        w.split,
        i,
        drop-append w.name w.tail sep,
        w.same,
        before,
        get_elem?-append w.name w.tail sep,
      )
      (ground (arith, all_length, tail_length))

-- _checkdomainsuffix says yes exactly where the two texts are one in any case, or the child is a name,
-- the separator and the parent in any case.
pub check_domain_suffix_iff :
    (child parent : List ℕ) (sep : ℕ)
    → (check_domain_suffix child parent sep ≡ true)
      ↔ ((same_text child parent ≡ true) ⊎ IsSuffixed child parent sep)
unfolding check_domain_suffix
check_domain_suffix_iff child parent sep = (
  suffix_found child parent sep,
  λ x. elim x [ inl e ↦ ground (arith, e) | inr w ↦ suffix_accepted child parent sep w ],
)
