-- ===== src/Requests/Fitting.antt =====
-- The ids that createObject of CoreSession completes, against _checkdomainsuffix of DBManager.
use mathlib.Core.List.{append_assoc}
use openpanel_opencore.Prelude.{
  ℕ, zero, suc, ◌-◌, ◌≡◌, refl, sym, ◌∙◌, ap, true, false, List, [], ◌∷◌, ◌++◌, arith, ltb, length,
  drop, Bool-cases, inl, inr,
}
use openpanel_opencore.Database.Realm.{same_text, check_domain_suffix}
use openpanel_opencore.Database.Suffix.{check_domain_suffix_iff}
use openpanel_opencore.Requests.Naming.{
  equal_text, copy_until, ends_in, contains, domain_id, email_id,
}

same_text_refl : (xs : List ℕ) → same_text xs xs ≡ true
unfolding same_text
same_text_refl [] = refl
same_text_refl (x ∷ xs) = ground (arith, same_text_refl xs)

equal_text_eq : (xs ys : List ℕ) → equal_text xs ys ≡ true → xs ≡ ys
unfolding equal_text
equal_text_eq [] [] e = refl
equal_text_eq [] (y ∷ ys) e = cc
equal_text_eq (x ∷ xs) [] e = cc
equal_text_eq (x ∷ xs) (y ∷ ys) e = ground (arith, equal_text_eq xs ys)

split_drop : (n : ℕ) (xs : List ℕ) → (pre : List ℕ) × (xs ≡ pre ++ drop n xs)
split_drop zero xs = ([], refl)
split_drop (suc n) [] = ([], refl)
split_drop (suc n) (x ∷ xs) = let (pre, e) = split_drop n xs in (x ∷ pre, ap (λ ys. x ∷ ys) e)

ends_in-split :
    (s : ℕ) (xs : List ℕ) → ends_in s xs ≡ true → (name : List ℕ) × (xs ≡ name ++ s ∷ [])
unfolding ends_in
ends_in-split s [] e = cc
ends_in-split s (x ∷ []) e = ([], ground arith)
ends_in-split s (x ∷ y ∷ ys) e =
    let (name, f) = ends_in-split s (y ∷ ys) e in (x ∷ name, ap (λ zs. x ∷ zs) f)

-- A name, the separator, and the parent.
joined_fits :
    (name parent : List ℕ) (sep : ℕ) → check_domain_suffix (name ++ sep ∷ parent) parent sep ≡ true
joined_fits name parent sep =
    (check_domain_suffix_iff (name ++ sep ∷ parent) parent sep).1
      (inr (record { name = name; tail = parent; split = refl; same = same_text_refl parent }))

parent_fits : (parent : List ℕ) (sep : ℕ) → check_domain_suffix parent parent sep ≡ true
parent_fits parent sep = (check_domain_suffix_iff parent parent sep).1 (inl (same_text_refl parent))

-- The id that createObject completes for a parent realm "domainsuffix" is one that _checkdomainsuffix
-- accepts, where the name of the parent stands in the given id nowhere but at its end.
pub check_domain_suffix-domain_id :
    (withid pmid : List ℕ)
    → ((pre : List ℕ) → withid ≡ pre ++ pmid → copy_until withid pmid ≡ pre)
    → check_domain_suffix (domain_id withid pmid) pmid b'.' ≡ true
unfolding domain_id
check_domain_suffix-domain_id withid pmid once =
    let n = length withid - length pmid in
    let (pre, split) = split_drop n withid in
    elim (Bool-cases (equal_text withid [])) [
      | inl e ↦ rw (e, domain_id) (parent_fits pmid b'.')
      | inr e ↦ elim (Bool-cases (equal_text withid pmid)) [
        | inl f ↦ rw (e, f, domain_id, equal_text_eq withid pmid f) (parent_fits pmid b'.')
        | inr f ↦ elim (Bool-cases (ltb (length pmid) (length withid))) [
          | inr g ↦ rw (e, f, g, domain_id) (joined_fits withid pmid b'.')
          | inl g ↦ elim (Bool-cases (equal_text (drop n withid) pmid)) [
            | inr i ↦ rw (e, f, g, i, domain_id) (joined_fits withid pmid b'.')
            | inl i ↦ elim (Bool-cases (ends_in b'.' (copy_until withid pmid))) [
              | inr j ↦ rw (e, f, g, i, j, domain_id) (joined_fits withid pmid b'.')
              | inl j ↦
                  let whole : withid ≡ pre ++ pmid =
                    split ∙ ap (λ t. pre ++ t) (equal_text_eq (drop n withid) pmid i) in
                  let (name, k) = ends_in-split b'.' (copy_until withid pmid) j in
                  let named : withid ≡ name ++ b'.' ∷ pmid =
                    whole
                    ∙ ap (λ t. t ++ pmid) (sym (once pre whole) ∙ k)
                    ∙ append_assoc name (b'.' ∷ []) pmid in
                  rw (e, f, g, i, j, domain_id, named) (joined_fits name pmid b'.')
            ]
          ]
        ]
      ]
    ]

-- For a parent realm "emailsuffix", where no '@' was given.
pub check_domain_suffix-email_id :
    (withid pmid : List ℕ)
    → contains b'@' withid ≡ false
    → check_domain_suffix (email_id withid pmid) pmid b'@' ≡ true
unfolding email_id
check_domain_suffix-email_id withid pmid e = rw (e, email_id) (joined_fits withid pmid b'@')
