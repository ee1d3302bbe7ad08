-- ===== src/Requests/Naming.antt =====
-- The ids that CoreSession::createObject completes with the name of the parent, on texts as lists of
-- bytes.
use openpanel_opencore.Prelude.{
  ℕ, ◌-◌, Bool, true, false, not, ◌&&◌, ◌||◌, List, [], ◌∷◌, ◌++◌, eqb, ltb, length, drop,
  if◌then◌else◌,
}

unfoldable pub equal_text : List ℕ → List ℕ → Bool
equal_text [] [] = true
equal_text [] (d ∷ ds) = false
equal_text (c ∷ cs) [] = false
equal_text (c ∷ cs) (d ∷ ds) = eqb c d && equal_text cs ds

unfoldable pub is_prefix : List ℕ → List ℕ → Bool
is_prefix [] t = true
is_prefix (c ∷ cs) [] = false
is_prefix (c ∷ cs) (d ∷ ds) = eqb c d && is_prefix cs ds

-- string::copyuntil: the text before the first occurrence, or all of it.
unfoldable pub copy_until : List ℕ → List ℕ → List ℕ
unfolding is_prefix
copy_until [] pattern = []
copy_until (c ∷ cs) pattern =
    let rest = copy_until cs pattern in if is_prefix pattern (c ∷ cs) then [] else c ∷ rest

-- `t[-1] != '.'`; no text has 0 there.
unfoldable pub ends_in : ℕ → List ℕ → Bool
ends_in s [] = false
ends_in s (c ∷ []) = eqb c s
ends_in s (c ∷ d ∷ ds) = ends_in s (d ∷ ds)

unfoldable pub contains : ℕ → List ℕ → Bool
contains s [] = false
contains s (c ∷ cs) = eqb c s || contains s cs

-- The branch on "domainsuffix".
unfoldable pub domain_id : List ℕ → List ℕ → List ℕ
unfolding equal_text copy_until ends_in
domain_id withid pmid =
    if equal_text withid []
    then pmid
    else if equal_text withid pmid
    then withid
    else if not (ltb (length pmid) (length withid))
    then withid ++ b'.' ∷ pmid
    else if not (equal_text (drop (length withid - length pmid) withid) pmid)
    then withid ++ b'.' ∷ pmid
    else if ends_in b'.' (copy_until withid pmid)
    then withid
    else withid ++ b'.' ∷ pmid

-- The branch on "emailsuffix".
unfoldable pub email_id : List ℕ → List ℕ → List ℕ
unfolding contains
email_id withid pmid = if contains b'@' withid then withid else withid ++ b'@' ∷ pmid
