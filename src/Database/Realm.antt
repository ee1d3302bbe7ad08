-- ===== src/Database/Realm.antt =====
-- DBManager::_checkdomainsuffix of dbmanager.cpp, on texts as lists of bytes.
use Prim.Native.Char.{code}
use openpanel_opencore.Prelude.{
  ℕ, ◌+◌, ◌-◌, String, Bool, true, false, not, ◌&&◌, none, some, List, [], ◌∷◌, eqb, ltb, leb,
  length, drop, get_elem?, if◌then◌else◌,
}

abbrev pub codes : String → List ℕ
codes String.[] = []
codes (String.◌∷◌ c s) = code c ∷ codes s

-- strcasecmp
unfoldable pub lower : ℕ → ℕ
lower c = if leb b'A' c && leb c b'Z' then c + 32 else c

unfoldable pub same_text : List ℕ → List ℕ → Bool
unfolding lower
same_text [] [] = true
same_text [] (d ∷ ds) = false
same_text (c ∷ cs) [] = false
same_text (c ∷ cs) (d ∷ ds) = eqb (lower c) (lower d) && same_text cs ds

-- DBManager::_checkdomainsuffix. A read outside the text is no separator.
unfoldable pub check_domain_suffix : List ℕ → List ℕ → ℕ → Bool
unfolding same_text
check_domain_suffix child parent sep =
    if same_text child parent
    then true
    else if ltb (length child) (length parent)
    then false
    else if not (same_text (drop (length child - length parent) child) parent)
    then false
    else elim (get_elem? child (length child - length parent - 1)) [
      | none ↦ false
      | some s ↦ eqb s sep
    ]
