-- ===== src/Modules/ImportTests.antt =====
-- handleGetConfig on a concrete tree, and its theorem at a concrete input.
use Prim.Native.String.{String, count}
use text.Mathlib.TextLemmas.{length-append}
use openpanel_opencore.Prelude.{
  ℕ, zero, suc, ◌+◌, ◌≡◌, refl, ap, ◌∙◌, sym, false, none, some, [], ◌∷◌, arith, All, inl, inr, ◌⊎◌,
}
use openpanel_opencore.Modules.Flatten.{Row, parsetree}
use openpanel_opencore.Modules.Import.{Importer, Progress, import_rows}
use openpanel_opencore.Modules.Imported.{
  Laws, IsImported, IsRefused, beginning, import_rows-IsImported,
}
use openpanel_opencore.Modules.Tests.{tree}

-- Numbers in strokes.
abbrev numeral : ℕ → String
numeral zero = ""
numeral (suc n) = Prim.Native.String.◌++◌ "1" (numeral n)

count-numeral : (n : ℕ) → count (numeral n) ≡ n
count-numeral zero = refl
count-numeral (suc n) = omega (arith, length-append "1" (numeral n), count-numeral n)

-- A store that takes every row, and gives out its name as the uuid.
abbrev importer : Importer ℕ
importer = record {
  text = numeral;
  create_object = λ parentid row d. (some row.metaid, d + 1);
  already_exists = λ d. false;
  find_object = λ class metaid d. metaid;
}

abbrev AnyRow : String → Row → String → Type 0
AnyRow parentid row uuid = uuid ≡ row.metaid

importer_laws : Laws importer AnyRow
importer_laws = record {
  made = λ parentid row d uuid e. cc;
  no_duplicate = λ d. refl;
  texts = λ i j e. sym (count-numeral i) ∙ ap count e ∙ count-numeral j;
}

abbrev imported : Progress ℕ
imported = record {
  uuids = ("", "a.org") ∷ ("1", "info") ∷ ("11", "b.org") ∷ [];
  skipparents = [];
  database = 3;
}

import_tree :
    import_rows importer
      (parsetree tree none [])
      (record { uuids = []; skipparents = []; database = 0 })
    ≡ inr imported
unfolding import_rows parsetree
import_tree = refl

import_rows-IsImported_example :
    ((t : Progress ℕ) × (import_rows importer
          (parsetree tree none [])
          (beginning importer AnyRow importer_laws 0)
        ≡ inl t)
      × IsRefused importer AnyRow importer_laws (parsetree tree none []))
    ⊎ ((t : Progress ℕ) × (import_rows importer
            (parsetree tree none [])
            (beginning importer AnyRow importer_laws 0)
          ≡ inr t)
        × All (IsImported importer AnyRow importer_laws t.uuids) (parsetree tree none []))
import_rows-IsImported_example = import_rows-IsImported importer AnyRow importer_laws tree 0
