-- ===== src/Modules/Import.antt =====
-- ModuleDB::handleGetConfig of moduledb.cpp, once the module has reported its objects and parsetree has made
-- rows of them: the rows are created in the database, each under the uuid that its parent has got. The calls
-- of DBManager and the text of a number are parameters.
use openpanel_opencore.Prelude.{
  ℕ, String, Bool, Option, none, some, List, [], ◌∷◌, ◌⊎◌, inl, inr, find_key, put_key, has_name,
  if◌then◌else◌,
}
use openpanel_opencore.Modules.Flatten.{ParentRef, no_parent, at_position, named, Row}

pub record Importer (D : Type 0) : Type 0 where
  -- `localid = obj["id"].sval()`
  pub text : ℕ → String
  -- `db.createObject (parentid, obj["members"], oclass, metaid, false, true)`
  pub create_object : String → Row → D → Option String × D
  -- `db.getLastErrorCode() == ERR_DBMANAGER_EXISTS`
  pub already_exists : D → Bool
  -- `db.findObject (nokey, parentclass, nokey, parent)`
  pub find_object : String → String → D → String

-- What is done with a row: it is left out, or created under a parent.
pub data Decision : Type 0 where
  leave_out : Decision
  create_under : String → Decision

-- The maps `uuids` and `skipparents`, and the database.
pub record Progress (D : Type 0) : Type 0 where
  pub uuids : List (String × String)
  pub skipparents : List String
  pub database : D

module _ {D : Type 0} (im : Importer D) where
  -- `uuids`, then `skipparents`, then what is left.
  unfoldable pub resolve : String → String → Progress D → Decision
  unfolding find_key has_name
  resolve parent otherwise s = elim (find_key parent s.uuids) [
    | some uuid ↦ create_under uuid
    | none ↦ if has_name parent s.skipparents then leave_out else create_under otherwise
  ]

  unfoldable pub decide : ParentRef → Progress D → Decision
  unfolding resolve
  decide no_parent s = create_under ""
  decide (at_position p) s = resolve (im.text p) "" s
  decide (named parent class) s = resolve parent (im.find_object class parent s.database) s

  abbrev pub skip : String → Progress D → Progress D
  skip id s = record s { skipparents = id ∷ s.skipparents }

  -- The answer of createObject: the left is the moduleInitException.
  unfoldable pub answer : Row → Option String → Progress D → Progress D ⊎ Progress D
  unfolding put_key
  answer row (some uuid) s = inr (record s { uuids = put_key (im.text row.id) uuid s.uuids })
  answer row none s = if im.already_exists s.database then inr (skip row.metaid s) else inl s

  unfoldable pub import_row : Row → Decision → Progress D → Progress D ⊎ Progress D
  unfolding answer
  import_row row leave_out s = inr (skip (im.text row.id) s)
  import_row row (create_under parentid) s =
      let (uuid, d) = im.create_object parentid row s.database in
      answer row uuid (record s { database = d })

  -- The loop of handleGetConfig over the rows.
  unfoldable pub import_rows : List Row → Progress D → Progress D ⊎ Progress D
  unfolding decide import_row
  import_rows [] s = inr s
  import_rows (row ∷ rows) s = elim (import_row row (decide row.parent s) s) [
    | inl t ↦ inl t
    | inr t ↦ import_rows rows t
  ]
