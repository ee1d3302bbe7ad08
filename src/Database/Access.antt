-- ===== src/Database/Access.antt =====
-- The state of a DBManager and the lookups that its methods share: findclassid, getClassData,
-- classNameFromUUID, findObject, userisgone and checkfieldlist of dbmanager.cpp. The caches of class
-- names and class data are left out: they answer as the table does.
use openpanel_opencore.Prelude.{
  ℕ, String, Bool, true, false, not, ◌&&◌, ◌||◌, ◌==◌, Option, none, some, List, [], ◌∷◌, eqb,
  is_zero, if◌then◌else◌,
}
use openpanel_opencore.Database.Tables.{
  Object, Tables, by_id, by_uuid, id_of, content_of, is_some, find_local_id, has_power,
}

-- The attributes of a class that DBManager reads, from the content of the class's object.
pub record ClassData : Type 0 where
  pub uniquein : Option String
  pub uniqueclass : Option String
  pub singleton : Option String
  pub requires : Option String
  pub parentrealm : Option String
  pub magicdelimiter : Option String
  pub prototype : String
  pub worldreadable : Bool
  -- a field of the class: its type, and the class that a `ref` names
  pub field : String → Option (String × String)

-- What DBManager takes from the grace library and from SQLite: the XML of an object's members and of
-- a class, the NOCASE comparison of the column `metaid`, valueparse's substitution for the token of a
-- prototype, the uuid that is made when the next id is known, and what an uninitialised `char` holds.
pub record Backend : Type 0 where
  pub toxml : List (String × String) → String
  pub fromxml : String → List (String × String)
  pub class_data : String → ClassData
  pub valueparse : String → String → String
  pub fresh_uuid : ℕ → String
  pub nocase : String → String → Bool
  pub uninitialised : ℕ

pub record Manager : Type 0 where
  pub tables : Tables
  pub god : Bool
  pub useruuid : String
  pub errorcode : ℕ

-- error.h
abbrev pub err_failure : ℕ
err_failure = 0x2000

abbrev pub err_loginfail : ℕ
err_loginfail = 0x2001

abbrev pub err_notfound : ℕ
err_notfound = 0x2003

abbrev pub err_noperm : ℕ
err_noperm = 0x2004

abbrev pub err_inval : ℕ
err_inval = 0x2006

abbrev pub err_quota : ℕ
err_quota = 0x2007

-- A method that gives up with an error code, or with the code that was there before.
abbrev pub fail {ℓ} : {A : Type ℓ} → ℕ → A → Manager → A × Manager
fail code a m = (a, record m { errorcode = code })

module _ (b : Backend) where
  open b use {class_data, nocase}

  abbrev pub is_metaid : String → Option String → Bool
  is_metaid id none = false
  is_metaid id (some metaid) = nocase metaid id

  -- SELECT id FROM objects WHERE class=1 AND metaid=...
  unfoldable pub class_object : String → List Object → Option Object
  class_object name [] = none
  class_object name (o ∷ rest) =
      if eqb o.class 1 && is_metaid name o.metaid then some o else class_object name rest

  -- DBManager::findclassid
  unfoldable pub find_class_id : String → Tables → ℕ
  unfolding class_object
  find_class_id name t = id_of (class_object name t.objects)

  -- DBManager::getClassData
  unfoldable pub get_class_data : ℕ → Tables → ClassData
  unfolding by_id
  get_class_data classid t = class_data (content_of (by_id classid t.objects))

  abbrev pub metaid_text : Option String → String
  metaid_text none = ""
  metaid_text (some metaid) = metaid

  -- DBManager::_findmetaid
  unfoldable pub find_metaid : ℕ → Tables → String
  unfolding by_id
  find_metaid id t = elim (by_id id t.objects) [ none ↦ "" | some o ↦ metaid_text o.metaid ]

  -- DBManager::_classNameFromUUID
  unfoldable pub class_name : ℕ → Tables → String
  unfolding by_id
  class_name classid t = elim (by_id classid t.objects) [
    | none ↦ ""
    | some o ↦ if eqb o.class 1 then metaid_text o.metaid else ""
  ]

  -- DBManager::classNameFromUUID
  unfoldable pub class_name_from_uuid : String → Manager → String × Manager
  unfolding by_uuid class_name
  class_name_from_uuid uuid m = elim (by_uuid uuid m.tables.objects) [
    | none ↦ fail err_notfound "" m
    | some o ↦ (if eqb o.class 1 then metaid_text o.metaid else class_name o.class m.tables, m)
  ]

  -- What findObject puts into its WHERE clause; an empty argument is left out.
  abbrev pub matches : ℕ → String → String → String → ℕ → Object → Bool
  matches classid withuuid withmetaid parent parentid o =
      (is_zero classid || eqb o.class classid)
      && (withuuid == "" || o.uuid == withuuid)
      && (withmetaid == "" || is_metaid withmetaid o.metaid)
      && (parent == "" || eqb o.parent parentid)

  unfoldable pub first_match : (Object → Bool) → List Object → Option Object
  first_match test [] = none
  first_match test (o ∷ rest) = if test o then some o else first_match test rest

  -- The rights that findObject asks for.
  unfoldable pub may_see : ℕ → Object → Manager → Bool
  unfolding has_power find_local_id get_class_data
  may_see classid o m =
      m.god
      || has_power o.id (find_local_id m.useruuid m.tables.objects) m.tables
      || o.uuid == m.useruuid
      || (get_class_data classid m.tables).worldreadable

  -- DBManager::findObject; the empty text is "not found".
  unfoldable pub find_object : String → String → String → String → Manager → String × Manager
  unfolding find_class_id first_match may_see find_local_id
  find_object parent ofclass withuuid withmetaid m =
      let classid = find_class_id ofclass m.tables in
      if not (ofclass == "") && is_zero classid
      then fail err_notfound "" m
      else if withuuid == "" && withmetaid == "" && parent == ""
      then fail err_inval "" m
      else elim (first_match
          (matches classid withuuid withmetaid parent (find_local_id parent m.tables.objects))
          m.tables.objects) [
            | none ↦ fail err_notfound "" m
            | some o ↦ if may_see classid o m then (o.uuid, m) else fail err_noperm "" m
          ]

  -- DBManager::userisgone
  unfoldable pub user_is_gone : Manager → Bool × Manager
  unfolding by_uuid
  user_is_gone m =
      if m.god
      then (false, m)
      else if is_some (by_uuid m.useruuid m.tables.objects)
      then (false, m)
      else fail err_loginfail true m

  -- The members that an object may carry although its class does not define them.
  unfoldable pub is_builtin : String → Bool
  is_builtin fid =
      fid == "id"
      || fid == "uuid"
      || fid == "metaid"
      || fid == "parentid"
      || fid == "ownerid"
      || fid == "owner-metaid"

  -- One round of the loop of DBManager::checkfieldlist: the field's value, or `none`.
  unfoldable pub check_field : ClassData → String → String → Manager → Option String × Manager
  unfolding find_object find_local_id is_builtin
  check_field cd fid val m = elim (cd.field fid) [
    | none ↦ if is_builtin fid then (some val, m) else (none, m)
    | some (type, refclass) ↦
        if type == "ref" && is_zero (find_local_id val m.tables.objects)
        then (let (uuid, m') = find_object "" refclass "" val m in
            if uuid == "" then (none, m') else (some uuid, m'))
        else (some val, m)
  ]

  -- `members.rmval` for the three names at the end of checkfieldlist
  abbrev pub is_removed : String → Bool
  is_removed fid = fid == "id" || fid == "uuid" || fid == "metaid"

  -- DBManager::checkfieldlist: the members to store, or `none`.
  unfoldable pub check_field_list :
      ClassData → List (String × String) → Manager → Option (List (String × String)) × Manager
  unfolding check_field
  check_field_list cd [] m = (some [], m)
  check_field_list cd ((fid, val) ∷ rest) m =
      let (o, m') = check_field cd fid val m in
      let (r, m'') = check_field_list cd rest m' in
      elim o [
        | none ↦ (none, m')
        | some v ↦ elim r [
          | none ↦ (none, m'')
          | some members ↦ (some (if is_removed fid then members else (fid, v) ∷ members), m'')
        ]
      ]
