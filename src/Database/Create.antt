-- ===== src/Database/Create.antt =====
-- DBManager::createObject of dbmanager.cpp, with _setpowermirror.
use openpanel_opencore.Prelude.{
  ℕ, String, Bool, true, false, not, ◌&&◌, ◌||◌, ◌==◌, Option, none, some, List, [], ◌∷◌, ◌++◌, eqb,
  leb, is_zero, if◌then◌else◌,
}
use openpanel_opencore.Database.Realm.{codes, check_domain_suffix}
use openpanel_opencore.Database.Tables.{
  Object, Power, Tables, by_uuid, id_of, owner_of, find_local_id, has_power,
}
use openpanel_opencore.Database.Access.{
  Backend, ClassData, Manager, fail, err_failure, err_noperm, err_inval, err_quota, find_class_id,
  get_class_data, find_metaid, is_metaid, class_name_from_uuid, find_object, user_is_gone,
  check_field_list,
}
use openpanel_opencore.Database.Insert.{
  NewObject, no_owner, same_context, unique_context, insert_object, copy_prototype,
}
use openpanel_opencore.Database.Update.{report_success}
use openpanel_opencore.Database.Quota.{QuotaReply, denied, counted, get_user_quota}

-- The rows that the third REPLACE of _setpowermirror selects.
unfoldable pub inherited : ℕ → ℕ → List Power → List Power
inherited uid userid [] = []
inherited uid userid (row ∷ rest) =
    if eqb row.userid userid
    then record { userid = uid; powerid = row.powerid } ∷ inherited uid userid rest
    else inherited uid userid rest

-- DBManager::_setpowermirror. No UNIQUE constraint stands on the table, so REPLACE appends.
unfoldable pub set_power_mirror : ℕ → ℕ → List Power → List Power
unfolding inherited
set_power_mirror uid userid pm =
    let pm' =
      pm
      ++ record { userid = uid; powerid = userid } ∷ record { userid = uid; powerid = uid } ∷ [] in
    pm' ++ inherited uid userid pm'

-- The two branches of the transaction on `ofclass` and on `useruuid`.
unfoldable pub mirror_user : String → String → ℕ → Tables → Tables
unfolding set_power_mirror find_local_id
mirror_user ofclass useruuid insertid t =
    if ofclass == "User"
    then record t {
      powermirror =
          set_power_mirror insertid (find_local_id useruuid t.objects) t.powermirror
          ++ (if useruuid == "" then record { userid = 0; powerid = insertid } ∷ [] else []);
    }
    else t

-- The transaction at the end of createObject.
unfoldable pub commit_object : Backend → String → NewObject → Manager → Option String × Manager
unfolding insert_object mirror_user
commit_object b ofclass v m = elim (insert_object b v m.tables) [
  | none ↦ fail err_failure none m
  | some t ↦ (some v.uuid, record m { tables = mirror_user ofclass m.useruuid m.tables.next_id t })
]

-- The separator of a parent realm; another realm leaves `sep` as it was.
unfoldable pub separator : Backend → String → ℕ
separator b realm =
    if realm == "emailsuffix"
    then b'@'
    else if realm == "domainsuffix"
    then b'.'
    else b.uninitialised

-- The checks on `singleton` and `requires`: an error, or nothing.
unfoldable pub check_parent : Backend → ClassData → String → String → ℕ → Manager → Bool × Manager
unfolding class_name_from_uuid check_domain_suffix separator find_metaid
check_parent b cd metaid parent parentid m = elim cd.requires [
  | none ↦ if is_zero parentid then (true, m) else fail err_inval false m
  | some required ↦
      let (parentclass, m') = class_name_from_uuid b parent m in
      if not (required == parentclass) then fail err_inval false m' else elim cd.parentrealm [
        | none ↦ (true, m')
        | some realm ↦
            if check_domain_suffix (codes metaid) (codes (find_metaid b parentid m'.tables))
              (separator b realm)
            then (true, m')
            else fail err_inval false m'
      ]
]

unfoldable pub check_singleton : ClassData → String → Bool
check_singleton cd metaid = elim cd.singleton [ none ↦ true | some only ↦ only == metaid ]

-- What a call of createObject is about.
pub record Request : Type 0 where
  pub parent : String
  pub members : List (String × String)
  pub ofclass : String
  pub metaid : String
  pub permcheck : Bool
  pub immediate : Bool

abbrev pub metaid_column : String → Option String
metaid_column metaid = if metaid == "" then none else some metaid

-- SELECT id,owner FROM objects WHERE uuid=..., where a parent is named. No parent is `none`, for the
-- -1 of the source; a parent that is not there reads as id and owner 0.
abbrev pub parent_row : String → Tables → Option (ℕ × ℕ)
parent_row parent t =
    if parent == ""
    then none
    else some (id_of (by_uuid parent t.objects), owner_of (by_uuid parent t.objects))

abbrev pub parent_id : Option (ℕ × ℕ) → ℕ
parent_id none = 0
parent_id (some (id, owner)) = id

abbrev pub parent_owner : Option (ℕ × ℕ) → Option ℕ
parent_owner none = none
parent_owner (some (id, owner)) = some owner

-- `ownerid`, or the user where it is -1.
abbrev pub owner_or : ℕ → Option ℕ → ℕ
owner_or user none = user
owner_or user (some owner) = if eqb owner no_owner then user else owner

-- SELECT id FROM objects WHERE metaid=... AND class=... AND uniquecontext=...
unfoldable pub prototypes : Backend → ℕ → List Object → List ℕ
prototypes b classid [] = []
prototypes b classid (o ∷ rest) =
    if is_metaid b "$prototype$" o.metaid
      && eqb o.class classid
      && same_context o.uniquecontext (some classid)
    then o.id ∷ prototypes b classid rest
    else prototypes b classid rest

abbrev pub uuid_text : Option String → String
uuid_text none = ""
uuid_text (some uuid) = uuid

abbrev pub owner_or_none : Option ℕ → ℕ
owner_or_none none = no_owner
owner_or_none (some owner) = owner

-- The copy of the only prototype of a class, and reportSuccess where the call is immediate.
unfoldable pub instantiate :
    Backend
    → ℕ
    → Request
    → Option (ℕ × ℕ)
    → ℕ
    → NewObject
    → Manager
    → Option (Option String × Manager)
unfolding copy_prototype report_success
instantiate b fuel r row id v m =
    elim (copy_prototype b fuel id (parent_id row) (owner_or_none (parent_owner row)) r.metaid
      v.members m) [
        | none ↦ none
        | some (res, m') ↦
            some (if r.immediate then (res, (report_success (uuid_text res) m').1) else (res, m'))
      ]

-- The branch on `magicdelimiter`, and the transaction where it does not end the call.
unfoldable pub store_object :
    Backend
    → ℕ
    → Request
    → ClassData
    → Option (ℕ × ℕ)
    → NewObject
    → Manager
    → Option (Option String × Manager)
unfolding prototypes commit_object instantiate
store_object b fuel r cd row v m = elim cd.magicdelimiter [
  | none ↦ some (commit_object b r.ofclass v m)
  | some delimiter ↦
      if not (delimiter == "$") || not (cd.prototype == "prototype")
      then some (fail err_inval none m)
      else elim (prototypes b v.class m.tables.objects) [
        | [] ↦ some (commit_object b r.ofclass v m)
        | id ∷ more ↦ elim more [
          | [] ↦ instantiate b fuel r row id v m
          | x ∷ y ↦ some (commit_object b r.ofclass v m)
        ]
      ]
]

-- `currentquota != -1 && currentusage >= currentquota`; the reply -2 does not occur for the own quota.
abbrev pub over_quota : QuotaReply → Bool
over_quota denied = true
over_quota (counted none n) = false
over_quota (counted (some quota) n) = leb quota n

-- createObject from the test of `permcheck` on: "don't do anything, just report".
unfoldable pub check_and_store :
    Backend
    → ℕ
    → Request
    → ClassData
    → Option (ℕ × ℕ)
    → NewObject
    → Manager
    → Option (Option String × Manager)
unfolding check_singleton check_parent store_object
check_and_store b fuel r cd row v m =
    let (fits, m') = check_parent b cd r.metaid r.parent (parent_id row) m in
    let rest = store_object b fuel r cd row v m' in
    if r.permcheck
    then some (some "allowed", m)
    else if not (check_singleton cd r.metaid)
    then some (fail err_inval none m)
    else if fits
    then rest
    else some (none, m')

-- createObject from the check on the parent's rights on.
unfoldable pub place_object :
    Backend
    → ℕ
    → Request
    → ClassData
    → Option (ℕ × ℕ)
    → NewObject
    → Manager
    → Option (Option String × Manager)
unfolding has_power find_local_id get_user_quota check_and_store
place_object b fuel r cd row v m =
    let parentid = parent_id row in
    if not m.god
      && not (is_zero parentid)
      && not (has_power parentid (find_local_id m.useruuid m.tables.objects) m.tables)
    then some (fail err_noperm none m)
    else elim (get_user_quota b fuel r.ofclass "" m) [
      | none ↦ none
      | some reply ↦
          if not m.god && over_quota reply
          then some (fail err_quota none m)
          else check_and_store b fuel r cd row v m
    ]

-- The row of the new object.
abbrev pub new_row :
    String → Request → ℕ → Option ℕ → List (String × String) → Option (ℕ × ℕ) → ℕ → NewObject
new_row uuid r classid context members row user = record {
  uuid = uuid;
  metaid = metaid_column r.metaid;
  parent = parent_id row;
  owner = owner_or user (parent_owner row);
  uniquecontext = context;
  class = classid;
  members = members;
}

-- DBManager::createObject, with the uuid that strutil::uuid makes, on fuel for the walk of
-- getUserQuota and for the depth of a prototype. The outer `none` is that the fuel ran out; the
-- inner one is the empty text.
unfoldable pub create_object :
    Backend → ℕ → String → Request → Manager → Option (Option String × Manager)
unfolding user_is_gone find_class_id get_class_data check_field_list find_object by_uuid
    unique_context find_local_id place_object
create_object b fuel uuid r m =
    let t = m.tables in
    let (gone, m1) = user_is_gone b m in
    let classid = find_class_id b r.ofclass t in
    let cd = get_class_data b classid t in
    let (checked, m2) = check_field_list b cd r.members m1 in
    let m3 = (find_object b "" "Class" "" r.ofclass m2).1 in
    let row = parent_row r.parent t in
    if r.metaid == "$prototype$" && not m.god
    then some (fail err_noperm none m)
    else if gone
    then some (none, m1)
    else elim checked [
      | none ↦ some (none, m2)
      | some members ↦ elim (unique_context b cd classid (parent_id row) t) [
        | none ↦ some (fail err_failure none m3)
        | some context ↦
            place_object b fuel r cd row
              (new_row uuid r classid context members row (find_local_id m.useruuid t.objects)) m3
      ]
    ]
