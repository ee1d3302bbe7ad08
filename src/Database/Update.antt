-- ===== src/Database/Update.antt =====
-- What changes or removes a stored object: updateObject, deleteObject, reportSuccess,
-- reportDeleteFailure, reportCreateFailure, reportUpdateFailure, chown and listObjectTree of
-- dbmanager.cpp. A deleted object keeps its row, with empty content, until reportSuccess.
use openpanel_opencore.Prelude.{
  ℕ, String, Bool, true, false, not, ◌&&◌, ◌||◌, ◌==◌, Option, none, some, List, [], ◌∷◌, eqb,
  is_zero, if◌then◌else◌,
}
use openpanel_opencore.Database.Tables.{Object, by_id, find_local_id, has_power}
use openpanel_opencore.Database.Insert.{conflicts}
use openpanel_opencore.Database.Access.{
  Backend, Manager, fail, err_failure, err_notfound, err_noperm, find_class_id, get_class_data,
  class_name, check_field_list, metaid_text,
}

-- The row of the id goes, and the new row takes its place in the order of ids.
unfoldable pub write : Object → List Object → List Object
write new [] = []
write new (o ∷ rest) = if eqb o.id new.id then new ∷ rest else o ∷ write new rest

-- The other rows that break a UNIQUE constraint with the new one go.
unfoldable pub displace : Backend → Object → List Object → List Object
unfolding conflicts
displace b new [] = []
displace b new (o ∷ rest) =
    if not (eqb o.id new.id) && conflicts b new (o ∷ [])
    then displace b new rest
    else o ∷ displace b new rest

-- REPLACE INTO objects, for a row whose id is there.
unfoldable pub replace : Backend → Object → List Object → List Object
unfolding write displace
replace b new xs = write new (displace b new xs)

abbrev pub on_objects : (List Object → List Object) → Manager → Manager
on_objects f m = record m { tables = record m.tables { objects = f m.tables.objects } }

-- SELECT COUNT(id) FROM objects WHERE owner=..., as a test against 0
unfoldable pub owns_any : ℕ → List Object → Bool
owns_any id [] = false
owns_any id (o ∷ rest) = eqb o.owner id || owns_any id rest

-- SELECT COUNT(id) FROM objects WHERE parent=..., as a test against 0
unfoldable pub has_child : ℕ → List Object → Bool
has_child id [] = false
has_child id (o ∷ rest) = eqb o.parent id || has_child id rest

abbrev is_prototype : Option String → Bool
is_prototype none = false
is_prototype (some metaid) = metaid == "$prototype$"

-- The part of updateObject after the object is fetched. escapeforinsert writes a NULL as an empty text.
unfoldable pub store_update :
    Backend → List (String × String) → String → Bool → Object → Manager → Bool × Manager
unfolding replace check_field_list class_name find_class_id get_class_data
store_update b members uuid deleted fetched m =
    let classid = find_class_id b (class_name b fetched.class m.tables) m.tables in
    if is_prototype fetched.metaid && deleted && not m.god
    then fail err_noperm false m
    else let (r, m') = check_field_list b (get_class_data b classid m.tables) members m in
      elim r [
        | none ↦ (false, m')
        | some checked ↦ (
          true,
          on_objects
              (replace b (record fetched {
                uuid = uuid;
                class = classid;
                metaid = some (metaid_text b fetched.metaid);
                content = if deleted then "" else b.toxml checked;
              }))
              m',
        )
      ]

-- DBManager::updateObject
unfoldable pub update_object :
    Backend → List (String × String) → String → Bool → Bool → Manager → Bool × Manager
unfolding find_local_id has_power owns_any by_id store_update
update_object b members uuid deleted asgod m =
    let t = m.tables in
    let localid = find_local_id uuid t.objects in
    if deleted && is_zero localid
    then (true, m)
    else if not m.god && not asgod && not (has_power localid (find_local_id m.useruuid t.objects) t)
    then fail err_noperm false m
    else if deleted && uuid == m.useruuid
    then fail err_failure false m
    else if deleted && owns_any localid t.objects
    then fail err_failure false m
    else elim (by_id localid t.objects) [
      | none ↦ fail err_notfound false m
      | some fetched ↦ store_update b members uuid deleted fetched m
    ]

-- DBManager::deleteObject
unfoldable pub delete_object : Backend → String → Bool → Manager → Bool × Manager
unfolding update_object
delete_object b uuid asgod m = update_object b [] uuid true asgod m

-- DELETE FROM objects WHERE content='' AND uuid=...
unfoldable pub purge : String → List Object → List Object
purge uuid [] = []
purge uuid (o ∷ rest) =
    if o.content == "" && o.uuid == uuid then purge uuid rest else o ∷ purge uuid rest

-- DELETE FROM objects WHERE uuid=...
unfoldable pub erase : String → List Object → List Object
erase uuid [] = []
erase uuid (o ∷ rest) = if o.uuid == uuid then erase uuid rest else o ∷ erase uuid rest

-- DBManager::reportSuccess
unfoldable pub report_success : String → Manager → Bool × Manager
unfolding purge
report_success uuid m = (true, on_objects (purge uuid) m)

-- DBManager::reportDeleteFailure
unfoldable pub report_delete_failure : String → Manager → Bool × Manager
unfolding erase
report_delete_failure uuid m = (true, on_objects (erase uuid) m)

-- DBManager::reportCreateFailure
unfoldable pub report_create_failure : String → Manager → Bool × Manager
unfolding erase
report_create_failure uuid m = (true, on_objects (erase uuid) m)

-- DBManager::reportUpdateFailure
unfoldable pub report_update_failure : String → Manager → Bool × Manager
report_update_failure uuid m = (true, m)

-- DBManager::chown. No branch that refuses sets an error code.
unfoldable pub chown : String → String → Manager → Bool × Manager
unfolding find_local_id has_power by_id has_child write
chown objectuuid useruuid m =
    let t = m.tables in
    let objid = find_local_id objectuuid t.objects in
    let nuserid = find_local_id useruuid t.objects in
    let uid = find_local_id m.useruuid t.objects in
    if is_zero objid || is_zero nuserid
    then (false, m)
    else if not m.god && not (has_power objid uid t && has_power nuserid uid t)
    then (false, m)
    else elim (by_id objid t.objects) [
      | none ↦ (false, m)
      | some o ↦
          if not (is_zero o.parent)
          then (false, m)
          else if has_child objid t.objects
          then (false, m)
          else (true, on_objects (write (record o { owner = nuserid })) m)
    ]
