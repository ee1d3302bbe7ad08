-- ===== src/Requests/Delete.antt =====
-- CoreSession::deleteObject of session.cpp.
use openpanel_opencore.Prelude.{
  String, Bool, true, false, not, ◌&&◌, ◌||◌, ◌==◌, Option, none, some, List, [], ◌∷◌,
  if◌then◌else◌,
}
use openpanel_opencore.Requests.Services.{
  Status, status_ok, status_failed, status_postponed, Core, Values, Store, Modules, on_db,
  on_modules, refuse, err_action_failed, err_notallowed, err_iclass,
}
use openpanel_opencore.Requests.Crypts.{find_either}
use openpanel_opencore.Requests.Cascade.{refuse_db, cascade_after}
use openpanel_opencore.Requests.Create.{either, class_is_dynamic}

module _ {S V W : Type 0} (x : Values V) (store : Store S V) (mods : Modules S V W) where
  abbrev pub value_or_empty : Option V → V
  value_or_empty none = x.empty
  value_or_empty (some v) = v

  -- The report to the database after the module's action; the module gets the object back where that
  -- fails.
  unfoldable pub confirm_delete : String → String → String → V → Core S W → Core S W
  confirm_delete ofclass withid uuid ctx c =
      let (marked, c1) = on_db (store.report_success uuid) c in
      let (parm, c2) =
        on_db (store.fetch_object uuid true) (record c1 { error = store.last_error c1.db }) in
      if marked
      then c1
      else (on_modules (mods.create_object ofclass withid (x.merge ctx (value_or_empty parm))) c2).1

  -- The answer of the module.
  unfoldable pub react : Bool → String → String → String → V → Status → Core S W → Bool × Core S W
  unfolding confirm_delete
  react first ofclass withid uuid ctx status_ok c = (true, confirm_delete ofclass withid uuid ctx c)
  react first ofclass withid uuid ctx status_failed c =
      if first
      then refuse err_action_failed false (on_db (store.report_delete_failure uuid) c).1
      else (true, confirm_delete ofclass withid uuid ctx c)
  react first ofclass withid uuid ctx status_postponed c = (true, c)

  -- One round of the loop for an object that the database has deleted: whether it goes on.
  unfoldable pub delete_in_module : Bool → String → String → String → Core S W → Bool × Core S W
  unfolding react
  delete_in_module first ofclass withid uuid c =
      let (fetched, c1) = on_db (store.fetch_object uuid true) c in
      let parm = value_or_empty fetched in
      let class = x.head_id parm in
      let ctx = x.merge (x.context class ofclass (either x store mods withid uuid)) parm in
      let (status, c2) = on_modules (mods.delete_object class withid ctx) c1 in
      if first && x.contains_prototype (x.metaid parm)
      then refuse err_notallowed false c1
      else react first ofclass withid uuid ctx status c2

  -- The loop over the objects of the tree.
  unfoldable pub delete_objects :
      Bool → String → String → Bool → List String → Core S W → Bool × Core S W
  unfolding delete_in_module
  delete_objects first ofclass withid immediate [] c = (true, c)
  delete_objects first ofclass withid immediate (uuid ∷ rest) c =
      let (deleted, c1) = on_db (store.delete_object uuid immediate true) c in
      let (goes_on, c2) = delete_in_module first ofclass withid uuid c1 in
      let next_immediate = delete_objects first ofclass withid immediate rest c1 in
      let next = delete_objects false ofclass withid immediate rest c2 in
      if not deleted
      then refuse_db x store mods false c1
      else if immediate
      then next_immediate
      else if goes_on
      then next
      else (false, c2)

  -- An object of the database, with the tree below it. `isDeleteable` says yes to all.
  unfoldable pub delete_static : String → String → String → Bool → Core S W → Bool × Core S W
  unfolding find_either delete_objects cascade_after
  delete_static parentid ofclass withid immediate c =
      let (uuid, c1) = on_db (find_either x store mods parentid ofclass withid) c in
      let (tree, c2) = on_db (store.list_tree uuid) c1 in
      if uuid == "" then refuse_db x store mods false c1 else elim tree [
        | none ↦ refuse_db x store mods false c2
        | some uuids ↦
            let (deleted, c3) = delete_objects true ofclass withid immediate uuids c2 in
            if deleted then (true, cascade_after x store mods parentid ofclass c3) else (false, c3)
      ]

  -- An object that the module holds: the module's answer is not read.
  unfoldable pub delete_dynamic : String → String → String → Core S W → Bool × Core S W
  delete_dynamic parentid ofclass withid c =
      let requires : String = elim (mods.get_class ofclass) [ none ↦ "" | some cl ↦ cl.requires ] in
      let ctx = x.context ofclass ofclass withid in
      let (held, c1) = mods.sync_dynamic "" requires parentid c in
      if requires == "" || parentid == ""
      then (true, (on_modules (mods.delete_object ofclass withid ctx) c).1)
      else (true, (on_modules (mods.delete_object ofclass withid (x.merge ctx held)) c1).1)

  -- CoreSession::deleteObject
  unfoldable pub delete_request : String → String → String → Bool → Core S W → Bool × Core S W
  unfolding class_is_dynamic delete_static delete_dynamic
  delete_request parentid ofclass withid immediate c =
      let (done, c') = mods.internal_delete ofclass parentid withid c in
      if mods.is_internal ofclass
      then if done then (true, c') else refuse err_iclass false c'
      else if class_is_dynamic x store mods ofclass
      then delete_dynamic parentid ofclass withid c
      else delete_static parentid ofclass withid immediate c
