-- ===== src/Requests/Update.antt =====
-- CoreSession::updateObject of session.cpp.
use openpanel_opencore.Prelude.{
  String, Bool, true, false, not, ◌||◌, ◌==◌, Option, none, some, List, [], ◌∷◌, if◌then◌else◌,
}
use openpanel_opencore.Requests.Services.{
  status_ok, status_failed, status_postponed, Core, Param, Class, Values, Store, Modules, on_db,
  on_modules, refuse, err_action_failed, err_class_unknown, err_object_not_found, err_validation,
  err_crypt, err_iclass,
}
use openpanel_opencore.Requests.Crypts.{find_either, handle_crypts}
use openpanel_opencore.Requests.Cascade.{refuse_db, cascade_after}
use openpanel_opencore.Requests.Create.{either, class_is_dynamic, add_parent}

module _ {S V W : Type 0} (x : Values V) (store : Store S V) (mods : Modules S V W) where
  -- The members that the request may not set or leaves out come from the old object.
  unfoldable pub fill_in : String → List Param → V → V → V
  fill_in ofclass [] old param = param
  fill_in ofclass (p ∷ rest) old param =
      if not p.enabled || not (x.exists param p.id)
      then fill_in ofclass rest old (x.set p.id (x.class_get old ofclass p.id) param)
      else fill_in ofclass rest old param

  -- The object before the update, with its uuid where the database holds it.
  unfoldable pub old_object : String → String → String → Core S W → Option (String × V) × Core S W
  unfolding class_is_dynamic find_either
  old_object parentid ofclass withid c =
      let (held, c') = mods.sync_dynamic parentid ofclass withid c in
      let (uuid, c1) = on_db (find_either x store mods parentid ofclass withid) c in
      let (object, c2) = on_db (store.fetch_object uuid false) c1 in
      if class_is_dynamic x store mods ofclass
      then (some ("", held), c')
      else if uuid == ""
      then refuse err_object_not_found none c1
      else elim object [
        | none ↦ refuse err_object_not_found none c2
        | some old ↦ (some (uuid, old), c2)
      ]

  -- The module's action and the report on it to the database. `uuid` is empty for an object that the
  -- module holds.
  unfoldable pub act_update : String → String → String → String → V → Core S W → Bool × Core S W
  unfolding cascade_after
  act_update parentid ofclass withid uuid ctx c =
      let (status, c1) = on_modules (mods.update_object ofclass withid ctx) c in
      let (marked, c2) = on_db (store.report_success uuid) c1 in
      let (again, c3) =
        on_db (store.fetch_object uuid true) (record c2 { error = store.last_error c2.db }) in
      elim status [
        | status_ok ↦
            if marked then (true, cascade_after x store mods parentid ofclass c2) else elim again [
              | none ↦ (false, c3)
              | some parm ↦
                  (false, (on_modules (mods.update_object ofclass uuid (x.merge ctx parm)) c3).1)
            ]
        | status_failed ↦ (
          false,
          (on_db (store.report_update_failure uuid) (record c1 { error = err_action_failed })).1,
        )
        | status_postponed ↦ (true, cascade_after x store mods parentid ofclass c1)
      ]

  -- An object of the database.
  unfoldable pub update_static :
      String → String → String → V → String → Bool → Core S W → Bool × Core S W
  unfolding act_update
  update_static parentid ofclass withid param uuid immediate c =
      let (updated, c1) = on_db (store.update_object param uuid immediate) c in
      let (fetched, c2) = on_db (store.fetch_object uuid true) c1 in
      if not updated
      then refuse_db x store mods false c1
      else if immediate
      then (true, c1)
      else elim fetched [
        | none ↦ (false, c2)
        | some parm ↦
            act_update parentid ofclass withid uuid
              (x.merge (x.context (x.head_id parm) ofclass (either x store mods withid uuid)) parm)
              c2
      ]

  -- An object that the module holds.
  unfoldable pub update_dynamic :
      Class V → String → String → String → V → Core S W → Bool × Core S W
  unfolding add_parent act_update
  update_dynamic cl parentid ofclass withid param c =
      let ctx = x.merge (x.context ofclass ofclass withid) (x.member ofclass param) in
      let (full, c') = add_parent x store mods cl parentid ofclass ctx c in
      act_update parentid ofclass withid "" full c'

  -- updateObject from the old object on.
  unfoldable pub update_with :
      Class V → String → String → String → V → String → V → Bool → Core S W → Bool × Core S W
  unfolding fill_in handle_crypts class_is_dynamic update_static update_dynamic
  update_with cl parentid ofclass withid param uuid old immediate c =
      elim (cl.normalize (fill_in ofclass cl.params old param)) [
        | none ↦ refuse err_validation false c
        | some normal ↦
            let (crypted, c') = handle_crypts x store mods parentid ofclass withid normal c in
            elim crypted [
              | none ↦ refuse err_crypt false c'
              | some v ↦
                  if class_is_dynamic x store mods ofclass
                  then update_dynamic cl parentid ofclass withid v c'
                  else update_static parentid ofclass withid v uuid immediate c'
            ]
      ]

  -- CoreSession::updateObject
  unfoldable pub update_request : String → String → String → V → Bool → Core S W → Bool × Core S W
  unfolding old_object update_with
  update_request parentid ofclass withid param immediate c =
      let (done, c') = mods.internal_update ofclass parentid withid param c in
      let (old, c'') = old_object parentid ofclass withid c in
      if mods.is_internal ofclass
      then if done then (true, c') else refuse err_iclass false c'
      else elim (mods.get_class ofclass) [
        | none ↦ refuse err_class_unknown false c
        | some cl ↦ elim old [
          | none ↦ (false, c'')
          | some (uuid, v) ↦ update_with cl parentid ofclass withid param uuid v immediate c''
        ]
      ]
