-- ===== src/Requests/Create.antt =====
-- CoreSession::createObject of session.cpp.
use openpanel_opencore.Prelude.{
  String, Bool, true, false, not, ◌&&◌, ◌||◌, ◌==◌, Option, none, some, if◌then◌else◌,
}
use openpanel_opencore.Requests.Services.{
  status_ok, status_failed, status_postponed, Core, Class, Values, Store, Modules, on_db,
  on_modules, refuse, err_action_failed, err_class_unknown, err_index, err_noindex, err_chown,
  err_validation, err_parentrealm, err_createproto, err_iclass,
}
use openpanel_opencore.Requests.Crypts.{find_either, handle_crypts}
use openpanel_opencore.Requests.Naming.{domain_id, email_id}
use openpanel_opencore.Requests.Cascade.{refuse_db, chown_to, cascade_after}

-- What stands before the module's action: a finished call, or the uuid, the object's parameters and the
-- context for the module.
pub data Prepared (S V W : Type 0) : Type 0 where
  done : Option String → Core S W → Prepared S V W
  ready : String → V → V → Core S W → Prepared S V W

module _ {S V W : Type 0} (x : Values V) (store : Store S V) (mods : Modules S V W) where
  abbrev pub either : String → String → String
  either withid uuid = if withid == "" then uuid else withid

  -- ModuleDB::classIsDynamic
  unfoldable pub class_is_dynamic : String → Bool
  class_is_dynamic name = elim (mods.get_class name) [ none ↦ false | some cl ↦ cl.dynamic ]

  -- What the required parent adds to the context of an object that the module holds.
  unfoldable pub add_parent : Class V → String → String → V → Core S W → V × Core S W
  unfolding class_is_dynamic find_either
  add_parent cl parentid ofclass ctx c =
      let (held, c1) = mods.sync_dynamic "" cl.requires parentid c in
      let (puuid, c2) = on_db (find_either x store mods "" ofclass parentid) c in
      let (pv, c3) = on_db (store.fetch_object puuid false) c2 in
      if cl.requires == "" || parentid == ""
      then (ctx, c)
      else if class_is_dynamic cl.requires
      then (x.merge ctx held, c1)
      else (elim pv [ none ↦ ctx | some v ↦ x.merge ctx v ], c3)

  -- An object that the module holds.
  unfoldable pub prepare_dynamic :
      Class V → String → String → String → V → Core S W → Prepared S V W
  unfolding add_parent
  prepare_dynamic cl parentid ofclass withid param c =
      let uuid = mods.fresh_uuid in
      let ctx = x.merge (x.context ofclass ofclass (either withid uuid)) (x.member ofclass param) in
      let (full, c') = add_parent cl parentid ofclass ctx c in ready uuid x.empty full c'

  -- After the database has the object: its parameters for the module, unless the call is immediate.
  unfoldable pub fetch_created : String → String → Bool → String → Core S W → Prepared S V W
  fetch_created ofclass withid immediate uuid c =
      let (parm, c') = on_db (store.fetch_object uuid true) c in
      if immediate then done (some uuid) c else elim parm [
        | none ↦ done none c'
        | some v ↦
            ready uuid v (x.merge (x.context (x.head_id v) ofclass (either withid uuid)) v) c'
      ]

  -- An object of the database, with the owner that the request names.
  unfoldable pub prepare_static :
      String → String → String → V → String → Bool → Core S W → Prepared S V W
  unfolding chown_to fetch_created
  prepare_static parentid ofclass withid param owner immediate c =
      let (uuid, c1) = on_db (store.create_object parentid param ofclass withid immediate) c in
      let (owned, c2) = chown_to x store mods uuid owner c1 in
      let c3 = (on_db (store.report_create_failure uuid) c2).1 in
      if uuid == ""
      then (let (r, c') = refuse_db x store mods none c1 in done r c')
      else if owner == ""
      then fetch_created ofclass withid immediate uuid c1
      else if owned
      then fetch_created ofclass withid immediate uuid c2
      else (let (r, c') = refuse err_chown none c3 in done r c')

  -- The module's action and the report on it to the database.
  unfoldable pub act :
      String → String → String → String → V → V → Core S W → Option String × Core S W
  unfolding cascade_after
  act parentid ofclass withid uuid parm ctx c =
      let (status, c1) = on_modules (mods.create_object ofclass withid ctx) c in
      let (marked, c2) = on_db (store.report_success uuid) c1 in
      elim status [
        | status_ok ↦
            if marked
            then (some uuid, cascade_after x store mods parentid ofclass c2)
            else (let c3 = record c2 { error = store.last_error c2.db } in
                (none, (on_modules (mods.delete_object ofclass uuid parm) c3).1))
        | status_failed ↦ (
          none,
          (on_db (store.report_create_failure uuid) (record c1 { error = err_action_failed })).1,
        )
        | status_postponed ↦ (some uuid, cascade_after x store mods parentid ofclass c1)
      ]

  -- From handleCrypts on.
  unfoldable pub store_and_act :
      Class V → String → String → String → V → String → Bool → Core S W → Option String × Core S W
  unfolding handle_crypts class_is_dynamic prepare_dynamic prepare_static act
  store_and_act cl parentid ofclass withid param owner immediate c =
      let (r, c') = handle_crypts x store mods parentid ofclass withid param c in
      elim r [
        | none ↦ (none, c')
        | some crypted ↦
            elim (if class_is_dynamic ofclass
              then prepare_dynamic cl parentid ofclass withid crypted c'
              else prepare_static parentid ofclass withid crypted owner immediate c') [
                | done res c'' ↦ (res, c'')
                | ready uuid parm ctx c'' ↦ act parentid ofclass withid uuid parm ctx c''
              ]
      ]

  -- The branch on the class's parent realm: the id, or a refusal.
  unfoldable pub complete_id : Class V → String → String → Core S W → Option String × Core S W
  unfolding domain_id email_id
  complete_id cl parentid withid c =
      let (found, c') = on_db (store.fetch_object parentid false) c in
      if cl.parentrealm == "" then (some withid, c) else elim found [
        | none ↦ refuse err_parentrealm none c'
        | some parent ↦
            let pmid = x.metaid parent in
            if pmid == ""
            then refuse err_parentrealm none c'
            else if not cl.hasprototype && x.contains_prototype pmid
            then refuse err_createproto none c'
            else if cl.parentrealm == "domainsuffix"
            then (some (x.text (domain_id (x.codes withid) (x.codes pmid))), c')
            else if cl.parentrealm == "emailsuffix"
            then (some (x.text (email_id (x.codes withid) (x.codes pmid))), c')
            else (some withid, c')
      ]

  abbrev pub with_new_id : Bool → String → V → V
  with_new_id realm withid param =
      if realm && x.exists param "id" then x.set "id" withid param else param

  -- createObject from the lookup of the class on.
  unfoldable pub create_in_class :
      Class V → String → String → V → String → String → Bool → Core S W → Option String × Core S W
  unfolding complete_id store_and_act
  create_in_class cl parentid ofclass param given owner immediate c =
      let named = if cl.singleton == "" then given else cl.singleton in
      let (completed, c') = complete_id cl parentid named c in
      if not cl.manualindex && not (named == "")
      then refuse err_index none c
      else if cl.manualindex && named == ""
      then refuse err_noindex none c
      else elim completed [
        | none ↦ (none, c')
        | some withid ↦
            elim (cl.normalize (with_new_id (not (cl.parentrealm == "")) withid param)) [
              | none ↦ refuse err_validation none c'
              | some normal ↦ store_and_act cl parentid ofclass withid normal owner immediate c'
            ]
      ]

  -- The owner that the request names, and the request without it.
  abbrev pub take_owner : V → String × V
  take_owner param =
      if x.exists param "owner"
      then (
        if x.get param "owner" == "Select ..." then "" else x.get param "owner",
        x.rmval "owner" param,
      )
      else ("", param)

  -- CoreSession::createObject
  unfoldable pub create_request :
      String → String → V → String → Bool → Core S W → Option String × Core S W
  unfolding create_in_class
  create_request parentid ofclass given withid immediate c =
      let (owner, rest) = take_owner given in
      let param = if withid == "" then rest else x.set "id" withid rest in
      let (r, c') = mods.internal_create ofclass parentid param withid c in
      if mods.is_internal ofclass
      then (elim r [ none ↦ refuse err_iclass none c' | some uuid ↦ (some uuid, c') ])
      else elim (mods.get_class ofclass) [
        | none ↦ refuse err_class_unknown none c
        | some cl ↦ create_in_class cl parentid ofclass param withid owner immediate c
      ]
