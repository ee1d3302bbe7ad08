-- ===== src/Requests/Ends.antt =====
-- How a request to create an object can end, as the calls of the database and the modules that it has made.
use openpanel_opencore.Prelude.{
  String, refl, ◌≡◌, true, false, not, ◌&&◌, ◌==◌, Option, none, some, arith, if◌then◌else◌,
  Bool-cases, Option-cases, inl, inr, ◌⊎◌, eq_iff,
}
use openpanel_opencore.Requests.Services.{
  err_chown, Status-cases, status_ok, status_failed, status_postponed, Core, Class, Values, Store,
  Modules, on_db,
}
use openpanel_opencore.Requests.Crypts.{handle_crypts}
use openpanel_opencore.Requests.Cascade.{chown_to}
use openpanel_opencore.Requests.Create.{
  Prepared, done, ready, class_is_dynamic, fetch_created, prepare_static, act, store_and_act,
  complete_id, create_in_class, with_new_id, create_request,
}
use openpanel_opencore.Requests.Unchanged.{
  Searched, at_once, after_fetch, Stored, after_create, after_search, after_chown, after_read,
  handle_crypts-Same,
}
use openpanel_opencore.Requests.Told.{Cascaded, cascade_after-Tells}

-- The ends of a request, by its answer: the state `s` before, the answer, the state afterwards.
pub data Ended {S V W : Type 0} (store : Store S V) (mods : Modules S V W) (s : S)
    : Option String → S → Type 0 where
  -- refused before the database was asked to create
  unstored : {t : S} → Searched store mods s t → Ended store mods s none t
  -- the database has refused
  unwanted :
      {t : S} (parent class metaid : String) (v : V)
      → Searched store mods s t
      → (store.create_object parent v class metaid false t).0 ≡ ""
      → Ended store mods s none (store.create_object parent v class metaid false t).1
  -- the owner was refused, and the object is taken back
  unowned :
      {t : S} (u owner : String)
      → Stored store mods s u t
      → (store.chown u owner t).0 ≡ false
      → Ended store mods s none (store.report_create_failure u (store.chown u owner t).1).1
  -- the object cannot be fetched: it stays
  unread :
      {t : S} (u : String)
      → Stored store mods s u t
      → (store.fetch_object u true t).0 ≡ none
      → Ended store mods s none (store.fetch_object u true t).1
  -- the module has failed, and the object is taken back
  undone :
      {t : S} (u class id : String) (ctx : V) (w : W)
      → Stored store mods s u t
      → (mods.create_object class id ctx (t, w)).0 ≡ status_failed
      → Ended store mods s none
          (store.report_create_failure u (mods.create_object class id ctx (t, w)).1.0).1
  -- the module has made the object, the database does not confirm it, and the module deletes it
  withdrawn :
      {t : S} (u class id : String) (ctx parm : V) (w : W)
      → Stored store mods s u t
      → (mods.create_object class id ctx (t, w)).0 ≡ status_ok
      → (store.report_success u (mods.create_object class id ctx (t, w)).1.0).0 ≡ false
      → Ended store mods s none
          (mods.delete_object class u parm (
            (store.report_success u (mods.create_object class id ctx (t, w)).1.0).1,
            (mods.create_object class id ctx (t, w)).1.1,
          )).1.0
  -- the module has made the object, and the database confirms it
  confirmed :
      {t t' : S} (u class id : String) (ctx : V) (w : W)
      → Stored store mods s u t
      → (mods.create_object class id ctx (t, w)).0 ≡ status_ok
      → (store.report_success u (mods.create_object class id ctx (t, w)).1.0).0 ≡ true
      → Cascaded store mods
          (store.report_success u (mods.create_object class id ctx (t, w)).1.0).1
          t'
      → Ended store mods s (some u) t'
  -- the module has put the object off
  postponed :
      {t t' : S} (u class id : String) (ctx : V) (w : W)
      → Stored store mods s u t
      → (mods.create_object class id ctx (t, w)).0 ≡ status_postponed
      → Cascaded store mods (mods.create_object class id ctx (t, w)).1.0 t'
      → Ended store mods s (some u) t'

module _ {S V W : Type 0} (x : Values V) (store : Store S V) (mods : Modules S V W) where
  abbrev pub Same : S → S → Type 0
  Same s t = Searched store mods s t

  abbrev pub Pending : String → S → S → Type 0
  Pending u s t = Stored store mods s u t

  -- The answer and the state of a request that has ended.
  pub record IsEnded (s : S) (r : Option String × Core S W) : Type 0 where
    pub ended : Ended store mods s r.0 r.1.db

  abbrev IsEndedPrepared : S → Prepared S V W → Type 0
  IsEndedPrepared s (done r c) = IsEnded s (r, c)
  IsEndedPrepared s (ready uuid parm ctx c) = Pending uuid s c.db

  refused : (s : S) (c : Core S W) → Same s c.db → IsEnded s (none, c)
  refused s c h = record { ended = unstored h }

  fetch_created-IsEnded :
      (ofclass withid uuid : String) (s : S) (c : Core S W)
      → Pending uuid s c.db
      → IsEndedPrepared s (fetch_created x store mods ofclass withid false uuid c)
  unfolding fetch_created
  fetch_created-IsEnded ofclass withid uuid s c h =
      elim (Option-cases (store.fetch_object uuid true c.db).0) [
        | inl e ↦ rw (e, fetch_created) (record { ended = unread uuid h e })
        | inr (v, e) ↦ rw (e, fetch_created) (after_read v h e)
      ]

  -- From chown on.
  chown_to-IsEnded :
      (ofclass withid uuid owner : String) (s : S) (c : Core S W)
      → Pending uuid s c.db
      → IsEndedPrepared s (
          if (chown_to x store mods uuid owner c).0
          then fetch_created x store mods ofclass withid false uuid
              (chown_to x store mods uuid owner c).1
          else done none
              (record (on_db
                (store.report_create_failure uuid)
                (chown_to x store mods uuid owner c).1).1 { error = err_chown }))
  unfolding chown_to
  chown_to-IsEnded ofclass withid uuid owner s c h =
      let found = after_search "" "User" "" owner h in
      let user = (store.find_object "" "User" "" owner c.db).0 in
      let t = (store.find_object "" "User" "" owner c.db).1 in
      let named = if user == "" then owner else user in
      elim (Bool-cases (store.chown uuid named t).0) [
        | inl e ↦
            rw (e, chown_to)
              (fetch_created-IsEnded ofclass withid uuid s _ (after_chown named found e))
        | inr e ↦ rw (e, chown_to) (record { ended = unowned uuid named found e })
      ]

  prepare_static-IsEnded :
      (parentid ofclass withid : String) (param : V) (owner : String) (s : S) (c : Core S W)
      → Same s c.db
      → IsEndedPrepared s (prepare_static x store mods parentid ofclass withid param owner false c)
  unfolding prepare_static
  prepare_static-IsEnded parentid ofclass withid param owner s c h =
      let uuid = (store.create_object parentid param ofclass withid false c.db).0 in
      let c1 = record c { db = (store.create_object parentid param ofclass withid false c.db).1 } in
      elim (Bool-cases (uuid == "")) [
        | inl e ↦
            rw (e, prepare_static)
              (record { ended = unwanted parentid ofclass withid param h ((eq_iff uuid "").0 e) })
        | inr e ↦
            let p : Pending uuid s c1.db =
              after_create parentid ofclass withid param h refl
                (λ f. grind (arith, eq_iff uuid "")) in
            elim (Bool-cases (owner == "")) [
              | inl f ↦ rw (e, f, prepare_static) (fetch_created-IsEnded ofclass withid uuid s c1 p)
              | inr f ↦
                  rw (e, f, prepare_static) (chown_to-IsEnded ofclass withid uuid owner s c1 p)
            ]
      ]

  act-IsEnded :
      (parentid ofclass withid uuid : String) (parm ctx : V) (s : S) (c : Core S W)
      → Pending uuid s c.db
      → IsEnded s (act x store mods parentid ofclass withid uuid parm ctx c)
  unfolding act
  act-IsEnded parentid ofclass withid uuid parm ctx s c h =
      let w = c.modules in
      let made = mods.create_object ofclass withid ctx (c.db, w) in
      let c1 = record c { db = made.1.0; modules = made.1.1 } in
      let marked = store.report_success uuid c1.db in
      elim (Status-cases made.0) [
        | inl e ↦ elim (Bool-cases marked.0) [
          | inl f ↦
              rw (e, f, act)
                (record {
                  ended =
                      confirmed uuid ofclass withid ctx w h e f
                        (cascade_after-Tells x store mods parentid ofclass
                          (record c1 { db = marked.1 })).calls;
                })
          | inr f ↦
              rw (e, f, act) (record { ended = withdrawn uuid ofclass withid ctx parm w h e f })
        ]
        | inr (inl e) ↦ rw (e, act) (record { ended = undone uuid ofclass withid ctx w h e })
        | inr (inr e) ↦
            rw (e, act)
              (record {
                ended =
                    postponed uuid ofclass withid ctx w h e
                      (cascade_after-Tells x store mods parentid ofclass c1).calls;
              })
      ]

  finish :
      (parentid ofclass withid : String) (s : S) (p : Prepared S V W)
      → IsEndedPrepared s p
      → IsEnded s (elim p [
        | done res c ↦ (res, c)
        | ready uuid parm ctx c ↦ act x store mods parentid ofclass withid uuid parm ctx c
      ])
  finish parentid ofclass withid s (done r c) h = h
  finish parentid ofclass withid s (ready uuid parm ctx c) h =
      act-IsEnded parentid ofclass withid uuid parm ctx s c h

  store-IsEnded :
      (cl : Class V) (parentid ofclass withid : String) (param : V) (owner : String) (s : S)
      (c : Core S W)
      → class_is_dynamic x store mods ofclass ≡ false
      → Same s c.db
      → IsEnded s (store_and_act x store mods cl parentid ofclass withid param owner false c)
  unfolding store_and_act
  store-IsEnded cl parentid ofclass withid param owner s c d h =
      let crypted = handle_crypts x store mods parentid ofclass withid param c in
      let k = handle_crypts-Same x store mods parentid ofclass withid param s c h in
      elim (Option-cases crypted.0) [
        | inl e ↦ rw (e, store_and_act) (refused s _ k)
        | inr (v, e) ↦
            rw (e, d, store_and_act)
              (finish parentid ofclass withid s
                (prepare_static x store mods parentid ofclass withid v owner false crypted.1)
                (prepare_static-IsEnded parentid ofclass withid v owner s crypted.1 k))
      ]

  complete_id-db :
      (cl : Class V) (parentid withid : String) (c : Core S W)
      → ((complete_id x store mods cl parentid withid c).1.db ≡ c.db)
        ⊎ ((complete_id x store mods cl parentid withid c).1.db
            ≡ (store.fetch_object parentid false c.db).1)
  unfolding complete_id
  complete_id-db cl parentid withid c = ground arith

  complete_id-Same :
      (cl : Class V) (parentid withid : String) (s : S) (c : Core S W)
      → Same s c.db
      → Same s (complete_id x store mods cl parentid withid c).1.db
  complete_id-Same cl parentid withid s c h = elim (complete_id-db cl parentid withid c) [
    | inl e ↦ rw e h
    | inr e ↦ rw e (after_fetch parentid false h)
  ]

  class-IsEnded :
      (cl : Class V) (parentid ofclass : String) (param : V) (withid owner : String) (s : S)
      (c : Core S W)
      → class_is_dynamic x store mods ofclass ≡ false
      → Same s c.db
      → IsEnded s (create_in_class x store mods cl parentid ofclass param withid owner false c)
  unfolding create_in_class
  class-IsEnded cl parentid ofclass param withid owner s c d h =
      let named = if cl.singleton == "" then withid else cl.singleton in
      let completed = complete_id x store mods cl parentid named c in
      let k = complete_id-Same cl parentid named s c h in
      elim (Bool-cases (not cl.manualindex && not (named == ""))) [
        | inl e ↦ rw (e, create_in_class) (refused s _ h)
        | inr e ↦ elim (Bool-cases (cl.manualindex && named == "")) [
          | inl f ↦ rw (e, f, create_in_class) (refused s _ h)
          | inr f ↦ elim (Option-cases completed.0) [
            | inl g ↦ rw (e, f, g, create_in_class) (refused s _ k)
            | inr (id, g) ↦
                let full = with_new_id x store mods (not (cl.parentrealm == "")) id param in
                elim (Option-cases (cl.normalize full)) [
                  | inl n ↦ rw (e, f, g, n, create_in_class) (refused s _ k)
                  | inr (v, n) ↦
                      rw (e, f, g, n, create_in_class)
                        (store-IsEnded cl parentid ofclass id v owner s completed.1 d k)
                ]
          ]
        ]
      ]

  -- A request to create an object of a class of the database, neither internal nor immediate, whatever the
  -- database and the modules answer, ends in one of eight ways. Without a uuid: nothing but searches and
  -- encryptions has been done; or the database has refused to create; or the new owner is refused, and the
  -- last call is reportCreateFailure for the object; or the object cannot be fetched, and stays; or the module
  -- has failed, and the last call is reportCreateFailure; or the module has made the object but the database
  -- has not confirmed it, and the last call lets the module delete it. With a uuid, which is that of the new
  -- object: the module has made it and reportSuccess has confirmed it, or the module has put it off; nothing
  -- but the cascade comes after.
  pub create_request-IsEnded :
      (parentid ofclass : String) (param : V) (withid : String) (c : Core S W)
      → mods.is_internal ofclass ≡ false
      → class_is_dynamic x store mods ofclass ≡ false
      → IsEnded c.db (create_request x store mods parentid ofclass param withid false c)
  unfolding create_request
  create_request-IsEnded parentid ofclass param withid c i d =
      elim (Option-cases (mods.get_class ofclass)) [
        | inl e ↦ rw (i, e, create_request) (refused c.db _ at_once)
        | inr (cl, e) ↦
            rw (i, e, create_request)
              (class-IsEnded cl parentid ofclass _ withid _ c.db c d at_once)
      ]
