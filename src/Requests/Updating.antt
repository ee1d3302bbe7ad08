-- ===== src/Requests/Updating.antt =====
-- How a request to update an object can end, as the calls of the database and the modules that it has made.
use openpanel_opencore.Prelude.{String, Bool, ◌≡◌, true, false, none, some}
use openpanel_opencore.Requests.Services.{
  status_ok, status_failed, status_postponed, Core, Values, Store, Modules,
}
use openpanel_opencore.Requests.Unchanged.{Searched}
use openpanel_opencore.Requests.Told.{Cascaded}

-- After searches, the database has updated the object `u`, and has given out its new parameters.
pub data Changed {S V W : Type 0} (store : Store S V) (mods : Modules S V W) (s : S) (u : String)
    : S → Type 0 where
  changed :
      {t : S} (v parm : V)
      → Searched store mods s t
      → (store.update_object v u false t).0 ≡ true
      → (store.fetch_object u true (store.update_object v u false t).1).0 ≡ some parm
      → Changed store mods s u (store.fetch_object u true (store.update_object v u false t).1).1

-- The ends of a request, by its answer: the state `s` before, the answer, the state afterwards.
pub data Updated {S V W : Type 0} (store : Store S V) (mods : Modules S V W) (s : S)
    : Bool → S → Type 0 where
  -- refused before the database was asked to update
  untouched : {t : S} → Searched store mods s t → Updated store mods s false t
  -- the database has refused
  unmade :
      {t : S} (v : V) (u : String)
      → Searched store mods s t
      → (store.update_object v u false t).0 ≡ false
      → Updated store mods s false (store.update_object v u false t).1
  -- the object cannot be fetched: the update stays
  unseen :
      {t : S} (v : V) (u : String)
      → Searched store mods s t
      → (store.update_object v u false t).0 ≡ true
      → (store.fetch_object u true (store.update_object v u false t).1).0 ≡ none
      → Updated store mods s false (store.fetch_object u true (store.update_object v u false t).1).1
  -- the module has failed, and that is reported to the database
  unaccepted :
      {t : S} (u class id : String) (ctx : V) (w : W)
      → Changed store mods s u t
      → (mods.update_object class id ctx (t, w)).0 ≡ status_failed
      → Updated store mods s false
          (store.report_update_failure u (mods.update_object class id ctx (t, w)).1.0).1
  -- the module has made the update, the database does not confirm it and has no parameters
  adrift :
      {t t' : S} (u class id : String) (ctx : V) (w : W)
      → Changed store mods s u t
      → (mods.update_object class id ctx (t, w)).0 ≡ status_ok
      → store.report_success u (mods.update_object class id ctx (t, w)).1.0 ≡ (false, t')
      → (store.fetch_object u true t').0 ≡ none
      → Updated store mods s false (store.fetch_object u true t').1
  -- the same, and the module gets the parameters of the database
  reverted :
      {t t' : S} (u class id : String) (ctx ctx' : V) (w w' : W)
      → Changed store mods s u t
      → (mods.update_object class id ctx (t, w)).0 ≡ status_ok
      → store.report_success u (mods.update_object class id ctx (t, w)).1.0 ≡ (false, t')
      → Updated store mods s false
          (mods.update_object class u ctx' ((store.fetch_object u true t').1, w')).1.0
  -- the module has made the update, and the database confirms it
  made :
      {t t' : S} (u class id : String) (ctx : V) (w : W)
      → Changed store mods s u t
      → (mods.update_object class id ctx (t, w)).0 ≡ status_ok
      → (store.report_success u (mods.update_object class id ctx (t, w)).1.0).0 ≡ true
      → Cascaded store mods
          (store.report_success u (mods.update_object class id ctx (t, w)).1.0).1
          t'
      → Updated store mods s true t'
  -- the module has put the update off
  delayed :
      {t t' : S} (u class id : String) (ctx : V) (w : W)
      → Changed store mods s u t
      → (mods.update_object class id ctx (t, w)).0 ≡ status_postponed
      → Cascaded store mods (mods.update_object class id ctx (t, w)).1.0 t'
      → Updated store mods s true t'

module _ {S V W : Type 0} (x : Values V) (store : Store S V) (mods : Modules S V W) where
  -- The answer and the state of a request that has ended.
  pub record IsUpdated (s : S) (r : Bool × Core S W) : Type 0 where
    pub ended : Updated store mods s r.0 r.1.db
