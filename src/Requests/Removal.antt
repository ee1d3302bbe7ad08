-- ===== src/Requests/Removal.antt =====
-- A request to delete that says yes, as the calls of the database and the modules that it has made.
use openpanel_opencore.Prelude.{String, Bool, ◌≡◌, true, false, Option, some, List, [], ◌∷◌, ◌⊎◌}
use openpanel_opencore.Requests.Services.{
  Status, status_ok, status_failed, status_postponed, Core, Values, Store, Modules,
}
use openpanel_opencore.Requests.Crypts.{find_either}
use openpanel_opencore.Requests.Told.{Cascaded}

-- The module was asked to delete the object and has answered; the report follows, unless the module has put
-- it off. A failure counts as an answer for the objects after the first one.
pub data Removed {S V W : Type 0} (store : Store S V) (mods : Modules S V W) (first : Bool)
    (u : String) (t : S) : S → Type 0 where
  reported :
      (class id : String) (ctx : V) (w : W)
      → ((mods.delete_object class id ctx ((store.fetch_object u true t).1, w)).0 ≡ status_ok)
        ⊎ ((first ≡ false)
            × ((mods.delete_object class id ctx ((store.fetch_object u true t).1, w)).0
                ≡ status_failed))
      → (store.report_success u
          (mods.delete_object class id ctx ((store.fetch_object u true t).1, w)).1.0).0
        ≡ true
      → Removed store mods first u t
          (store.report_success u
            (mods.delete_object class id ctx ((store.fetch_object u true t).1, w)).1.0).1
  -- the database does not confirm the deletion, and the module gets the object back
  given_back :
      {t' : S} (class id ofclass : String) (ctx ctx' : V) (w w' : W)
      → ((mods.delete_object class id ctx ((store.fetch_object u true t).1, w)).0 ≡ status_ok)
        ⊎ ((first ≡ false)
            × ((mods.delete_object class id ctx ((store.fetch_object u true t).1, w)).0
                ≡ status_failed))
      → store.report_success u
          (mods.delete_object class id ctx ((store.fetch_object u true t).1, w)).1.0
        ≡ (false, t')
      → Removed store mods first u t
          (mods.create_object ofclass id ctx' ((store.fetch_object u true t').1, w')).1.0
  put_off :
      (class id : String) (ctx : V) (w : W)
      → (mods.delete_object class id ctx ((store.fetch_object u true t).1, w)).0 ≡ status_postponed
      → Removed store mods first u t
          (mods.delete_object class id ctx ((store.fetch_object u true t).1, w)).1.0

-- The objects of the tree, one after the other: the database has accepted the deletion, then the module.
pub data Deleted {S V W : Type 0} (store : Store S V) (mods : Modules S V W)
    : Bool → List String → S → S → Type 0 where
  nothing : {first : Bool} {t : S} → Deleted store mods first [] t t
  next :
      {first : Bool} {t t' t'' : S} (u : String) (us : List String)
      → (store.delete_object u false true t).0 ≡ true
      → Removed store mods first u (store.delete_object u false true t).1 t'
      → Deleted store mods false us t' t''
      → Deleted store mods first (u ∷ us) t t''

module _ {S V W : Type 0} (x : Values V) (store : Store S V) (mods : Modules S V W) where
  -- A round that goes on.
  record GoesOn (first : Bool) (u : String) (t : S) (r : Bool × Core S W) : Type 0 where
    removed : r.0 ≡ true → Removed store mods first u t r.1.db

  module _ (first : Bool) (u ofclass withid : String) (t : S) (ctx : V) (w : W)
      (class : String) where
    abbrev answer : Status × (S × W)
    answer = mods.delete_object class withid ctx ((store.fetch_object u true t).1, w)

    abbrev Accepted : Type 0
    Accepted = (answer.0 ≡ status_ok) ⊎ ((first ≡ false) × (answer.0 ≡ status_failed))

  -- A loop that says yes.
  record GoesThrough (first : Bool) (us : List String) (t : S) (r : Bool × Core S W) : Type 0 where
    deleted : r.0 ≡ true → Deleted store mods first us t r.1.db

  -- The tree that a request goes through, and the state when it has been listed.
  abbrev pub tree_of : String → String → String → Core S W → Option (List String) × S
  tree_of parentid ofclass withid c =
      let (uuid, s) = find_either x store mods parentid ofclass withid c.db in
      store.list_tree uuid s

  -- What a request has done that says yes.
  pub record IsDeleted (parentid ofclass withid : String) (c c' : Core S W) : Type 0 where
    pub uuids : List String
    pub tree : (tree_of parentid ofclass withid c).0 ≡ some uuids
    pub reached : S
    pub deleted : Deleted store mods true uuids (tree_of parentid ofclass withid c).1 reached
    pub cascaded : Cascaded store mods reached c'.db
