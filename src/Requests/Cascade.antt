-- ===== src/Requests/Cascade.antt =====
-- CoreSession::chown and CoreSession::handleCascade of session.cpp.
use openpanel_opencore.Prelude.{
  String, Bool, true, false, not, ◌&&◌, ◌||◌, ◌==◌, none, some, List, [], ◌∷◌, if◌then◌else◌,
}
use openpanel_opencore.Requests.Services.{Core, Values, Store, Modules, on_db, on_modules}

module _ {S V W : Type 0} (x : Values V) (store : Store S V) (mods : Modules S V W) where
  -- setError with the code that the database has.
  abbrev pub refuse_db {ℓ} : {A : Type ℓ} → A → Core S W → A × Core S W
  refuse_db a c = (a, record c { error = store.last_error c.db })

  -- CoreSession::chown
  unfoldable pub chown_to : String → String → Core S W → Bool × Core S W
  chown_to ofobject user c =
      let (found, c') = on_db (store.find_object "" "User" "" user) c in
      let (done, c'') = on_db (store.chown ofobject (if found == "" then user else found)) c' in
      if done then (true, c'') else refuse_db false c''

  unfoldable pub is_class : String → List String → Bool
  is_class name [] = false
  is_class name (c ∷ rest) = c == name || is_class name rest

  -- The loop of handleCascade over the objects.
  unfoldable pub cascade_objects : String → List String → List String → Core S W → Core S W
  unfolding is_class
  cascade_objects ofclass classes [] c = c
  cascade_objects ofclass classes (uuid ∷ rest) c =
      let (found, c') = on_db (store.fetch_object uuid true) c in
      let tell = λ (tenv : V).
        let class = x.head_id tenv in
        let id = x.head_get tenv "id" in
        if is_class class classes && not (class == ofclass)
        then (on_modules (mods.update_object class id (x.merge tenv (x.context class class id)))
            c').1
        else c' in
      cascade_objects ofclass classes rest (elim found [ none ↦ c' | some tenv ↦ tell tenv ])

  -- CoreSession::handleCascade
  unfoldable pub handle_cascade : String → String → Core S W → Core S W
  unfolding cascade_objects
  handle_cascade parentid ofclass c =
      let requires : String = elim (mods.get_class ofclass) [ none ↦ "" | some cl ↦ cl.requires ] in
      let (tree, c') = on_db (store.list_tree parentid) c in
      if requires == "" then c else elim tree [
        | none ↦ c'
        | some uuids ↦ cascade_objects ofclass (mods.get_classes requires) uuids c'
      ]

  -- The test after a request, and the cascade.
  unfoldable pub cascade_after : String → String → Core S W → Core S W
  unfolding handle_cascade
  cascade_after parentid ofclass c = elim (mods.get_class ofclass) [
    | none ↦ c
    | some cl ↦ if not (ofclass == "") && cl.cascades then handle_cascade parentid ofclass c else c
  ]
