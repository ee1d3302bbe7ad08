-- ===== src/Requests/Told.antt =====
-- The calls of the database and the modules that handleCascade makes.
use openpanel_opencore.Prelude.{
  String, true, not, ◌&&◌, ◌==◌, none, some, List, [], ◌∷◌, Bool-cases, Option-cases, inl, inr,
}
use openpanel_opencore.Requests.Services.{Core, Values, Store, Modules, on_db}
use openpanel_opencore.Requests.Cascade.{cascade_objects, handle_cascade, cascade_after, is_class}

-- The calls of handleCascade since `s`.
pub data Cascaded {S V W : Type 0} (store : Store S V) (mods : Modules S V W) (s : S)
    : S → Type 0 where
  settled : Cascaded store mods s s
  after_list :
      {t : S} (uuid : String)
      → Cascaded store mods s t
      → Cascaded store mods s (store.list_tree uuid t).1
  after_look :
      {t : S} (uuid : String)
      → Cascaded store mods s t
      → Cascaded store mods s (store.fetch_object uuid true t).1
  after_tell :
      {t : S} (class id : String) (ctx : V) (w : W)
      → Cascaded store mods s t
      → Cascaded store mods s (mods.update_object class id ctx (t, w)).1.0

module _ {S V W : Type 0} (x : Values V) (store : Store S V) (mods : Modules S V W) where
  -- The state of a call's end.
  pub record Tells (s : S) (c : Core S W) : Type 0 where
    pub calls : Cascaded store mods s c.db

  cascade_objects-Tells :
      (s : S) (ofclass : String) (classes us : List String) (c : Core S W)
      → Tells s c
      → Tells s (cascade_objects x store mods ofclass classes us c)
  unfolding cascade_objects
  cascade_objects-Tells s ofclass classes [] c h = h
  cascade_objects-Tells s ofclass classes (u ∷ us) c h =
      let c1 = (on_db (store.fetch_object u true) c).1 in
      let h1 : Tells s c1 = record { calls = after_look u h.calls } in
      elim (Option-cases (store.fetch_object u true c.db).0) [
        | inl e ↦ rw (e, cascade_objects) (cascade_objects-Tells s ofclass classes us _ h1)
        | inr (tenv, e) ↦
            let class = x.head_id tenv in
            let id = x.head_get tenv "id" in
            let told : Tells s (record c1 {
              db =
                  (mods.update_object class id (x.merge tenv (x.context class class id))
                    (c1.db, c1.modules)).1.0;
              modules =
                  (mods.update_object class id (x.merge tenv (x.context class class id))
                    (c1.db, c1.modules)).1.1;
            }) =
              record {
                calls =
                    after_tell class id (x.merge tenv (x.context class class id)) c1.modules
                      h1.calls;
              } in
            elim (Bool-cases (is_class x store mods class classes && not (class == ofclass))) [
              | inl f ↦
                  rw (e, f, cascade_objects) (cascade_objects-Tells s ofclass classes us _ told)
              | inr f ↦ rw (e, f, cascade_objects) (cascade_objects-Tells s ofclass classes us _ h1)
            ]
      ]

  handle_cascade-Tells :
      (s : S) (parentid ofclass : String) (c : Core S W)
      → Tells s c
      → Tells s (handle_cascade x store mods parentid ofclass c)
  unfolding handle_cascade
  handle_cascade-Tells s parentid ofclass c h =
      let requires : String = elim (mods.get_class ofclass) [ none ↦ "" | some cl ↦ cl.requires ] in
      let c1 = (on_db (store.list_tree parentid) c).1 in
      let h1 : Tells s c1 = record { calls = after_list parentid h.calls } in
      elim (Bool-cases (requires == "")) [
        | inl e ↦ rw (e, handle_cascade) h
        | inr e ↦ elim (Option-cases (store.list_tree parentid c.db).0) [
          | inl f ↦ rw (e, f, handle_cascade) h1
          | inr (us, f) ↦
              rw (e, f, handle_cascade)
                (cascade_objects-Tells s ofclass (mods.get_classes requires) us c1 h1)
        ]
      ]

  pub cascade_after-Tells :
      (parentid ofclass : String) (c : Core S W)
      → Tells c.db (cascade_after x store mods parentid ofclass c)
  unfolding cascade_after
  cascade_after-Tells parentid ofclass c =
      let h : Tells c.db c = record { calls = settled } in
      elim (Option-cases (mods.get_class ofclass)) [
        | inl e ↦ rw (e, cascade_after) h
        | inr (cl, e) ↦ elim (Bool-cases (not (ofclass == "") && cl.cascades)) [
          | inl f ↦ rw (e, f, cascade_after) (handle_cascade-Tells c.db parentid ofclass c h)
          | inr f ↦ rw (e, f, cascade_after) h
        ]
      ]
