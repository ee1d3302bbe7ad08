-- ===== src/Sessions/Persistence.antt =====
-- SessionDB::saveToDisk and SessionDB::loadFromDisk, with the XML file between them as a parameter.
use mathlib.Core.List.{append_assoc, map-append, append-nil}
use openpanel_opencore.Prelude.{
  ℕ, String, ◌≡◌, refl, false, some, List, [], ◌∷◌, ◌++◌, arith, sym, ◌∙◌, ap, map, subst,
}
use openpanel_opencore.Sessions.Store.{Session, has, Distinct, Distinct-middle, modify_last}
use openpanel_opencore.Sessions.Invariant.{IsIndexed, empty-IsIndexed, load-IsIndexed}
use openpanel_opencore.Sessions.Usage.{made, first_claims, demand_new}
use openpanel_opencore.Sessions.{
  Host, SessionDb, Serialized, empty, restore, serialize, save_to_disk, create_from_serialized,
  load_from_disk,
}

module _ {V D : Type 0} (host : Host V D) (d : D) (opened : host.open_db ≡ some d) where
  -- A session after a restart: it is unclaimed, and logged in anew as the user of its meta data.
  abbrev pub revived : Session V D → Session V D
  revived s = record s { inuse = 0; db = host.user_login s.meta d }

  has-revived : (id : String) (xs : List (Session V D)) → has id (map revived xs) ≡ has id xs
  has-revived id [] = refl
  has-revived id (s ∷ xs) = ground (arith, has-revived id xs)

  load_one :
      (now : ℕ) (s : Session V D) (db : SessionDb V D)
      → IsIndexed host db
      → has s.id db.sessions ≡ false
      → (create_from_serialized host now (serialize s) db).sessions ≡ db.sessions ++ revived s ∷ []
  unfolding create_from_serialized serialize restore
  load_one now s db v h =
      let (t, e, x) = demand_new host now s.id d db v opened h in
      rw (e, create_from_serialized, x)
        (modify_last s.id (restore host.user_login (serialize s)) db.sessions
          (made host now s.id (first_claims host db.sessions) d) refl h)

  load_from_disk-revived :
      (now : ℕ) (xs todo : List (Session V D)) (db : SessionDb V D)
      → IsIndexed host db
      → db.sessions ≡ map revived xs
      → Distinct (xs ++ todo)
      → (load_from_disk host now (map serialize todo) db).sessions ≡ map revived (xs ++ todo)
  unfolding load_from_disk
  load_from_disk-revived now xs [] db v e u = e ∙ ap (map revived) (sym (append-nil xs))
  load_from_disk-revived now xs (s ∷ todo) db v e u =
      let miss : has s.id db.sessions ≡ false =
        rw (e, has-revived s.id xs) (Distinct-middle xs todo s u) in
      let split = append_assoc xs (s ∷ []) todo in
      load_from_disk-revived now (xs ++ s ∷ []) todo
        (create_from_serialized host now (serialize s) db)
        (load-IsIndexed host now (serialize s) db v)
        (load_one now s db v miss ∙ rw (e, map-append) refl) (subst Distinct (sym split) u)
      ∙ ap (map revived) split

  -- Saving an indexed database and loading the file into an empty one, where reading the file gives back
  -- every value that was written and each new session's database opens: the same sessions in the same order, with
  -- their meta data, errors, quota map and heartbeat, unclaimed and logged in anew.
  pub load-save :
      (File : Type 0) (savexml : List (Serialized V) → File) (loadxml : File → List (Serialized V))
      (now : ℕ) (db : SessionDb V D)
      → ((v : List (Serialized V)) → loadxml (savexml v) ≡ v)
      → IsIndexed host db
      → (load_from_disk host now (loadxml (savexml (save_to_disk db))) empty).sessions
        ≡ map revived db.sessions
  unfolding save_to_disk empty
  load-save File savexml loadxml now db xml v =
      rw (xml (map serialize db.sessions))
        (load_from_disk-revived now [] db.sessions empty (empty-IsIndexed host) refl v.distinct)
