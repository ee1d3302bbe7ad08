-- ===== src/Sessions/Invariant.antt =====
-- The search tree and the linked list of SessionDB hold the same sessions, whatever the history.
use openpanel_opencore.Prelude.{
  ℕ, String, ◌≡◌, refl, false, ◌||◌, inl, inr, Option, none, some, List, [], ◌∷◌, arith, Bool-cases,
  Option-cases, OnSome, sym, ◌∙◌, ◌+◌,
}
use openpanel_opencore.Sessions.Index.{Tree, null, node, link, descend, descend-link}
use openpanel_opencore.Sessions.Store.{
  Session, deref, has, modify, unlink, Distinct, has-append, has-modify, deref-has, has-deref,
  Distinct-modify, Distinct-unlink, Distinct-append,
}
use openpanel_opencore.Sessions.{
  Host, SessionDb, Serialized, Call, gets, releases, removes, creates, loads, expires, empty, claim,
  unclaim, keep, restore, release, stale, find, get, new_session, attach, demand, create,
  create_from_serialized, load_from_disk, relink, rebuild, remove, expire_loop, expire, step, run,
}

module _ {V D : Type 0} (host : Host V D) where
  pub record IsIndexed (db : SessionDb V D) : Type 0 where
    pub distinct : Distinct db.sessions
    pub indexed : (id : String) → descend host.key id db.tree ≡ has id db.sessions

  descend-relink :
      (id : String) (t : Tree) (xs : List (Session V D))
      → descend host.key id (relink host t xs) ≡ (descend host.key id t || has id xs)
  unfolding relink
  descend-relink id t [] = ground arith
  descend-relink id t (s ∷ xs) =
      ground (arith, descend-relink id (link host.key s.id t) xs, descend-link host.key id s.id t)

  descend-rebuild :
      (id : String) (xs : List (Session V D)) → descend host.key id (rebuild host xs) ≡ has id xs
  unfolding rebuild descend
  descend-rebuild id [] = refl
  descend-rebuild id (s ∷ xs) = ground (arith, descend-relink id (node null s.id null) xs)

  -- The descent by hash keys meets exactly the sessions of the linked list.
  pub find-deref :
      (id : String) (db : SessionDb V D) → IsIndexed db → find host id db ≡ deref id db.sessions
  unfolding find
  find-deref id db v = ground (arith, v.indexed id, deref-has id db.sessions)

  -- A write that keeps identifiers keeps the index.
  pub modify-IsIndexed :
      (id : String) (f : Session V D → Session V D) (db : SessionDb V D)
      → ((s : Session V D) → (f s).id ≡ s.id)
      → IsIndexed db
      → IsIndexed (record db { sessions = modify id f db.sessions })
  modify-IsIndexed id f db h v = record {
    distinct = Distinct-modify id f db.sessions h v.distinct;
    indexed = λ j. v.indexed j ∙ sym (has-modify id j f db.sessions h);
  }

  pub empty-IsIndexed : IsIndexed empty
  unfolding empty descend
  empty-IsIndexed = record { distinct = tt; indexed = λ id. refl }

  pub get-IsIndexed :
      (id : String) (db : SessionDb V D) → IsIndexed db → IsIndexed (get host id db).1
  unfolding get
  get-IsIndexed id db v = elim (Option-cases (find host id db)) [
    | inl e ↦ rw (e, get) v
    | inr (s, e) ↦ rw (e, get) (modify-IsIndexed id keep db (λ s. unfold keep in refl) v)
  ]

  pub release-IsIndexed :
      (now : ℕ) (id : String) (db : SessionDb V D) → IsIndexed db → IsIndexed (release now id db)
  unfolding release
  release-IsIndexed now id db v = modify-IsIndexed id (unclaim now) db (λ s. refl) v

  pub attach-IsIndexed :
      (s : Session V D) (xs : List (Session V D)) (t : Tree)
      → IsIndexed (record { sessions = xs; tree = t })
      → has s.id xs ≡ false
      → IsIndexed (attach host s xs t)
  unfolding attach descend
  attach-IsIndexed s [] t v h = record { distinct = (refl, tt); indexed = λ j. ground arith }
  attach-IsIndexed s (x ∷ xs) t v h = record {
    distinct = Distinct-append (x ∷ xs) (record s { inuse = 1 }) v.distinct h;
    indexed = λ j. ground (
      arith,
      descend-link host.key j s.id t,
      v.indexed j,
      has-append j (x ∷ xs) (record s { inuse = 1 } ∷ []),
    );
  }

  -- A session that `find` misses is in no list.
  pub find-has :
      (id : String) (db : SessionDb V D)
      → IsIndexed db
      → find host id db ≡ none
      → has id db.sessions ≡ false
  find-has id db v h = has-deref id db.sessions (sym (find-deref id db v) ∙ h)

  pub new_session-id :
      (now : ℕ) (id : String) {s : Session V D} → new_session host now id ≡ some s → s.id ≡ id
  unfolding new_session
  new_session-id now id h = ground arith

  -- The three ways through `demand`.
  pub demand_cases :
      (P : Option (SessionDb V D) → Type 0) (now : ℕ) (id : String) (db : SessionDb V D)
      → ((s : Session V D)
          → find host id db ≡ some s
          → P (some (record db { sessions = modify id (claim now) db.sessions })))
      → (find host id db ≡ none → new_session host now id ≡ none → P none)
      → ((s : Session V D)
          → find host id db ≡ none
          → new_session host now id ≡ some s
          → P (some (attach host s db.sessions db.tree)))
      → P (demand host now id db)
  unfolding demand
  demand_cases P now id db old fail new = elim (Option-cases (find host id db)) [
    | inr (s, e) ↦ rw (e, demand) (old s e)
    | inl e ↦ elim (Option-cases (new_session host now id)) [
      | inl f ↦ rw (e, f, demand) (fail e f)
      | inr (s, f) ↦ rw (e, f, demand) (new s e f)
    ]
  ]

  demand-IsIndexed :
      (now : ℕ) (id : String) (db : SessionDb V D)
      → IsIndexed db
      → OnSome IsIndexed (demand host now id db)
  demand-IsIndexed now id db v =
      demand_cases (OnSome IsIndexed) now id db
        (λ s e. modify-IsIndexed id (claim now) db (λ s. unfold claim in refl) v) (λ e f. tt)
        λ s e f.
          attach-IsIndexed s db.sessions db.tree v
            (rw (new_session-id now id f) (find-has id db v e))

  -- `demand` and a write to the session that it made, as in `create` and `createFromSerialized`.
  demand_modify-IsIndexed :
      (id : String) (f : Session V D → Session V D) (r : Option (SessionDb V D))
      → ((s : Session V D) → (f s).id ≡ s.id)
      → OnSome IsIndexed r
      → OnSome (λ db. IsIndexed (record db { sessions = modify id f db.sessions })) r
  demand_modify-IsIndexed id f none h v = tt
  demand_modify-IsIndexed id f (some db) h v = modify-IsIndexed id f db h v

  pub create-IsIndexed :
      (now : ℕ) (uuid : String) (meta : V) (db : SessionDb V D)
      → IsIndexed db
      → IsIndexed (create host now uuid meta db).1
  unfolding create
  create-IsIndexed now uuid meta db v = elim (Option-cases (demand host now uuid db)) [
    | inl e ↦ rw (e, create) v
    | inr (db', e) ↦
        rw (e, create)
          (modify-IsIndexed uuid (λ s. record s { meta = meta }) db' (λ s. refl)
            (rw e at (demand-IsIndexed now uuid db v)))
  ]

  pub load-IsIndexed :
      (now : ℕ) (ser : Serialized V) (db : SessionDb V D)
      → IsIndexed db
      → IsIndexed (create_from_serialized host now ser db)
  unfolding create_from_serialized
  load-IsIndexed now ser db v = elim (Option-cases (demand host now ser.id db)) [
    | inl e ↦ rw (e, create_from_serialized) v
    | inr (db', e) ↦
        rw (e, create_from_serialized)
          (modify-IsIndexed ser.id (restore host.user_login ser) db' (λ s. unfold restore in refl)
            (rw e at (demand-IsIndexed now ser.id db v)))
  ]

  load_from_disk-IsIndexed :
      (now : ℕ) (sers : List (Serialized V)) (db : SessionDb V D)
      → IsIndexed db
      → IsIndexed (load_from_disk host now sers db)
  unfolding load_from_disk
  load_from_disk-IsIndexed now [] db v = v
  load_from_disk-IsIndexed now (ser ∷ rest) db v =
      load_from_disk-IsIndexed now rest (create_from_serialized host now ser db)
        (load-IsIndexed now ser db v)

  pub remove-IsIndexed :
      (id : String) (db : SessionDb V D) → IsIndexed db → IsIndexed (remove host id db)
  unfolding remove
  remove-IsIndexed id db v = elim (Bool-cases (descend host.key id db.tree)) [
    | inl e ↦
        rw (e, remove)
          (record {
            distinct = Distinct-unlink id db.sessions v.distinct;
            indexed = λ j. descend-rebuild j (unlink id db.sessions);
          })
    | inr e ↦ rw (e, remove) v
  ]

  expire_loop-IsIndexed :
      (now : ℕ) (todo : List (Session V D)) (db : SessionDb V D) (n : ℕ)
      → IsIndexed db
      → IsIndexed (expire_loop host now todo db n).0
  unfolding expire_loop
  expire_loop-IsIndexed now [] db n v = v
  expire_loop-IsIndexed now (s ∷ rest) db n v = elim (Bool-cases (stale now s)) [
    | inl e ↦
        rw (e, expire_loop)
          (expire_loop-IsIndexed now rest (remove host s.id db) (n + 1)
            (remove-IsIndexed s.id db v))
    | inr e ↦ rw (e, expire_loop) (expire_loop-IsIndexed now rest db n v)
  ]

  step-IsIndexed : (c : ℕ × Call V) (db : SessionDb V D) → IsIndexed db → IsIndexed (step host db c)
  unfolding step
  step-IsIndexed (now, gets id) db v = get-IsIndexed id db v
  step-IsIndexed (now, releases id) db v = release-IsIndexed now id db v
  step-IsIndexed (now, removes id) db v = remove-IsIndexed id db v
  step-IsIndexed (now, creates id meta) db v = create-IsIndexed now id meta db v
  step-IsIndexed (now, loads sers) db v = load_from_disk-IsIndexed now sers db v
  step-IsIndexed (now, expires) db v = unfold expire in expire_loop-IsIndexed now db.sessions db 0 v

  pub run-IsIndexed :
      (db : SessionDb V D) (cs : List (ℕ × Call V)) → IsIndexed db → IsIndexed (run host db cs)
  unfolding run
  run-IsIndexed db [] v = v
  run-IsIndexed db (c ∷ cs) v = run-IsIndexed (step host db c) cs (step-IsIndexed c db v)

  -- After any calls on an empty database, whatever their order and the hash keys, no identifier
  -- occurs twice in the linked list and the search tree holds exactly the identifiers of the list.
  pub run-empty-IsIndexed : (cs : List (ℕ × Call V)) → IsIndexed (run host empty cs)
  run-empty-IsIndexed cs = run-IsIndexed empty cs empty-IsIndexed
