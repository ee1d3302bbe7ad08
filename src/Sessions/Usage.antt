-- ===== src/Sessions/Usage.antt =====
-- What one call on SessionDB does to each session: the claims that `get`, `release` and `create` take
-- and give back, and what `remove` takes out.
use mathlib.Core.Option
use openpanel_opencore.Prelude.{
  ℕ, String, ◌≡◌, refl, false, Option, none, some, List, [], ◌∷◌, ◌++◌, arith, ◌==◌, eq_iff,
  eq_refl, ◌∙◌, if◌then◌else◌,
}
use openpanel_opencore.Sessions.Store.{
  Session, deref, has, deref-modify, deref-unlink, deref-has, modify_last,
}
use openpanel_opencore.Sessions.Invariant.{IsIndexed, find-deref}
use openpanel_opencore.Sessions.{
  Host, SessionDb, unclaim, keep, find, get, release, demand, create, attach, new_session, remove,
}

module _ {V D : Type 0} (host : Host V D) where
  pub deref-get :
      (id : String) (db : SessionDb V D)
      → IsIndexed host db
      → deref id (get host id db).1.sessions ≡ Option.map keep (deref id db.sessions)
  unfolding get
  deref-get id db v = ground (
    arith,
    find-deref host id db v,
    deref-modify id id keep db.sessions (λ s. unfold keep in refl),
    eq_iff id id,
  )

  -- `get` on an indexed database: the reply names the session if there is one, that session has one
  -- claim more, and every other session is as it was.
  pub get_lem :
      (id j : String) (db : SessionDb V D)
      → IsIndexed host db
      → ((get host id db).0 ≡ Option.map (λ s. s.id) (deref id db.sessions))
        × (deref j (get host id db).1.sessions
            ≡ (if id == j then Option.map keep (deref j db.sessions) else deref j db.sessions))
  unfolding get
  get_lem id j db v =
      let m = deref-modify id j keep db.sessions (λ s. unfold keep in refl) in
      (
        ground (arith, find-deref host id db v),
        ground (arith, find-deref host id db v, m, eq_iff id j),
      )

  abbrev pub touch : ℕ → Session V D → Session V D
  touch now s = record s { heartbeat = now }

  touch-keep :
      (now : ℕ) (o : Option (Session V D))
      → Option.map (unclaim now) (Option.map keep o) ≡ Option.map (touch now) o
  unfolding keep unclaim
  touch-keep now none = refl
  touch-keep now (some s) = ground arith

  -- `get` and then `release`: the session has its old number of claims, and the time of the release
  -- as its heartbeat.
  pub release-get :
      (now : ℕ) (id : String) (db : SessionDb V D)
      → IsIndexed host db
      → deref id (release now id (get host id db).1).sessions
        ≡ Option.map (touch now) (deref id db.sessions)
  unfolding release
  release-get now id db v =
      deref-modify id id (unclaim now) (get host id db).1.sessions (λ s. unfold unclaim in refl)
      ∙ rw (eq_refl id, deref-get id db v) (touch-keep now (deref id db.sessions))

  -- `remove` on an indexed database takes out the session of its identifier, and no other.
  pub deref-remove :
      (id j : String) (db : SessionDb V D)
      → IsIndexed host db
      → deref j (remove host id db).sessions ≡ (if id == j then none else deref j db.sessions)
  unfolding remove
  deref-remove id j db v = ground (
    arith,
    v.indexed id,
    deref-unlink id j db.sessions v.distinct,
    deref-has id db.sessions,
    eq_iff id j,
  )

  -- A session as the constructor of CoreSession leaves it, with a number of claims.
  abbrev pub made : ℕ → String → ℕ → D → Session V D
  made now id n d = record {
    id = id;
    meta = host.no_value;
    errors = host.no_value;
    quotamap = host.no_value;
    heartbeat = now;
    inuse = n;
    db = d;
  }

  -- The claims on a new session: `demand` counts one, but for the first session of the list.
  abbrev pub first_claims : List (Session V D) → ℕ
  first_claims [] = 0
  first_claims (x ∷ xs) = 1

  sessions-attach :
      (now : ℕ) (id : String) (d : D) (db : SessionDb V D) (xs : List (Session V D))
      → (attach host (made now id 0 d) xs db.tree).sessions
        ≡ xs ++ made now id (first_claims xs) d ∷ []
  unfolding attach
  sessions-attach now id d db [] = refl
  sessions-attach now id d db (x ∷ xs) = refl

  -- `demand` of an unknown identifier puts a new session behind `last`.
  pub demand_new :
      (now : ℕ) (id : String) (d : D) (db : SessionDb V D)
      → IsIndexed host db
      → host.open_db ≡ some d
      → has id db.sessions ≡ false
      → (t : SessionDb V D) × (demand host now id db ≡ some t)
        × (t.sessions ≡ db.sessions ++ made now id (first_claims db.sessions) d ∷ [])
  unfolding demand
  demand_new now id d db v o h =
      let s = made now id 0 d in
      let miss : find host id db ≡ none = find-deref host id db v ∙ deref-has id db.sessions h in
      let new : new_session host now id ≡ some s = unfold new_session in rw (o, new_session) in
      (
        attach host s db.sessions db.tree,
        rw (miss, new, demand),
        sessions-attach now id d db db.sessions,
      )

  -- `create` with an unused identifier, where the new session's database opens: the identifier is
  -- returned and one session with the given meta data goes behind `last`. It carries one claim,
  -- unless the database was empty: then it carries none, and `expire` may take it while it is used.
  pub create_new :
      (now : ℕ) (uuid : String) (meta : V) (d : D) (db : SessionDb V D)
      → IsIndexed host db
      → host.open_db ≡ some d
      → has uuid db.sessions ≡ false
      → ((create host now uuid meta db).0 ≡ some uuid)
        × ((create host now uuid meta db).1.sessions
            ≡ db.sessions
              ++ record (made now uuid (first_claims db.sessions) d) { meta = meta } ∷ [])
  unfolding create
  create_new now uuid meta d db v o h =
      let (t, e, x) = demand_new now uuid d db v o h in
      (
        rw (e, create),
        rw (e, create, x)
            (modify_last uuid (λ s. record s { meta = meta }) db.sessions
              (made now uuid (first_claims db.sessions) d) refl h),
      )
