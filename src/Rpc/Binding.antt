-- ===== src/Rpc/Binding.antt =====
-- RPCHandler::bind leaves a session behind exactly where the login succeeds.
use openpanel_opencore.Prelude.{
  ℕ, String, false, ◌==◌, ◌≡◌, refl, ◌∙◌, none, some, arith, eq_iff, eq_refl, Bool-cases,
  Option-cases, inl, inr, if◌then◌else◌,
}
use openpanel_opencore.Sessions.{Session, unclaim, release, create, remove}
use openpanel_opencore.Sessions.Store.{deref, has, modify, deref-modify, deref-append, deref-has}
use openpanel_opencore.Sessions.Invariant.{IsIndexed, create-IsIndexed, modify-IsIndexed}
use openpanel_opencore.Sessions.Usage.{deref-remove, create_new, first_claims, made}
use openpanel_opencore.Database.Access.{Manager}
use openpanel_opencore.Rpc.Handler.{
  Request, Reply, World, Services, err_ok, header, copy_session_error, core_login, core_user_login,
  authenticate, enter, bind, get_languages,
}

module _ {V : Type 0} (sv : Services V) where
  -- The new session, before the login.
  abbrev pub newborn : ℕ → String → V → Manager → World V → Session V Manager
  newborn now uuid meta d w = record (made sv.host now uuid (first_claims sv.host w.sessions) d) {
    meta = meta;
  }

  created_lem :
      (now : ℕ) (uuid j : String) (meta : V) (d : Manager) (w : World V)
      → IsIndexed sv.host w
      → sv.host.open_db ≡ some d
      → has uuid w.sessions ≡ false
      → deref j (create sv.host now uuid meta w).1.sessions
        ≡ (if uuid == j then some (newborn now uuid meta d w) else deref j w.sessions)
  created_lem now uuid j meta d w v o h =
      let (a, e) = create_new sv.host now uuid meta d w v o h in
      elim (Bool-cases (uuid == j)) [
        | inl q ↦
            let same : uuid ≡ j = grind (arith, eq_iff uuid j) in
            rw (e, deref-append j w.sessions, q, rw same at h) refl
        | inr q ↦ elim (Bool-cases (has j w.sessions)) [
          | inl m ↦ rw (e, deref-append j w.sessions, q, m) refl
          | inr m ↦ rw (e, deref-append j w.sessions, q, m, deref-has j w.sessions m) refl
        ]
      ]

  pub authenticate_id :
      (r : Request V) (uid : ℕ) (s : Session V Manager) → (authenticate sv r uid s).1.id ≡ s.id
  unfolding authenticate core_login core_user_login
  authenticate_id r uid s = elim (Option-cases r.id) [
    | inr (user, e) ↦ rw (e, authenticate) (ground arith)
    | inl e ↦ elim (Option-cases (sv.getpwuid uid)) [
      | inl f ↦ rw (e, f, authenticate) refl
      | inr (name, f) ↦ rw (e, f, authenticate) (ground arith)
    ]
  ]

  -- Once the session is made: a successful login keeps it with one claim less, a failed one takes it out.
  enter_lem :
      (now : ℕ) (r : Request V) (uid : ℕ) (own j : String) (s : Session V Manager) (w : World V)
      → IsIndexed sv.host w
      → deref own w.sessions ≡ some s
      → deref j (enter sv now r uid own s w).1.sessions ≡ (
          if own == j
          then if (authenticate sv r uid s).0
            then some (unclaim now (authenticate sv r uid s).1)
            else none
          else deref j w.sessions)
  unfolding enter release
  enter_lem now r uid own j s w v e =
      let f : Session V Manager → Session V Manager = λ x. (authenticate sv r uid x).1 in
      let same = authenticate_id r uid in
      let logged : World V = record w { sessions = modify own f w.sessions } in
      let after = deref-modify own j f w.sessions same in
      let vl = modify-IsIndexed sv.host own f w same v in
      elim (Bool-cases (authenticate sv r uid s).0) [
        | inl k ↦ elim (Bool-cases (own == j)) [
          | inl q ↦
              let there : deref j w.sessions ≡ some s = rw (← ((eq_iff own j).0 q)) e in
              rw
                (
                  k,
                  q,
                  enter,
                  deref-modify own j (unclaim now) logged.sessions (λ x. unfold unclaim in refl),
                  after,
                  there,
                  q,
                )
                refl
          | inr q ↦
              rw
                (
                  k,
                  q,
                  enter,
                  deref-modify own j (unclaim now) logged.sessions (λ x. unfold unclaim in refl),
                  after,
                  q,
                )
                refl
        ]
        | inr k ↦ elim (Bool-cases (own == j)) [
          | inl q ↦ rw (k, q, enter, deref-remove sv.host own j logged vl, q) refl
          | inr q ↦ rw (k, q, enter, deref-remove sv.host own j logged vl, q, after, q) refl
        ]
      ]

  reply_lem :
      (now : ℕ) (r : Request V) (uid : ℕ) (own : String) (s : Session V Manager) (w : World V)
      → (enter sv now r uid own s w).0 ≡ (
          if (authenticate sv r uid s).0
          then header sv (some own) err_ok
          else copy_session_error sv (authenticate sv r uid s).1)
  unfolding enter
  reply_lem now r uid own s w = elim (Bool-cases (authenticate sv r uid s).0) [
    | inl k ↦ rw (k, enter) refl
    | inr k ↦ rw (k, enter) refl
  ]

  -- Where a new session's database opens and its identifier is unused, bind returns. If the login succeeds,
  -- the answer is the new session's identifier, and the session stays, as the login left it and with the
  -- claim of its creation given back; if it fails, the answer is the session's error, and no session stays.
  -- All other sessions are as they were.
  pub bind_lem :
      (now : ℕ) (uuid : String) (r : Request V) (uid : ℕ) (origin : String) (w : World V)
      (d : Manager)
      → IsIndexed sv.host w
      → sv.host.open_db ≡ some d
      → has uuid w.sessions ≡ false
      → (s : Session V Manager) × (reply : Reply V) × (after : World V) × (s
          ≡ newborn now uuid (sv.origin_meta origin) d w)
        × (bind sv now uuid r uid origin w ≡ some (reply, after))
        × (reply ≡ (
            if (authenticate sv r uid s).0
            then header sv (some uuid) err_ok
            else copy_session_error sv (authenticate sv r uid s).1))
        × ((j : String)
            → deref j after.sessions ≡ (
                if uuid == j
                then if (authenticate sv r uid s).0
                  then some (unclaim now (authenticate sv r uid s).1)
                  else none
                else deref j w.sessions))
  unfolding bind
  bind_lem now uuid r uid origin w d v o h =
      let meta = sv.origin_meta origin in
      let s = newborn now uuid meta d w in
      let w1 = (create sv.host now uuid meta w).1 in
      let v1 = create-IsIndexed sv.host now uuid meta w v in
      let there : deref uuid w1.sessions ≡ some s =
        created_lem now uuid uuid meta d w v o h ∙ rw (eq_refl uuid) refl in
      (
        s,
        (enter sv now r uid uuid s w1).0,
        (enter sv now r uid uuid s w1).1,
        refl,
        rw ((create_new sv.host now uuid meta d w v o h).0, there, bind) refl,
        reply_lem now r uid uuid s w1,
        λ j. elim (Bool-cases (uuid == j)) [
          | inl q ↦ enter_lem now r uid uuid j s w1 v1 there ∙ rw q refl
          | inr q ↦
              enter_lem now r uid uuid j s w1 v1 there
              ∙ rw q (created_lem now uuid j meta d w v o h ∙ rw q refl)
        ],
      )

  -- Under the same conditions getLanguages returns, and leaves every session as it was.
  pub get_languages_lem :
      (now : ℕ) (uuid : String) (w : World V) (d : Manager)
      → IsIndexed sv.host w
      → sv.host.open_db ≡ some d
      → has uuid w.sessions ≡ false
      → (reply : Reply V) × (after : World V) × (get_languages sv now uuid w ≡ some (reply, after))
        × ((j : String) → deref j after.sessions ≡ deref j w.sessions)
  unfolding get_languages
  get_languages_lem now uuid w d v o h =
      let w1 = (create sv.host now uuid sv.host.no_value w).1 in
      let v1 = create-IsIndexed sv.host now uuid sv.host.no_value w v in
      (
        record (header sv none err_ok) { body = sv.languages },
        remove sv.host uuid w1,
        rw ((create_new sv.host now uuid sv.host.no_value d w v o h).0, get_languages) refl,
        λ j. elim (Bool-cases (uuid == j)) [
          | inl q ↦
              let same : uuid ≡ j = grind (arith, eq_iff uuid j) in
              deref-remove sv.host uuid j w1 v1
              ∙ rw (q, deref-has j w.sessions (rw (← same) h)) refl
          | inr q ↦
              deref-remove sv.host uuid j w1 v1
              ∙ rw q (created_lem now uuid j sv.host.no_value d w v o h ∙ rw q refl)
        ],
      )
