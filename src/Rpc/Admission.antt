-- ===== src/Rpc/Admission.antt =====
-- Whom RPCHandler::bind lets in.
use openpanel_opencore.Prelude.{
  ℕ, Option, String, true, false, not, ◌&&◌, ◌==◌, ◌≡◌, ◌≢◌, refl, ◌∙◌, none, some, arith, eq_iff,
  eq_refl, is_zero, Bool-cases, Option-cases, inl, inr, ◌⊎◌, if◌then◌else◌,
}
use openpanel_opencore.Sessions.{Session, unclaim}
use openpanel_opencore.Sessions.Store.{deref, has}
use openpanel_opencore.Sessions.Invariant.{IsIndexed}
use openpanel_opencore.Database.Tables.{Object}
use openpanel_opencore.Database.Access.{Manager}
use openpanel_opencore.Database.Login.{
  IsUser, user_row, password_of, login, user_login, login-authenticates,
}
use openpanel_opencore.Rpc.Handler.{
  Request, Reply, World, Services, err_ok, header, enable_god_mode, password_of_request, admin_name,
  core_login, core_user_login, authenticate, bind,
}
use openpanel_opencore.Rpc.Binding.{bind_lem, authenticate_id}

module _ {V : Type 0} (sv : Services V) where
  -- Whom a request of the system user `uid` lets in, on the database `d`, and the state of the session's
  -- DBManager then.
  pub data Admitted (r : Request V) (uid : ℕ) (d : Manager) : Manager → Type 0 where
    superuser :
        (user : String)
        → r.id ≡ some user
        → (is_zero uid && sv.is_special user) ≡ true
        → Admitted r uid d (enable_god_mode sv d)
    by_password :
        (user : String) (o : Object)
        → r.id ≡ some user
        → (is_zero uid && sv.is_special user) ≡ false
        → IsUser sv.backend user d o
        → o.uuid ≢ ""
        → password_of sv.backend o ≡ sv.md5pw (password_of_request sv r) (password_of sv.backend o)
        → Admitted r uid d (record d { useruuid = o.uuid })
    by_system_user :
        (name : String) (o : Object)
        → r.id ≡ none
        → sv.getpwuid uid ≡ some name
        → user_row sv.backend (admin_name sv name) d.tables ≡ some o
        → o.id ≢ 0
        → Admitted r uid d (record d { useruuid = o.uuid })

  login_accepts :
      (username password : String) (m : Manager) (o : Object)
      → user_row sv.backend username m.tables ≡ some o
      → o.uuid ≢ ""
      → password_of sv.backend o ≡ sv.md5pw password (password_of sv.backend o)
      → (login sv.backend sv.md5pw username password m).0 ≡ true
  unfolding login
  login_accepts username password m o e n p =
      let pw = password_of sv.backend o in
      let f : (pw == sv.md5pw password pw && not (o.uuid == "")) ≡ true =
        grind (arith, eq_iff pw (sv.md5pw password pw), eq_iff o.uuid "") in
      rw (e, f, login) refl

  -- The two outcomes of a login.
  record Admits (r : Request V) (uid : ℕ) (s : Session V Manager) : Type 0 where
    accepted : (authenticate sv r uid s).0 ≡ true
    admitted : Admitted r uid s.db (authenticate sv r uid s).1.db

  record Refuses (r : Request V) (uid : ℕ) (s : Session V Manager) : Type 0 where
    denied : (authenticate sv r uid s).0 ≡ false
    unknown : (d : Manager) → Admitted r uid s.db d → ⊥

  refute_password :
      (r : Request V) (uid : ℕ) (user : String) (m d : Manager)
      → r.id ≡ some user
      → (is_zero uid && sv.is_special user) ≡ false
      → (login sv.backend sv.md5pw user (password_of_request sv r) m).0 ≡ false
      → Admitted r uid m d
      → ⊥
  refute_password r uid user m d e n absent (superuser u f g) =
      let same : user ≡ u = cc in
      let h : (is_zero uid && sv.is_special u) ≡ false = rw (← same) n in let z : ⊥ = cc in z
  refute_password r uid user m d e n absent (by_password u o f g row named hashed) =
      let same : u ≡ user = cc in
      let yes = login_accepts u (password_of_request sv r) m o row.row named hashed in
      let yes' = rw same at yes in let z : ⊥ = cc in z
  refute_password r uid user m d e n absent (by_system_user name o f g row l) = let z : ⊥ = cc in z

  password_outcome :
      (r : Request V) (uid : ℕ) (user : String) (s : Session V Manager)
      → r.id ≡ some user
      → (is_zero uid && sv.is_special user) ≡ false
      → Admits r uid s ⊎ Refuses r uid s
  unfolding authenticate core_login
  password_outcome r uid user s e n =
      let password = password_of_request sv r in
      elim (login-authenticates sv.backend sv.md5pw user password s.db) [
        | inl (ok, (o, row, named, hashed, done)) ↦ inl (record {
          accepted = rw (e, n, ok, authenticate, core_login) refl;
          admitted =
              let same : (authenticate sv r uid s).1.db ≡ record s.db { useruuid = o.uuid } =
                rw (e, n, ok, authenticate, core_login) done in
              rw same (by_password user o e n row named hashed);
        })
        | inr (absent, done) ↦ inr (record {
          denied = rw (e, n, absent, authenticate, core_login) refl;
          unknown = λ d a. refute_password r uid user s.db d e n absent a;
        })
      ]

  refute_system_user :
      (r : Request V) (uid : ℕ) (m d : Manager)
      → r.id ≡ none
      → ((name : String) (o : Object)
          → sv.getpwuid uid ≡ some name
          → user_row sv.backend (admin_name sv name) m.tables ≡ some o
          → o.id ≢ 0
          → ⊥)
      → Admitted r uid m d
      → ⊥
  refute_system_user r uid m d e absent (superuser u f g) = let z : ⊥ = cc in z
  refute_system_user r uid m d e absent (by_password u o f g row named hashed) = let z : ⊥ = cc in z
  refute_system_user r uid m d e absent (by_system_user name o f g row l) = absent name o g row l

  system_outcome :
      (r : Request V) (uid : ℕ) (s : Session V Manager)
      → r.id ≡ none
      → Admits r uid s ⊎ Refuses r uid s
  unfolding authenticate core_user_login user_login
  system_outcome r uid s e = elim (Option-cases (sv.getpwuid uid)) [
    | inl f ↦ inr (record {
      denied = rw (e, f, authenticate) refl;
      unknown = λ d a. refute_system_user r uid s.db d e (λ name o g row l. cc) a;
    })
    | inr (name, f) ↦ elim (Option-cases (user_row sv.backend (admin_name sv name) s.db.tables)) [
      | inl g ↦ inr (record {
        denied = rw (e, f, authenticate, core_user_login, user_login, g) refl;
        unknown = λ d a.
            refute_system_user r uid s.db d e
              (λ other o h row l.
                let same : other ≡ name = cc in let row' = rw same at row in let z : ⊥ = cc in z)
              a;
      })
      | inr (o, g) ↦ elim (Bool-cases (is_zero o.id)) [
        | inl k ↦ inr (record {
          denied = rw (e, f, authenticate, core_user_login, user_login, g, k) refl;
          unknown = λ d a.
              refute_system_user r uid s.db d e
                (λ other o' h row l.
                  let same : other ≡ name = cc in
                  let row' = rw same at row in let x : o' ≡ o = cc in l (rw x (ground (arith, k))))
                a;
        })
        | inr k ↦ inl (record {
          accepted = rw (e, f, authenticate, core_user_login, user_login, g, k) refl;
          admitted =
              let same : (authenticate sv r uid s).1.db ≡ record s.db { useruuid = o.uuid } =
                rw (e, f, authenticate, core_user_login, user_login, g, k) refl in
              rw same (by_system_user name o e f g (ground (arith, k)));
        })
      ]
    ]
  ]

  authenticate_outcome :
      (r : Request V) (uid : ℕ) (s : Session V Manager) → Admits r uid s ⊎ Refuses r uid s
  unfolding authenticate core_login
  authenticate_outcome r uid s = elim (Option-cases r.id) [
    | inl e ↦ system_outcome r uid s e
    | inr (user, e) ↦ elim (Bool-cases (is_zero uid && sv.is_special user)) [
      | inr f ↦ password_outcome r uid user s e f
      | inl f ↦
          let same : (authenticate sv r uid s).1.db ≡ enable_god_mode sv s.db =
            rw (e, f, authenticate, core_login) refl in
          inl (record {
            accepted = rw (e, f, authenticate, core_login) refl;
            admitted = rw same (superuser user e f);
          })
    ]
  ]

  others_lem :
      (uuid j : String) (x y z t t' : Option (Session V Manager))
      → x ≡ (if uuid == uuid then z else t)
      → y ≡ (if uuid == j then z else t')
      → y ≡ (if uuid == j then x else t')
  others_lem uuid j x y z t t' e f = elim (Bool-cases (uuid == j)) [
    | inl q ↦ rw q (f ∙ rw (q, e, eq_refl uuid) refl)
    | inr q ↦ rw q (f ∙ rw q refl)
  ]

  -- What bind comes to: the answer is that of a session that the request was let in to, or an error.
  pub record Bound (r : Request V) (uid : ℕ) (uuid : String) (d : Manager) (reply : Reply V)
      (after : World V) : Type 0 where
    pub session : Session V Manager
    pub admitted : Admitted r uid d session.db
    pub named : session.id ≡ uuid
    pub answered : reply ≡ header sv (some uuid) err_ok
    pub stays : deref uuid after.sessions ≡ some session

  pub record Rejected (r : Request V) (uid : ℕ) (uuid : String) (d : Manager) (reply : Reply V)
      (after : World V) : Type 0 where
    pub unknown : (d' : Manager) → Admitted r uid d d' → ⊥
    pub anonymous : reply.session_id ≡ none
    pub gone : deref uuid after.sessions ≡ none

  -- Where a new session's database opens and its identifier is unused, bind returns. It lets in exactly these
  -- requests: one of the system user 0 that names a special user, in god mode and without a user; one whose
  -- password fits the user that it names, as this user; one without a name, as the user of the system user's name. Then the
  -- answer is the identifier of the new session, which stays and works for that user. To all others the answer
  -- names no session, and the new session is gone. All other sessions are as they were.
  pub bind_admits :
      (now : ℕ) (uuid : String) (r : Request V) (uid : ℕ) (origin : String) (w : World V)
      (d : Manager)
      → IsIndexed sv.host w
      → sv.host.open_db ≡ some d
      → has uuid w.sessions ≡ false
      → (reply : Reply V) × (after : World V) × (bind sv now uuid r uid origin w
          ≡ some (reply, after))
        × (Bound r uid uuid d reply after ⊎ Rejected r uid uuid d reply after)
        × ((j : String)
            → deref j after.sessions
              ≡ (if uuid == j then deref uuid after.sessions else deref j w.sessions))
  bind_admits now uuid r uid origin w d v o h =
      let (s, reply, after, e, returns, answer, all) =
        bind_lem sv now uuid r uid origin w d v o h in
      let base : s.db ≡ d = rw e refl in
      let name : s.id ≡ uuid = rw e refl in
      let own = all uuid in
      let others = λ (j : String). others_lem uuid j _ _ _ _ _ own (all j) in
      elim (authenticate_outcome r uid s) [
        | inl a ↦ (
          reply,
          after,
          returns,
          inl (record {
            session = unclaim now (authenticate sv r uid s).1;
            admitted = unfold unclaim in rw⁻¹ base a.admitted;
            named = unfold unclaim in authenticate_id sv r uid s ∙ name;
            answered = answer ∙ rw a.accepted refl;
            stays = own ∙ rw (eq_refl uuid, a.accepted) refl;
          }),
          others,
        )
        | inr a ↦ (
          reply,
          after,
          returns,
          inr (record {
            unknown = λ d' k. a.unknown d' (rw base k);
            anonymous = rw (answer, a.denied) refl;
            gone = own ∙ rw (eq_refl uuid, a.denied) refl;
          }),
          others,
        )
      ]
