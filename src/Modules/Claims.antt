-- ===== src/Modules/Claims.antt =====
-- The claims on the sessions, after each of the calls that CoreModule::action and RPCHandler make.
use mathlib.Core.Option
use openpanel_opencore.Prelude.{
  ℕ, ◌+◌, ◌-◌, String, Bool, true, false, ◌==◌, ◌≡◌, ◌≢◌, refl, sym, ap, ◌∙◌, Option, none, some,
  List, [], ◌∷◌, arith, eq_iff, eq_refl, Bool-cases, Option-cases, inl, inr, if◌then◌else◌,
}
use openpanel_opencore.Sessions.{
  Session, Host, SessionDb, keep, unclaim, get, release, create, remove,
}
use openpanel_opencore.Sessions.Store.{
  deref, has, modify, Distinct-modify, has-modify, deref-modify, deref-append, deref-has,
}
use openpanel_opencore.Sessions.Invariant.{IsIndexed}
use openpanel_opencore.Sessions.Usage.{get_lem, deref-remove, create_new, first_claims, made}
use openpanel_opencore.Database.Access.{Backend, Manager}
use openpanel_opencore.Database.Login.{get_credentials, set_credentials}
use openpanel_opencore.Modules.Action.{World, on_db, lend}

abbrev pub inuse_of : {V : Type 0} → Option (Session V Manager) → Option ℕ
inuse_of none = none
inuse_of (some s) = some s.inuse

-- The claims on a session, where there is one.
abbrev pub claims : {V : Type 0} → String → SessionDb V Manager → Option ℕ
claims j w = inuse_of (deref j w.sessions)

module _ {V : Type 0} (host : Host V Manager) (b : Backend) where
  pub lend-IsIndexed :
      (own : String) (s : Session V Manager) (w : World host b)
      → IsIndexed host w
      → IsIndexed host (lend host b own s w)
  unfolding lend
  lend-IsIndexed own s w v =
      let f = on_db host b (set_credentials b (get_credentials b s.db)) in
      record {
        distinct = Distinct-modify own f w.sessions (λ x. refl) v.distinct;
        indexed = λ j. v.indexed j ∙ sym (has-modify own j f w.sessions (λ x. refl));
      }

  -- A write to a session that keeps its identifier, seen on the claims.
  pub claims-modify :
      (id j : String) (f : Session V Manager → Session V Manager) (g : ℕ → ℕ) (w : World host b)
      → ((s : Session V Manager) → (f s).id ≡ s.id)
      → ((s : Session V Manager) → (f s).inuse ≡ g s.inuse)
      → claims j (record w { sessions = modify id f w.sessions })
        ≡ (if id == j then Option.map g (claims j w) else claims j w)
  claims-modify id j f g w h k = elim (Bool-cases (id == j)) [
    | inr e ↦ rw (deref-modify id j f w.sessions h, e) refl
    | inl e ↦ elim (Option-cases (deref j w.sessions)) [
      | inl m ↦ rw (deref-modify id j f w.sessions h, e, m) refl
      | inr (s, m) ↦ rw (deref-modify id j f w.sessions h, e, m) (ground (arith, k s))
    ]
  ]

  pub map_same : (c : Bool) (o : Option ℕ) → (if c then Option.map (λ n. n) o else o) ≡ o
  map_same true none = refl
  map_same true (some n) = refl
  map_same false o = refl

  pub claims-lend :
      (own j : String) (s : Session V Manager) (w : World host b)
      → claims j (lend host b own s w) ≡ claims j w
  unfolding lend
  claims-lend own j s w =
      claims-modify own j (on_db host b (set_credentials b (get_credentials b s.db))) (λ n. n) w
        (λ x. refl) (λ x. refl)
      ∙ map_same (own == j) (claims j w)

  pub claims-get :
      (id j : String) (w : World host b)
      → IsIndexed host w
      → claims j (get host id w).1
        ≡ (if id == j then Option.map (λ n. n + 1) (claims j w) else claims j w)
  unfolding keep
  claims-get id j w v =
      let (a, e) = get_lem host id j w v in
      elim (Bool-cases (id == j)) [
        | inr f ↦ rw (e, f) refl
        | inl f ↦ elim (Option-cases (deref j w.sessions)) [
          | inl m ↦ rw (e, f, m) refl
          | inr (s, m) ↦ rw (e, f, m) refl
        ]
      ]

  pub claims-create :
      (now : ℕ) (uuid j : String) (meta : V) (d : Manager) (w : World host b)
      → IsIndexed host w
      → host.open_db ≡ some d
      → has uuid w.sessions ≡ false
      → uuid ≢ j
      → claims j (create host now uuid meta w).1 ≡ claims j w
  claims-create now uuid j meta d w v o h n =
      let (a, e) = create_new host now uuid meta d w v o h in
      let f : uuid == j ≡ false = grind (arith, eq_iff uuid j) in
      elim (Bool-cases (has j w.sessions)) [
        | inl m ↦ rw (e, deref-append j w.sessions, m) refl
        | inr m ↦ rw (e, deref-append j w.sessions, m, f, deref-has j w.sessions m) refl
      ]

  abbrev pub less : ℕ → ℕ
  less n = n - 1

  pub claims-release :
      (now : ℕ) (id j : String) (w : World host b)
      → claims j (release now id w) ≡ (if id == j then Option.map less (claims j w) else claims j w)
  unfolding release unclaim
  claims-release now id j w =
      claims-modify id j (unclaim now) less w (λ s. refl) (λ s. ground arith)

  pub claims-remove :
      (id j : String) (w : World host b)
      → IsIndexed host w
      → claims j (remove host id w) ≡ (if id == j then none else claims j w)
  claims-remove id j w v = elim (Bool-cases (id == j)) [
    | inl f ↦ rw (deref-remove host id j w v, f) refl
    | inr f ↦ rw (deref-remove host id j w v, f) refl
  ]

  -- A claim more and a claim less.
  pub more_less :
      (c : Bool) (o : Option ℕ)
      → (if c
          then Option.map less (if c then Option.map (λ n. n + 1) o else o)
          else if c
          then Option.map (λ n. n + 1) o
          else o)
        ≡ o
  more_less true none = refl
  more_less true (some n) = ground arith
  more_less false o = refl

  pub deref_id :
      (id : String) (xs : List (Session V Manager)) (s : Session V Manager)
      → deref id xs ≡ some s
      → s.id ≡ id
  deref_id id [] s e = absurd (let z : ⊥ = cc in z)
  deref_id id (x ∷ xs) s e = elim (Bool-cases (x.id == id)) [
    | inl f ↦ let k : s ≡ x = ground arith in rw k (grind (arith, eq_iff x.id id))
    | inr f ↦ deref_id id xs s (ground arith)
  ]

  -- The user's session is found behind the new one.
  pub deref_created :
      (now : ℕ) (uuid id : String) (meta : V) (d : Manager) (w : World host b)
      (s : Session V Manager)
      → IsIndexed host w
      → host.open_db ≡ some d
      → has uuid w.sessions ≡ false
      → deref id w.sessions ≡ some s
      → (uuid ≢ id) × (deref id (create host now uuid meta w).1.sessions ≡ some s)
  deref_created now uuid id meta d w s v o h e =
      let (a, c) = create_new host now uuid meta d w v o h in
      let there : has id w.sessions ≡ true = elim (Bool-cases (has id w.sessions)) [
        | inl m ↦ m
        | inr m ↦ let n = deref-has id w.sessions m in absurd (let z : ⊥ = cc in z)
      ] in
      (
        λ same. absurd (let z : has id w.sessions ≡ false = rw (← same) h in let y : ⊥ = cc in y),
        rw (c, deref-append id w.sessions, there) e,
      )

  pub taken :
      (id : String) (w : World host b) (s : Session V Manager)
      → IsIndexed host w
      → deref id w.sessions ≡ some s
      → ((get host id w).0 ≡ some id) × (deref id (get host id w).1.sessions ≡ some (keep s))
  unfolding keep
  taken id w s v e =
      let (a, c) = get_lem host id id w v in
      (rw (a, e) (ap some (deref_id id w.sessions s e)), rw (c, eq_refl id, e) refl)

  pub created_own :
      (now : ℕ) (uuid : String) (meta : V) (d : Manager) (w : World host b)
      → IsIndexed host w
      → host.open_db ≡ some d
      → has uuid w.sessions ≡ false
      → (x : Session V Manager) × (deref uuid (create host now uuid meta w).1.sessions ≡ some x)
  created_own now uuid meta d w v o h =
      let (a, c) = create_new host now uuid meta d w v o h in
      (
        record (made host now uuid (first_claims host w.sessions) d) { meta = meta },
        rw (c, deref-append uuid w.sessions, h, eq_refl uuid) refl,
      )
