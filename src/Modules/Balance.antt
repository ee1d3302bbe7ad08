-- ===== src/Modules/Balance.antt =====
-- CoreModule::action leaves the claims on all sessions as they were, and lends the user's rights to the
-- module.
use openpanel_opencore.Prelude.{
  ℕ, String, false, ◌==◌, ◌≡◌, ◌≢◌, refl, ◌∙◌, none, some, arith, eq_iff, eq_refl, Bool-cases, inl,
  inr, if◌then◌else◌,
}
use openpanel_opencore.Sessions.{Session, Host, keep, unclaim, get, release, create}
use openpanel_opencore.Sessions.Store.{deref, has, deref-modify, deref-has}
use openpanel_opencore.Sessions.Invariant.{
  IsIndexed, get-IsIndexed, release-IsIndexed, create-IsIndexed, remove-IsIndexed,
}
use openpanel_opencore.Sessions.Usage.{get_lem, create_new}
use openpanel_opencore.Database.Access.{Backend, Manager}
use openpanel_opencore.Database.Login.{get_credentials, set_credentials}
use openpanel_opencore.Modules.Claims.{
  claims, lend-IsIndexed, claims-lend, claims-get, claims-create, claims-release, claims-remove,
  more_less, deref_created, taken, created_own,
}
use openpanel_opencore.Modules.Action.{
  ModuleCall, Module, Returned, World, Execute, id_text, on_db, lend, run_with, action_with_session,
}

module _ {V : Type 0} (host : Host V Manager) (b : Backend) where
  -- The program keeps the sessions in order, and gives back what it claims.
  pub record IsFair (execute : Execute host b) : Type 0 where
    pub indexed :
        (call : ModuleCall V) (w : World host b)
        → IsIndexed host w
        → IsIndexed host (execute call w).1
    pub fair :
        (call : ModuleCall V) (w : World host b) (j : String)
        → claims j (execute call w).1 ≡ claims j w

  -- After the program has run, the module's session is gone and the other claims are as they were before.
  run_with_lem :
      (execute : Execute host b) (now : ℕ) (own : String) (call : ModuleCall V) (w : World host b)
      → IsFair execute
      → IsIndexed host w
      → IsIndexed host (run_with host b execute now own call w).1
        × ((j : String)
            → claims j (run_with host b execute now own call w).1
              ≡ (if own == j then none else claims j w))
  unfolding run_with
  run_with_lem execute now own call w f v =
      let next : ModuleCall V = record call { session_id = some own } in
      let x = (execute next w).1 in
      let a = release-IsIndexed host now own x (f.indexed next w v) in
      (
        remove-IsIndexed host own (release now own x) a,
        λ j. elim (Bool-cases (own == j)) [
          | inl e ↦ claims-remove host b own j (release now own x) a ∙ rw e refl
          | inr e ↦
              claims-remove host b own j (release now own x) a
              ∙ rw e (claims-release host b now own j x ∙ rw e (f.fair next w j))
        ],
      )

  -- For a module that wants to talk back, where the program keeps the sessions in order and gives back what
  -- it claims: if the user's session is there, the new identifier is unused and its database opens, then
  -- action returns; afterwards every session has the claims that it had before, the module's session is
  -- gone, and tree and list of the sessions still agree.
  pub action_with_session-balances :
      (execute : Execute host b) (now : ℕ) (uuid : String) (m : Module V) (call : ModuleCall V)
      (w : World host b) (d : Manager) (s : Session V Manager)
      → IsFair execute
      → IsIndexed host w
      → host.open_db ≡ some d
      → has uuid w.sessions ≡ false
      → deref (id_text host b call.session_id) w.sessions ≡ some s
      → (r : Returned V) × (after : World host b) × (action_with_session host b execute now uuid m
            call w
          ≡ some (r, after))
        × IsIndexed host after
        × ((j : String) → claims j after ≡ claims j w)
  unfolding action_with_session
  action_with_session-balances execute now uuid m call w d s f v o h e =
      let id = id_text host b call.session_id in
      let (n, there) = deref_created host b now uuid id m.meta d w s v o h e in
      let w1 = (create host now uuid m.meta w).1 in
      let v1 = create-IsIndexed host now uuid m.meta w v in
      let (g, k) = taken host b id w1 s v1 there in
      let w2 = (get host id w1).1 in
      let w3 = lend host b uuid (keep s) w2 in
      let w4 = release now id w3 in
      let v4 =
        release-IsIndexed host now id w3
          (lend-IsIndexed host b uuid (keep s) w2 (get-IsIndexed host id w1 v1)) in
      let done = run_with host b execute now uuid call w4 in
      let (v5, c5) = run_with_lem execute now uuid call w4 f v4 in
      (
        done.0,
        done.1,
        rw ((create_new host now uuid m.meta d w v o h).0, g, k, action_with_session) refl,
        v5,
        λ j. elim (Bool-cases (uuid == j)) [
          | inl q ↦
              let same : uuid ≡ j = grind (arith, eq_iff uuid j) in
              c5 j ∙ rw (q, deref-has j w.sessions (rw (← same) h)) refl
          | inr q ↦
              let apart : uuid ≢ j = grind (arith, eq_iff uuid j) in
              c5 j
              ∙ rw q (
                  claims-release host b now id j w3
                  ∙ rw (claims-lend host b uuid j (keep s) w2, claims-get host b id j w1 v1)
                      (more_less host b (id == j) (claims j w1)
                        ∙ claims-create host b now uuid j m.meta d w v o h apart))
        ],
      )

  -- Under the same conditions on the sessions, action runs the program from a state in which the module's
  -- session works for the user of the call's session, and returns what the program returns.
  pub action_with_session-lends :
      (execute : Execute host b) (now : ℕ) (uuid : String) (m : Module V) (call : ModuleCall V)
      (w : World host b) (d : Manager) (s : Session V Manager)
      → IsIndexed host w
      → host.open_db ≡ some d
      → has uuid w.sessions ≡ false
      → deref (id_text host b call.session_id) w.sessions ≡ some s
      → (started : World host b) × (own : Session V Manager) × (deref uuid started.sessions
          ≡ some own)
        × (own.db.useruuid ≡ s.db.useruuid)
        × (action_with_session host b execute now uuid m call w
            ≡ some (run_with host b execute now uuid call started))
        × ((run_with host b execute now uuid call started).0
            ≡ (execute (record call { session_id = some uuid }) started).0)
  unfolding action_with_session run_with lend release set_credentials get_credentials keep
  action_with_session-lends execute now uuid m call w d s v o h e =
      let id = id_text host b call.session_id in
      let (n, there) = deref_created host b now uuid id m.meta d w s v o h e in
      let (x, own) = created_own host b now uuid m.meta d w v o h in
      let w1 = (create host now uuid m.meta w).1 in
      let v1 = create-IsIndexed host now uuid m.meta w v in
      let (g, k) = taken host b id w1 s v1 there in
      let w2 = (get host id w1).1 in
      let w3 = lend host b uuid (keep s) w2 in
      let w4 = release now id w3 in
      let apart : id == uuid ≡ false = grind (arith, eq_iff id uuid) in
      let own2 : deref uuid w2.sessions ≡ some x =
        (get_lem host id uuid w1 v1).1 ∙ rw (apart, own) refl in
      let f = on_db host b (set_credentials b (get_credentials b s.db)) in
      let own3 : deref uuid w3.sessions ≡ some (f x) =
        deref-modify uuid uuid f w2.sessions (λ y. refl) ∙ rw (eq_refl uuid, own2) refl in
      let own4 : deref uuid w4.sessions ≡ some (f x) =
        deref-modify id uuid (unclaim now) w3.sessions (λ y. unfold unclaim in refl)
        ∙ rw (apart, own3) refl in
      (
        w4,
        f x,
        own4,
        refl,
        rw ((create_new host now uuid m.meta d w v o h).0, g, k, action_with_session) refl,
        refl,
      )
