-- ===== src/Modules/Action.antt =====
-- CoreModule::action of module.cpp: a module program is run, with a session of its own where it wants to talk
-- back. The program (API::execute) is a parameter; what it does to the sessions is part of its result.
use openpanel_opencore.Prelude.{ℕ, String, Bool, ◌==◌, Option, none, some, if◌then◌else◌}
use openpanel_opencore.Sessions.{Session, Host, SessionDb, get, release, create, remove}
use openpanel_opencore.Sessions.Store.{deref, modify}
use openpanel_opencore.Database.Access.{Backend, Manager}
use openpanel_opencore.Database.Login.{get_credentials, set_credentials}

-- What reaches a module: the command, the class, `vin["OpenCORE:Session"]["sessionid"]` and the rest of vin.
pub record ModuleCall (V : Type 0) : Type 0 where
  pub command : String
  pub classname : String
  pub session_id : Option String
  pub param : V

-- What action reads of a CoreModule.
pub record Module (V : Type 0) : Type 0 where
  pub meta : V
  pub demo : Bool
  pub wantsrpc : Bool

-- The exit code of the program and its return data.
abbrev pub Returned : Type 0 → Type 0
Returned V = ℕ × V

-- status.h
abbrev pub status_ok : ℕ
status_ok = 0

module _ {V : Type 0} (host : Host V Manager) (b : Backend) where
  abbrev pub World : Type 0
  World = SessionDb V Manager

  abbrev pub Execute : Type 0
  Execute = ModuleCall V → World → Returned V × World

  abbrev pub id_text : Option String → String
  id_text none = ""
  id_text (some id) = id

  abbrev pub on_db : (Manager → Manager) → Session V Manager → Session V Manager
  on_db f s = record s { db = f s.db }

  -- CoreSession::setCredentials of the module's session, with the credentials of the user's
  unfoldable pub lend : String → Session V Manager → World → World
  unfolding get_credentials set_credentials
  lend own user w = record w {
    sessions = modify own (on_db (set_credentials b (get_credentials b user.db))) w.sessions;
  }

  -- The program runs with the module's session, which is taken back afterwards.
  unfoldable pub run_with : Execute → ℕ → String → ModuleCall V → World → Returned V × World
  unfolding release remove
  run_with execute now own call w =
      let (returned, after) = execute (record call { session_id = some own }) w in
      (returned, remove host own (release now own after))

  -- The part of action for a module with `wantsrpc`; `none` is a use of a pointer that leads to no session.
  unfoldable pub action_with_session :
      Execute → ℕ → String → Module V → ModuleCall V → World → Option (Returned V × World)
  unfolding create get release lend run_with
  action_with_session execute now uuid m call w =
      let (own, made) = create host now uuid m.meta w in
      let (user, held) = get host (id_text call.session_id) made in
      elim own [
        | none ↦ none
        | some own ↦ elim user [
          | none ↦ none
          | some user ↦ elim (deref user held.sessions) [
            | none ↦ none
            | some s ↦ some (run_with execute now own call (release now user (lend own s held)))
          ]
        ]
      ]

  abbrev pub without_session : ModuleCall V → ModuleCall V
  without_session call = record call { session_id = none }

  -- CoreModule::action
  unfoldable pub action :
      Execute → ℕ → String → Module V → ModuleCall V → World → Option (Returned V × World)
  unfolding action_with_session
  action execute now uuid m call w =
      if call.command == "listobjects"
      then some (execute (without_session call) w)
      else if m.demo
      then some ((status_ok, host.no_value), w)
      else if m.wantsrpc
      then action_with_session execute now uuid m call w
      else some (execute (without_session call) w)
