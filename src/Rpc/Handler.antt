-- ===== src/Rpc/Handler.antt =====
-- RPCHandler of rpc.cpp: handle, call, bind and getLanguages, with login and userLogin of CoreSession in
-- session.cpp. The commands that `call` hands a request to are a parameter. `none` is a use of a pointer that
-- leads to no session.
use openpanel_opencore.Prelude.{
  ℕ, String, Bool, true, false, ◌&&◌, ◌==◌, Option, none, some, is_zero, if◌then◌else◌,
}
use openpanel_opencore.Sessions.{Session, Host, SessionDb, get, release, create, remove}
use openpanel_opencore.Sessions.Store.{deref, modify}
use openpanel_opencore.Database.Access.{Backend, Manager, err_loginfail}
use openpanel_opencore.Database.Login.{login, user_login}

-- What the handler reads of a request; an empty session id is that there is none.
pub record Request (V : Type 0) : Type 0 where
  pub command : String
  pub session_id : String
  pub id : Option String
  pub password : Option String
  pub data_id : String
  pub body : V

-- The header of an answer, and its body.
pub record Reply (V : Type 0) : Type 0 where
  pub session_id : Option String
  pub errorid : ℕ
  pub body : V

-- error.h
abbrev pub err_ok : ℕ
err_ok = 0x0000

abbrev pub err_session_invalid : ℕ
err_session_invalid = 0x3000

abbrev pub err_rpc_invalidcmd : ℕ
err_rpc_invalidcmd = 0x4006

abbrev pub World : Type 0 → Type 0
World V = SessionDb V Manager

-- What the handler takes from elsewhere.
pub record Services (V : Type 0) : Type 0 where
  pub host : Host V Manager
  pub backend : Backend
  -- DBManager's hash of a password with the salt of a stored one
  pub md5pw : String → String → String
  -- `user[0]=='!'`
  pub is_special : String → Bool
  -- `meta["user"] = user`
  pub with_user : String → V → V
  -- `$("origin", origin)`
  pub origin_meta : String → V
  -- the error of a session, and its code
  pub error_value : ℕ → V
  pub error_code : V → ℕ
  -- `core.userdb.getpwuid (uid)`
  pub getpwuid : ℕ → Option String
  pub languages : V
  -- `handler`; a command may use a null pointer
  pub command : String → Option (Request V → String → World V → Option (Reply V × World V))

module _ {V : Type 0} (sv : Services V) where
  abbrev pub header : Option String → ℕ → Reply V
  header session_id errorid = record {
    session_id = session_id;
    errorid = errorid;
    body = sv.host.no_value;
  }

  -- DBManager::enableGodMode
  abbrev pub enable_god_mode : Manager → Manager
  enable_god_mode m = record m { useruuid = ""; god = true }

  -- CoreSession::login
  unfoldable pub core_login : String → String → Bool → Session V Manager → Bool × Session V Manager
  unfolding login
  core_login user pass superuser s =
      let (ok, db) = login sv.backend sv.md5pw user pass s.db in
      if superuser && sv.is_special user
      then (true, record s { db = enable_god_mode s.db })
      else if ok
      then (true, record s { db = db; meta = sv.with_user user s.meta })
      else (false, record s { db = db; errors = sv.error_value err_loginfail })

  -- CoreSession::userLogin
  unfoldable pub core_user_login : String → Session V Manager → Bool × Session V Manager
  unfolding user_login
  core_user_login user s =
      let (ok, db) = user_login sv.backend user s.db in
      let t = record s { db = db; errors = sv.error_value db.errorcode } in
      if ok then (true, record t { meta = sv.with_user user s.meta }) else (false, t)

  abbrev pub password_of_request : Request V → String
  password_of_request r = elim r.password [ none ↦ r.data_id | some password ↦ password ]

  abbrev pub admin_name : String → String
  admin_name username = if username == "root" then "openpanel-admin" else username

  -- The two ways in which bind logs in: with the credentials of the request, or as the caller's own user.
  unfoldable pub authenticate : Request V → ℕ → Session V Manager → Bool × Session V Manager
  unfolding core_login core_user_login
  authenticate r uid s = elim r.id [
    | some user ↦ core_login user (password_of_request r) (is_zero uid) s
    | none ↦ elim (sv.getpwuid uid) [
      | none ↦ (false, s)
      | some username ↦ core_user_login (admin_name username) s
    ]
  ]

  -- RPCHandler::copySessionError
  abbrev pub copy_session_error : Session V Manager → Reply V
  copy_session_error s = header none (sv.error_code s.errors)

  -- What bind does once the session is made; the pointer `own` leads to `s`.
  unfoldable pub enter :
      ℕ → Request V → ℕ → String → Session V Manager → World V → Reply V × World V
  unfolding authenticate release remove
  enter now r uid own s w =
      let (ok, t) = authenticate r uid s in
      let logged = record w { sessions = modify own (λ x. (authenticate r uid x).1) w.sessions } in
      if ok
      then (header (some own) err_ok, release now own logged)
      else (copy_session_error t, remove sv.host own logged)

  -- RPCHandler::bind, with the identifier that the new session gets
  unfoldable pub bind : ℕ → String → Request V → ℕ → String → World V → Option (Reply V × World V)
  unfolding create enter
  bind now uuid r uid origin w =
      let (own, made) = create sv.host now uuid (sv.origin_meta origin) w in
      elim own [
        | none ↦ none
        | some own ↦ elim (deref own made.sessions) [
          | none ↦ none
          | some s ↦ some (enter now r uid own s made)
        ]
      ]

  -- RPCHandler::getLanguages
  unfoldable pub get_languages : ℕ → String → World V → Option (Reply V × World V)
  unfolding create remove
  get_languages now uuid w =
      let (own, made) = create sv.host now uuid sv.host.no_value w in
      elim own [
        | none ↦ none
        | some own ↦
            some (record (header none err_ok) { body = sv.languages }, remove sv.host own made)
      ]

  -- RPCHandler::call
  unfoldable pub call : Request V → String → World V → Option (Reply V × World V)
  call r id w = elim (sv.command r.command) [
    | none ↦ some (header (some id) err_rpc_invalidcmd, w)
    | some run ↦ run r id w
  ]

  -- The part of handle for a session that was found.
  unfoldable pub serve : ℕ → Request V → String → World V → Option (Reply V × World V)
  unfolding call release remove
  serve now r id w =
      if r.command == "logout"
      then some (header none err_ok, remove sv.host id w)
      else elim (call r id w) [ none ↦ none | some x ↦ some (x.0, release now id x.1) ]

  -- The part of handle for a request in a session.
  unfoldable pub handle_in_session : ℕ → Request V → World V → Option (Reply V × World V)
  unfolding get serve
  handle_in_session now r w =
      let (found, held) = get sv.host r.session_id w in
      if r.session_id == "" then some (header none err_session_invalid, w) else elim found [
        | none ↦ some (header none err_session_invalid, held)
        | some id ↦ serve now r id held
      ]

  -- RPCHandler::handle
  unfoldable pub handle : ℕ → String → Request V → ℕ → String → World V → Option (Reply V × World V)
  unfolding bind get_languages handle_in_session
  handle now uuid r uid origin w =
      if r.command == "bind"
      then bind now uuid r uid origin w
      else if r.command == "getlanguages"
      then get_languages now uuid w
      else handle_in_session now r w
