-- ===== src/Rpc/Tests.antt =====
-- Requests to RPCHandler, and calls of module programs, on concrete sessions: the theorems at concrete inputs.
use openpanel_opencore.Prelude.{
  String, ◌⊎◌, ◌==◌, true, false, ◌≡◌, refl, some, Option, if◌then◌else◌,
}
use openpanel_opencore.Sessions.{Session, Host, empty, create}
use openpanel_opencore.Sessions.Store.{deref}
use openpanel_opencore.Sessions.Invariant.{IsIndexed, create-IsIndexed, empty-IsIndexed}
use openpanel_opencore.Database.Access.{Manager}
use openpanel_opencore.Modules.Action.{ModuleCall, Module, Returned, action_with_session, run_with}
use openpanel_opencore.Modules.Claims.{claims}
use openpanel_opencore.Modules.Balance.{
  IsFair, action_with_session-balances, action_with_session-lends,
}
use openpanel_opencore.Rpc.Handler.{Request, Reply, World, Services, bind}
use openpanel_opencore.Rpc.Admission.{Bound, Rejected, bind_admits}
use openpanel_opencore.Database.Tests.{backend, root}

abbrev host : Host String Manager
host = record { key = λ s. 7; no_value = ""; open_db = some root; user_login = λ meta d. d }

-- One session, of the first user.
abbrev world : World String
world = (create host 100 "s1" "anna" empty).1

world-IsIndexed : IsIndexed host world
world-IsIndexed = create-IsIndexed host 100 "s1" "anna" empty (empty-IsIndexed host)

abbrev mail : Module String
mail = record { meta = "mail"; demo = false; wantsrpc = true }

abbrev mail_call : ModuleCall String
mail_call = record { command = "create"; classname = "Mail"; session_id = some "s1"; param = "" }

-- A program that does not talk back.
abbrev execute : ModuleCall String → World String → Returned String × World String
execute call w = ((0, "done"), w)

execute-IsFair : IsFair host backend execute
execute-IsFair = record { indexed = λ call w v. v; fair = λ call w j. refl }

abbrev first_session : Session String Manager
first_session = record {
  id = "s1";
  meta = "anna";
  errors = "";
  quotamap = "";
  heartbeat = 100;
  inuse = 0;
  db = root;
}

found : deref "s1" world.sessions ≡ some first_session
unfolding create empty
found = refl

action_with_session-balances_example :
    (r : Returned String) × (after : World String) × (action_with_session host backend execute 101
        "s2" mail mail_call world
      ≡ some (r, after))
    × IsIndexed host after
    × ((j : String) → claims j after ≡ claims j world)
action_with_session-balances_example =
    action_with_session-balances host backend execute 101 "s2" mail mail_call world root
      first_session execute-IsFair world-IsIndexed refl (unfold create empty in refl) found

action_with_session-lends_example :
    (started : World String) × (own : Session String Manager) × (deref "s2" started.sessions
      ≡ some own)
    × (own.db.useruuid ≡ "u-root")
    × (action_with_session host backend execute 101 "s2" mail mail_call world
        ≡ some (run_with host backend execute 101 "s2" mail_call started))
    × ((run_with host backend execute 101 "s2" mail_call started).0
        ≡ (execute (record mail_call { session_id = some "s2" }) started).0)
action_with_session-lends_example =
    action_with_session-lends host backend execute 101 "s2" mail mail_call world root first_session
      world-IsIndexed refl (unfold create empty in refl) found

abbrev ping : Request String → String → World String → Option (Reply String × World String)
ping r id w = some (record { session_id = some id; errorid = 0; body = "pong" }, w)

abbrev services : Services String
services = record {
  host = host;
  backend = backend;
  md5pw = λ p salt. salt;
  is_special = λ user. false;
  with_user = λ user meta. user;
  origin_meta = λ origin. origin;
  error_value = λ code. "error";
  error_code = λ v. 0x2001;
  getpwuid = λ uid. some "root";
  languages = "en_EN";
  command = λ c. some ping;
}

abbrev request : String → Request String
request command = record {
  command = command;
  session_id = "s1";
  id = some "root";
  password = some "secret";
  data_id = "";
  body = "";
}

bind_admits_example :
    (reply : Reply String) × (after : World String) × (bind services 101 "s2"
        (request "bind")
        0
        "rpc"
        world
      ≡ some (reply, after))
    × (Bound services (request "bind") 0 "s2" root reply after
        ⊎ Rejected services (request "bind") 0 "s2" root reply after)
    × ((j : String)
        → deref j after.sessions
          ≡ (if "s2" == j then deref "s2" after.sessions else deref j world.sessions))
bind_admits_example =
    bind_admits services 101 "s2" (request "bind") 0 "rpc" world root world-IsIndexed refl
      (unfold create empty in refl)
