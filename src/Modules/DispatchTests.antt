-- ===== src/Modules/DispatchTests.antt =====
-- The operations of ModuleDB on a concrete registry, and their theorems at concrete inputs.
use openpanel_opencore.Prelude.{
  String, ◌==◌, ◌&&◌, true, false, ◌≡◌, refl, Option, none, some, List, [], ◌∷◌, ◌++◌, arith,
  has_name, if◌then◌else◌,
}
use openpanel_opencore.Sessions.{Session, Host, empty, create}
use openpanel_opencore.Sessions.Store.{deref, has}
use openpanel_opencore.Sessions.Invariant.{IsIndexed, create-IsIndexed, empty-IsIndexed}
use openpanel_opencore.Database.Access.{Manager}
use openpanel_opencore.Modules.Action.{ModuleCall, Module, Returned, World}
use openpanel_opencore.Modules.Balance.{IsFair}
use openpanel_opencore.Modules.Dispatch.{
  Values, Registry, make_crypt, set_special_physical_quota, create_object, update_object,
  delete_object, call_method, find_module,
}
use openpanel_opencore.Modules.Dispatched.{Laws, IsAnswered, create_object-IsAnswered}
use openpanel_opencore.Modules.Lost.{make_crypt_lost}
use openpanel_opencore.Database.Tests.{backend, root}

-- Assignments, the latest first.
abbrev Entries : Type 0
Entries = List (String × (String × String))

abbrev find_entry : String → String → Entries → Option String
find_entry outer inner [] = none
find_entry outer inner ((o, (i, t)) ∷ v) =
    if outer == o && inner == i then some t else find_entry outer inner v

abbrev text_of : Option String → String
text_of none = ""
text_of (some t) = t

abbrev values : Values Entries
values = record {
  empty = [];
  put = λ key t v. (key, ("", t)) ∷ v;
  put_in = λ outer inner t v. (outer, (inner, t)) ∷ v;
  put_value = λ key x v. (key, ("", text_of (find_entry "" "" x))) ∷ v;
  find_in = find_entry;
  merge = λ v x. x ++ v;
  text_at = λ key v. text_of (find_entry key "" v);
  value_at = λ key v. v;
  error_text = λ v. text_of (find_entry "OpenCORE:Result" "message" v);
  text = λ n. "";
  class_of_tag = λ tag. "Mail";
}

skip_entry :
    (outer inner o i t : String) (v : Entries)
    → (outer == o && inner == i) ≡ false
    → find_entry outer inner ((o, (i, t)) ∷ v) ≡ find_entry outer inner v
skip_entry outer inner o i t v e = rw e refl

values_laws : Laws values
values_laws = record {
  find-empty = λ outer inner. refl;
  find-put = λ outer inner key t v e. skip_entry outer inner key "" t v (rw e refl);
  find-put_in =
      λ outer inner other key t v e. skip_entry outer inner other key t v (ground (arith, e));
  find-put_value = λ outer inner key x v e.
      skip_entry outer inner key "" (text_of (find_entry "" "" x)) v (rw e refl);
}

abbrev host : Host Entries Manager
host = record { key = λ s. 7; no_value = []; open_db = some root; user_login = λ meta d. d }

abbrev world : World host backend
world = (create host 100 "s1" [] empty).1

world-IsIndexed : IsIndexed host world
world-IsIndexed = create-IsIndexed host 100 "s1" [] empty (empty-IsIndexed host)

abbrev mail : Module Entries
mail = record { meta = []; demo = false; wantsrpc = true }

abbrev registry : Registry Entries
registry = record {
  byclass = ("Mail", some mail) ∷ [];
  methods = λ ofclass. "flush" ∷ [];
  dynamic = λ ofclass. false;
}

-- A program that refuses what it is asked for.
abbrev execute : ModuleCall Entries → World host backend → Returned Entries × World host backend
execute call w = ((1, ("OpenCORE:Result", ("message", "full")) ∷ []), w)

execute-IsFair : IsFair host backend execute
execute-IsFair = record { indexed = λ call w v. v; fair = λ call w j. refl }

abbrev parm : Entries
parm = ("OpenCORE:Session", ("sessionid", "s1")) ∷ []

abbrev first_session : Session Entries Manager
first_session = record {
  id = "s1";
  meta = [];
  errors = [];
  quotamap = [];
  heartbeat = 100;
  inuse = 0;
  db = root;
}

found : deref "s1" world.sessions ≡ some first_session
unfolding create empty
found = refl

unused : (has "s2" world.sessions ≡ false) × (has "" world.sessions ≡ false)
unfolding create empty
unused = (refl, refl)

-- A class that no module has.
unknown_class :
    update_object host backend values registry execute 101 "s2" "Web" "o1" parm "as before" world
    ≡ some (record { status = 1; err = "as before"; returned = [] }, world)
unfolding update_object find_module
unknown_class = refl

unknown_method :
    call_method host backend values registry execute 101 "s2" "p1" "Mail" "o1" "grow" parm "" world
    ≡ some (record { status = 1; err = ""; returned = [] }, world)
unfolding call_method find_module has_name
unknown_method = refl

make_crypt_lost_example :
    (make_crypt host backend values registry execute 101 "s2" "Mail" "password" "secret" "" world
      ≡ none)
    × (set_special_physical_quota host backend values registry execute 101 "s2" "Mail/space" parm ""
          world
        ≡ none)
make_crypt_lost_example =
    make_crypt_lost host backend values registry values_laws execute 101 "s2" "Mail" "password"
      "secret" "" "Mail/space" "" parm mail world root refl refl (unfold find_module in refl) refl
      refl world-IsIndexed refl unused.0 unused.1 refl

create_object-IsAnswered_example :
    IsAnswered host backend values registry values_laws world
      (create_object host backend values registry execute 101 "s2" "Mail" "o1" parm "" world)
    × IsAnswered host backend values registry values_laws world
        (update_object host backend values registry execute 101 "s2" "Mail" "o1" parm "" world)
    × IsAnswered host backend values registry values_laws world
        (delete_object host backend values registry execute 101 "s2" "Mail" "o1" parm "" world)
create_object-IsAnswered_example =
    create_object-IsAnswered host backend values registry values_laws execute 101 "s2" "Mail" "o1"
      "s1" "" parm mail world root first_session (unfold find_module in refl) refl refl refl
      execute-IsFair world-IsIndexed refl unused.0 found
