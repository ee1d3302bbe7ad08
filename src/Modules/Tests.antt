-- ===== src/Modules/Tests.antt =====
-- Runs of the module database on concrete modules, and the theorems at concrete inputs.
use openpanel_opencore.Prelude.{
  ℕ, String, ◌==◌, true, ◌≡◌, refl, Option, none, some, List, [], ◌∷◌, arith, length, All, has_name,
  count_name, eq_iff, pos, inr, if◌then◌else◌,
}
use openpanel_opencore.Modules.Flatten.{
  Tree, class_node, no_instance, instance_node, no_member, text_member, class_member, parsetree,
}
use openpanel_opencore.Modules.Positions.{count, IsPlaced, parsetree-IsPlaced}
use openpanel_opencore.Modules.Normalize.{
  Datum, text, integer, Conversions, CoreClass, Data, normalize,
}
use openpanel_opencore.Modules.Typing.{IsNormal, normalize-IsNormal}
use openpanel_opencore.Modules.Loading.{
  ClassMeta, ModuleMeta, ModuleDb, Environment, Outcome, register_classes, load_module,
}
use openpanel_opencore.Modules.Frame.{IsFrame}
use openpanel_opencore.Modules.Linked.{IsOnce}
use openpanel_opencore.Modules.Once.{IsResult, Holds, load_module-IsResult}
use openpanel_opencore.Modules.Termination.{load_module-terminates}
use openpanel_opencore.Modules.Classes.{IsOf, register_classes-registers}

-- Two domains, the first with a mail box.
abbrev pub tree : Tree
tree = class_node "Domain" (
    instance_node "a.org" none
      (text_member "owner" "anna" (
        class_member (class_node "Mail" (instance_node "info" none no_member no_instance))
          no_member))
      (instance_node "b.org" none no_member no_instance))

parsetree-IsPlaced_example :
    (length (parsetree tree none []) ≡ count tree) × IsPlaced (parsetree tree none [])
parsetree-IsPlaced_example = parsetree-IsPlaced tree

three_rows : length (parsetree tree none []) ≡ 3
unfolding parsetree
three_rows = refl

abbrev sval_of : Datum → String
sval_of (text t) = t
sval_of _ = "1"

abbrev conversions : Conversions
conversions = record {
  sval = sval_of;
  ival = λ v. pos 5;
  bval = λ v. true;
  regexp = λ r. r;
  matches = λ r s. true;
}

abbrev quota_class : CoreClass
quota_class = record {
  name = "Quota";
  param =
      record {
        id = "limit";
        kind = "integer";
        regexp = "[0-9]+";
        default = text "";
        required = true;
      }
      ∷ record { id = "unit"; kind = "enum"; regexp = ""; default = text "MB"; required = true }
      ∷ [];
  enums = ("unit", "KB" ∷ "MB" ∷ []) ∷ [];
}

abbrev given : Data
given = ("owner-metaid", text "anna") ∷ ("limit", text "5") ∷ []

abbrev normal : Data
normal = ("owner-metaid", text "anna") ∷ ("limit", integer (pos 5)) ∷ ("unit", text "MB") ∷ []

normalize_given : normalize conversions quota_class given ≡ inr normal
unfolding normalize
normalize_given = refl

normalize-IsNormal_example : IsNormal conversions quota_class quota_class.param normal
normalize-IsNormal_example =
    normalize-IsNormal conversions quota_class (λ t. refl) given normal normalize_given

abbrev mail_class : ClassMeta
mail_class = record {
  name = "Mail";
  uuid = "u-mail";
  requires = some "Domain";
  childrendep = some "Domain";
}

abbrev domain_class : ClassMeta
domain_class = record { name = "Domain"; uuid = "u-domain"; requires = none; childrendep = none }

abbrev module_meta : Option String → List ClassMeta → ModuleMeta
module_meta requires classes = record {
  version = 1;
  requires = requires;
  quotas = [];
  languages = "en_EN" ∷ [];
  classes = classes;
}

-- Each of two modules requires the other.
abbrev known : List String
known = "Domain.module" ∷ "Mail.module" ∷ []

abbrev open_known : String → Option ModuleMeta
open_known name =
    if name == "Domain.module"
    then some (module_meta (some "Mail.module") (domain_class ∷ []))
    else if name == "Mail.module"
    then some (module_meta (some "Domain.module") (mail_class ∷ []))
    else none

abbrev env : Environment ℕ
env = record {
  exists_path = λ name. true;
  open_module = open_known;
  verify = λ name. true;
  update_ok = λ name v. true;
  cut_module = λ name. name;
  register_class = λ c d. some d;
  get_config = λ name d. inr d;
}

abbrev nothing : ModuleDb ℕ
nothing = record {
  history = [];
  cache = [];
  languages = [];
  linked = [];
  byname = [];
  byquota = [];
  byclass = [];
  byclassuuid = [];
  classlist = [];
  byparent = [];
  cascades = [];
  staging = [];
  database = 0;
}

abbrev loaded : ModuleDb ℕ
loaded = record nothing {
  history = "Mail.module" ∷ "Domain.module" ∷ [];
  cache = ("Mail.module", 1) ∷ ("Domain.module", 1) ∷ [];
  languages = "en_EN" ∷ [];
  linked = "Mail.module" ∷ "Domain.module" ∷ [];
  byname = "Domain.module" ∷ "Mail.module" ∷ [];
  byclass = ("Mail", "Mail.module") ∷ ("Domain", "Domain.module") ∷ [];
  byclassuuid = ("u-mail", "Mail.module") ∷ ("u-domain", "Domain.module") ∷ [];
  classlist = ("Mail", "Mail.module") ∷ ("Domain", "Domain.module") ∷ [];
  byparent = ("Domain", "Mail") ∷ ("ROOT", "Domain") ∷ [];
  staging = "Domain.module" ∷ "Mail.module" ∷ [];
}

load_domain : load_module env 3 "Domain.module" nothing ≡ some (inr loaded)
unfolding load_module
load_domain = refl

nothing-IsOnce : IsOnce nothing
unfolding count_name
nothing-IsOnce = record { once = λ x. omega arith; fresh = λ x e. refl }

load_module-IsResult_example : Holds env (IsResult env "Domain.module" nothing) (inr loaded)
load_module-IsResult_example =
    load_module-IsResult env 3 "Domain.module" nothing (inr loaded) nothing-IsOnce load_domain

known_opens :
    (name : String) (m : ModuleMeta) → open_known name ≡ some m → has_name name known ≡ true
unfolding has_name
known_opens name m e = ground (arith, eq_iff name "Domain.module", eq_iff name "Mail.module")

load_module-terminates_example :
    (o : Outcome env) × (load_module env 3 "Domain.module" nothing ≡ some o)
load_module-terminates_example =
    load_module-terminates env known known_opens 3 "Domain.module" nothing (omega arith)

abbrev registered : ModuleDb ℕ
registered = record nothing {
  byclass = ("Domain", "Domain.module") ∷ [];
  byclassuuid = ("u-domain", "Domain.module") ∷ [];
  classlist = ("Domain", "Domain.module") ∷ [];
  byparent = ("ROOT", "Domain") ∷ [];
}

register_domain : register_classes env "Domain.module" (domain_class ∷ []) nothing ≡ inr registered
unfolding register_classes
register_domain = refl

register_classes-registers_example :
    All (IsOf env "Domain.module" registered) (domain_class ∷ []) × IsFrame nothing registered
register_classes-registers_example =
    register_classes-registers env "Domain.module" (domain_class ∷ []) nothing registered
      register_domain
