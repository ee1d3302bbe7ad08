-- ===== src/Requests/Services.antt =====
-- What CoreSession calls: its DBManager, the ModuleDB, the classes, and the values of the grace library.
-- The handlers take them as a parameter.
use openpanel_opencore.Prelude.{ℕ, String, Bool, Option, List, ◌≡◌, refl, ◌⊎◌, inl, inr}

-- status.h
pub data Status : Type 0 where
  status_ok : Status
  status_failed : Status
  status_postponed : Status

pub Status-cases : (s : Status) → (s ≡ status_ok) ⊎ ((s ≡ status_failed) ⊎ (s ≡ status_postponed))
Status-cases status_ok = inl refl
Status-cases status_failed = inr (inl refl)
Status-cases status_postponed = inr (inr refl)

-- error.h
abbrev pub err_action_failed : ℕ
err_action_failed = 0x1002

abbrev pub err_object_not_found : ℕ
err_object_not_found = 0x3001

abbrev pub err_class_unknown : ℕ
err_class_unknown = 0x3002

abbrev pub err_crypt : ℕ
err_crypt = 0x3003

abbrev pub err_crypt_orig : ℕ
err_crypt_orig = 0x3004

abbrev pub err_index : ℕ
err_index = 0x3005

abbrev pub err_validation : ℕ
err_validation = 0x3006

abbrev pub err_noindex : ℕ
err_noindex = 0x3007

abbrev pub err_notallowed : ℕ
err_notallowed = 0x3008

abbrev pub err_chown : ℕ
err_chown = 0x3009

abbrev pub err_parentrealm : ℕ
err_parentrealm = 0x300a

abbrev pub err_createproto : ℕ
err_createproto = 0x300b

abbrev pub err_iclass : ℕ
err_iclass = 0x8000

-- A parameter of a class, as handleCrypts reads it: its crypt attribute, if it is enabled and has one.
pub record Param : Type 0 where
  pub id : String
  pub enabled : Bool
  pub crypt : Option String

-- The part of a CoreClass that the handlers read.
pub record Class (V : Type 0) : Type 0 where
  pub singleton : String
  pub manualindex : Bool
  pub parentrealm : String
  pub hasprototype : Bool
  pub requires : String
  pub dynamic : Bool
  pub cascades : Bool
  pub params : List Param
  pub normalize : V → Option V

-- The state of a CoreSession: its database, the modules that it shares, and the code of `errors`.
pub record Core (S W : Type 0) : Type 0 where
  pub db : S
  pub modules : W
  pub error : ℕ

-- The values of grace: `exists`, `[]`, an assignment, `rmval`, `<<`, and the texts that they hold.
pub record Values (V : Type 0) : Type 0 where
  pub empty : V
  pub exists : V → String → Bool
  pub get : V → String → String
  pub set : String → String → V → V
  pub rmval : String → V → V
  pub merge : V → V → V
  pub member : String → V → V
  -- `value[0]["metaid"]`, `value[0].id()` and `value[0][...]`
  pub metaid : V → String
  pub head_id : V → String
  pub head_get : V → String → String
  -- `value[class][...]`
  pub class_get : V → String → String → String
  -- OpenCORE:Context and OpenCORE:Session, for the context, the class and the object's id
  pub context : String → String → String → V
  pub contains_prototype : String → Bool
  pub codes : String → List ℕ
  pub text : List ℕ → String
  -- what stands behind the header of a pre-crypted password
  pub precrypted : String → Option String
  -- md5pw with the salt that `rand` gives
  pub md5 : String → String

-- DBManager. The empty text is "none".
pub record Store (S V : Type 0) : Type 0 where
  pub find_object : String → String → String → String → S → String × S
  pub fetch_object : String → Bool → S → Option V × S
  pub create_object : String → V → String → String → Bool → S → String × S
  pub update_object : V → String → Bool → S → Bool × S
  pub delete_object : String → Bool → Bool → S → Bool × S
  pub list_tree : String → S → Option (List String) × S
  pub chown : String → String → S → Bool × S
  pub report_success : String → S → Bool × S
  pub report_create_failure : String → S → Bool × S
  pub report_update_failure : String → S → Bool × S
  pub report_delete_failure : String → S → Bool × S
  pub last_error : S → ℕ

-- ModuleDB, the internal classes, and the listing of the objects that modules hold (syncDynamicObjects). A
-- module that talks back changes the database, too.
pub record Modules (S V W : Type 0) : Type 0 where
  pub is_internal : String → Bool
  pub internal_create : String → String → V → String → Core S W → Option String × Core S W
  pub internal_update : String → String → String → V → Core S W → Bool × Core S W
  pub internal_delete : String → String → String → Core S W → Bool × Core S W
  pub get_class : String → Option (Class V)
  pub create_object : String → String → V → S × W → Status × (S × W)
  pub delete_object : String → String → V → S × W → Status × (S × W)
  pub update_object : String → String → V → S × W → Status × (S × W)
  pub make_crypt : String → String → String → S × W → Option String × (S × W)
  pub sync_dynamic : String → String → String → Core S W → V × Core S W
  -- the classes that a `requires` stands for
  pub get_classes : String → List String
  pub fresh_uuid : String

-- A call of the database, and of the modules.
abbrev pub on_db {ℓ} : {A : Type ℓ} {S W : Type 0} → (S → A × S) → Core S W → A × Core S W
on_db f c = let (a, s) = f c.db in (a, record c { db = s })

abbrev pub on_modules {ℓ} :
    {A : Type ℓ} {S W : Type 0} → (S × W → A × (S × W)) → Core S W → A × Core S W
on_modules f c = let (a, (s, w)) = f (c.db, c.modules) in (a, record c { db = s; modules = w })

-- setError, and the result of a handler that gives up.
abbrev pub refuse {ℓ} : {A : Type ℓ} {S W : Type 0} → ℕ → A → Core S W → A × Core S W
refuse code a c = (a, record c { error = code })
