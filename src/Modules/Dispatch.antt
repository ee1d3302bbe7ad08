-- ===== src/Modules/Dispatch.antt =====
-- ModuleDB::createObject, makeCrypt, callMethod, setSpecialPhysicalQuota, updateObject, listDynamicObjects and
-- deleteObject of moduledb.cpp: the module of the class is looked up, and CoreModule::action is called. The
-- values of grace and the texts made of them are parameters; log and alerts are left out.
use openpanel_opencore.Prelude.{
  ℕ, String, Bool, not, Option, none, some, List, find_key, has_name, is_zero, if◌then◌else◌,
}
use openpanel_opencore.Sessions.{Host}
use openpanel_opencore.Database.Access.{Backend, Manager}
use openpanel_opencore.Modules.Action.{Module, Returned, Execute, World, action}

pub record Values (V : Type 0) : Type 0 where
  pub empty : V
  -- `v[key] = text`
  pub put : String → String → V → V
  -- `v[outer][inner] = text`
  pub put_in : String → String → String → V → V
  -- `v[key] = value`
  pub put_value : String → V → V → V
  -- `v[outer][inner]`, where it exists
  pub find_in : String → String → V → Option String
  -- `v -> $merge(param)`
  pub merge : V → V → V
  -- `v[key].sval()`
  pub text_at : String → V → String
  -- `v[key]`
  pub value_at : String → V → V
  -- `"%[error]i:%[message]s" %format (v["OpenCORE:Result"])`
  pub error_text : V → String
  -- the text of a number
  pub text : ℕ → String
  -- `tag.left (tag.strchr ('/'))`
  pub class_of_tag : String → String

-- `byclass` (the inner `none` is NULL), and what is read of a CoreClass.
pub record Registry (V : Type 0) : Type 0 where
  pub byclass : List (String × Option (Module V))
  pub methods : String → List String
  pub dynamic : String → Bool

-- The status, the text in `err`, and what is returned besides.
pub record Answer (V : Type 0) : Type 0 where
  pub status : ℕ
  pub err : String
  pub returned : V

-- status.h
abbrev pub status_failed : ℕ
status_failed = 1

abbrev pub result : {V : Type 0} → Returned V → ℕ
result r = r.0

abbrev pub data_of : {V : Type 0} → Returned V → V
data_of r = r.1

abbrev pub session_key : String
session_key = "OpenCORE:Session"

module _ {V : Type 0} (host : Host V Manager) (b : Backend) (values : Values V)
    (registry : Registry V) where
  -- The exit of action, if it gets there.
  abbrev pub Outcome : Type 0
  Outcome = Option (Answer V × World host b)

  abbrev pub fail : String → World host b → Outcome
  fail err w = some (record { status = status_failed; err = err; returned = values.empty }, w)

  -- `err` is written when the status is not status_ok.
  abbrev pub report : String → Option (Returned V × World host b) → Outcome
  report err none = none
  report err (some x) = some (
    record {
      status = result x.0;
      err = if is_zero (result x.0) then err else values.error_text (data_of x.0);
      returned = data_of x.0;
    },
    x.1,
  )

  -- `m->action (command, ofclass, outp, returnp)`
  abbrev pub call_action :
      Execute host b
      → ℕ
      → String
      → Module V
      → String
      → String
      → V
      → World host b
      → Option (Returned V × World host b)
  call_action execute now uuid m command ofclass outp w =
      action host b execute now uuid m
        (record {
          command = command;
          classname = ofclass;
          session_id = values.find_in session_key "sessionid" outp;
          param = outp;
        })
        w

  -- `byclass.exists (ofclass)`, `m = byclass[ofclass]` and `if (! m)`.
  unfoldable pub find_module : String → Option (Module V)
  unfolding find_key
  find_module ofclass = elim (find_key ofclass registry.byclass) [ none ↦ none | some m ↦ m ]

  abbrev pub addressed : String → String → String → V → V
  addressed command ofclass withid v =
      values.put_in session_key "objectid" withid
        (values.put_in session_key "classid" ofclass (values.put "OpenCORE:Command" command v))

  abbrev pub lookup_error : String → String
  lookup_error ofclass = elim (find_key ofclass registry.byclass) [
    | none ↦ "Class does not exist"
    | some m ↦ "Module for class not found"
  ]

  abbrev pub create_param : String → String → V → V
  create_param ofclass withid parm =
      let v =
        values.put_in session_key "classid" ofclass (values.put "OpenCORE:Command" "create" parm) in
      elim (values.find_in session_key "objectid" v) [
        | none ↦ values.put_in session_key "objectid" withid v
        | some id ↦ v
      ]

  -- ModuleDB::createObject
  unfoldable pub create_object :
      Execute host b → ℕ → String → String → String → V → String → World host b → Outcome
  unfolding find_module
  create_object execute now uuid ofclass withid parm err w = elim (find_module ofclass) [
    | none ↦ fail (lookup_error ofclass) w
    | some m ↦
        report err
          (call_action execute now uuid m "create" ofclass (create_param ofclass withid parm) w)
  ]

  abbrev pub crypt_param : String → String → String → V
  crypt_param ofclass fieldid plaintext = values.put fieldid plaintext (
      values.put_in "OpenCore:Session" "classid" ofclass
        (values.put "OpenCore:Command" "crypt" values.empty))

  -- ModuleDB::makeCrypt: the status, and `crypted`.
  unfoldable pub make_crypt :
      Execute host b
      → ℕ
      → String
      → String
      → String
      → String
      → String
      → World host b
      → Option ((ℕ × String) × World host b)
  unfolding find_module
  make_crypt execute now uuid ofclass fieldid plaintext crypted w = elim (find_module ofclass) [
    | none ↦ some ((status_failed, crypted), w)
    | some m ↦
        elim (call_action execute now uuid m "crypt" ofclass (crypt_param ofclass fieldid plaintext)
          w) [
            | none ↦ none
            | some x ↦ some (
              (
                result x.0,
                if is_zero (result x.0) then values.text_at fieldid (data_of x.0) else crypted,
              ),
              x.1,
            )
          ]
  ]

  abbrev pub method_param : String → String → String → String → V → V
  method_param parentid ofclass withid method param =
      values.merge
        (values.put_in session_key "method" method (
          values.put_in session_key "parentid" parentid (
            values.put_in session_key "id" withid (
              values.put_in session_key "classid" ofclass
                (values.put "OpenCORE:Command" "callmethod" values.empty)))))
        param

  -- ModuleDB::callMethod
  unfoldable pub call_method :
      Execute host b
      → ℕ
      → String
      → String
      → String
      → String
      → String
      → V
      → String
      → World host b
      → Outcome
  unfolding find_module
  call_method execute now uuid parentid ofclass withid method param err w =
      elim (find_module ofclass) [
        | none ↦ fail err w
        | some m ↦
            if not (has_name method (registry.methods ofclass))
            then fail err w
            else report err (
                call_action execute now uuid m "callmethod" ofclass
                  (method_param parentid ofclass withid method param) w)
      ]

  abbrev pub quota_param : V → V
  quota_param quota =
      values.put_value "quota" quota
        (values.put "OpenCORE:Command" "setspecialphysicalquota" values.empty)

  -- ModuleDB::setSpecialPhysicalQuota
  unfoldable pub set_special_physical_quota :
      Execute host b → ℕ → String → String → V → String → World host b → Outcome
  unfolding find_module
  set_special_physical_quota execute now uuid tag quota err w =
      elim (find_module (values.class_of_tag tag)) [
        | none ↦ fail err w
        | some m ↦
            report err
              (call_action execute now uuid m "setspecialphysicalquota" tag (quota_param quota) w)
      ]

  -- ModuleDB::updateObject
  unfoldable pub update_object :
      Execute host b → ℕ → String → String → String → V → String → World host b → Outcome
  unfolding find_module
  update_object execute now uuid ofclass withid parm err w = elim (find_module ofclass) [
    | none ↦ fail err w
    | some m ↦
        report err (
          call_action execute now uuid m "update" ofclass (addressed "update" ofclass withid parm)
            w)
  ]

  -- ModuleDB::deleteObject
  unfoldable pub delete_object :
      Execute host b → ℕ → String → String → String → V → String → World host b → Outcome
  unfolding find_module
  delete_object execute now uuid ofclass withid parm err w = elim (find_module ofclass) [
    | none ↦ fail err w
    | some m ↦
        report err (
          call_action execute now uuid m "delete" ofclass (addressed "delete" ofclass withid parm)
            w)
  ]

  abbrev pub list_param : String → String → String → ℕ → ℕ → V
  list_param parentid mparentid ofclass count offset =
      values.put_in session_key "offset" (values.text offset) (
        values.put_in session_key "count" (values.text count) (
          values.put_in session_key "classid" ofclass (
            values.put_in session_key "parentmetaid" mparentid (
              values.put_in session_key "parentid" parentid
                (values.put "OpenCORE:Command" "listobjects" values.empty)))))

  -- What listDynamicObjects makes of the answer: the objects, or NULL, and `err`.
  abbrev pub listed :
      Option (Returned V × World host b) → Option ((Option V × String) × World host b)
  listed none = none
  listed (some x) = some (
    if is_zero (result x.0)
        then (some (values.value_at "objects" (data_of x.0)), "")
        else (none, values.error_text (data_of x.0)),
    x.1,
  )

  -- ModuleDB::listDynamicObjects, which does not test the pointer to the module.
  unfoldable pub list_dynamic_objects :
      Execute host b
      → ℕ
      → String
      → String
      → String
      → String
      → String
      → ℕ
      → ℕ
      → World host b
      → Option ((Option V × String) × World host b)
  unfolding find_key
  list_dynamic_objects execute now uuid parentid mparentid ofclass err count offset w =
      elim (find_key ofclass registry.byclass) [
        | none ↦ some ((none, err), w)
        | some none ↦ if registry.dynamic ofclass then none else some ((none, err), w)
        | some (some m) ↦
            if registry.dynamic ofclass
            then listed (
                call_action execute now uuid m "listobjects" ofclass
                  (list_param parentid mparentid ofclass count offset) w)
            else some ((none, err), w)
      ]
