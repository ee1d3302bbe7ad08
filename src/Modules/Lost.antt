-- ===== src/Modules/Lost.antt =====
-- makeCrypt and setSpecialPhysicalQuota of ModuleDB, through CoreModule::action, for a module that wants to talk back.
use openpanel_opencore.Prelude.{ℕ, String, true, false, ◌==◌, ◌≡◌, refl, ◌∙◌, none, some}
use openpanel_opencore.Sessions.{Host, get, create}
use openpanel_opencore.Sessions.Store.{has, has-append, deref-has}
use openpanel_opencore.Sessions.Invariant.{IsIndexed, create-IsIndexed}
use openpanel_opencore.Sessions.Usage.{get_lem, create_new}
use openpanel_opencore.Database.Access.{Backend, Manager}
use openpanel_opencore.Modules.Action.{
  ModuleCall, Module, Execute, World, id_text, action_with_session, action,
}
use openpanel_opencore.Modules.Dispatch.{
  Values, Registry, session_key, find_module, make_crypt, set_special_physical_quota, crypt_param,
  quota_param,
}
use openpanel_opencore.Modules.Dispatched.{Laws}

module _ {V : Type 0} (host : Host V Manager) (b : Backend) (values : Values V)
    (registry : Registry V) (laws : Laws values) where
  crypt_param_lem :
      (ofclass fieldid plaintext : String)
      → (session_key == fieldid) ≡ false
      → values.find_in session_key "sessionid"
          (crypt_param host b values registry ofclass fieldid plaintext)
        ≡ none
  crypt_param_lem ofclass fieldid plaintext e =
      let v = values.put "OpenCore:Command" "crypt" values.empty in
      laws.find-put session_key "sessionid" fieldid plaintext
        (values.put_in "OpenCore:Session" "classid" ofclass v) e
      ∙ laws.find-put_in session_key "sessionid" "OpenCore:Session" "classid" ofclass v refl
      ∙ laws.find-put session_key "sessionid" "OpenCore:Command" "crypt" values.empty refl
      ∙ laws.find-empty session_key "sessionid"

  quota_param_lem :
      (quota : V)
      → values.find_in session_key "sessionid" (quota_param host b values registry quota) ≡ none
  quota_param_lem quota =
      laws.find-put_value session_key "sessionid" "quota" quota
        (values.put "OpenCORE:Command" "setspecialphysicalquota" values.empty) refl
      ∙ laws.find-put session_key "sessionid" "OpenCORE:Command" "setspecialphysicalquota"
          values.empty refl
      ∙ laws.find-empty session_key "sessionid"

  -- Where no session has the empty identifier, action with a call without session goes through a null pointer.
  action_with_session-lost :
      (execute : Execute host b) (now : ℕ) (uuid : String) (m : Module V) (call : ModuleCall V)
      (w : World host b) (d : Manager)
      → IsIndexed host w
      → host.open_db ≡ some d
      → has uuid w.sessions ≡ false
      → has "" w.sessions ≡ false
      → (uuid == "") ≡ false
      → call.session_id ≡ none
      → action_with_session host b execute now uuid m call w ≡ none
  unfolding action_with_session
  action_with_session-lost execute now uuid m call w d v o h k n e =
      let (a, c) = create_new host now uuid m.meta d w v o h in
      let made = (create host now uuid m.meta w).1 in
      let v1 = create-IsIndexed host now uuid m.meta w v in
      let f : has "" made.sessions ≡ false = rw (c, has-append "" w.sessions, k, n) refl in
      let id = id_text host b call.session_id in
      let same : id ≡ "" = rw e refl in
      let (x, y) = get_lem host id "" made v1 in
      let g : (get host id made).0 ≡ none = rw (x, same, deref-has "" made.sessions f) refl in
      rw (a, g, action_with_session) refl

  -- Where values are as grace documents them, the sessions' tree and list agree, the module's session can be
  -- made under an unused identifier, and neither a session nor the new identifier is empty: for a class whose
  -- module wants to talk back and is no demo, makeCrypt of a field that is not called OpenCORE:Session and
  -- setSpecialPhysicalQuota never come to an answer: they give action no session, and action uses the null
  -- pointer that it finds for it.
  pub make_crypt_lost :
      (execute : Execute host b) (now : ℕ) (uuid ofclass fieldid plaintext crypted tag err : String)
      (quota : V) (m : Module V) (w : World host b) (d : Manager)
      → (session_key == fieldid) ≡ false
      → values.class_of_tag tag ≡ ofclass
      → find_module host b values registry ofclass ≡ some m
      → m.demo ≡ false
      → m.wantsrpc ≡ true
      → IsIndexed host w
      → host.open_db ≡ some d
      → has uuid w.sessions ≡ false
      → has "" w.sessions ≡ false
      → (uuid == "") ≡ false
      → (make_crypt host b values registry execute now uuid ofclass fieldid plaintext crypted w
          ≡ none)
        × (set_special_physical_quota host b values registry execute now uuid tag quota err w
            ≡ none)
  unfolding make_crypt set_special_physical_quota action
  make_crypt_lost execute now uuid ofclass fieldid plaintext crypted tag err quota m w d e c f demo
        rpc v o h k n =
      let x =
        action_with_session-lost execute now uuid m
          (record {
            command = "crypt";
            classname = ofclass;
            session_id =
                values.find_in session_key "sessionid"
                  (crypt_param host b values registry ofclass fieldid plaintext);
            param = crypt_param host b values registry ofclass fieldid plaintext;
          })
          w d v o h k n (crypt_param_lem ofclass fieldid plaintext e) in
      let y =
        action_with_session-lost execute now uuid m
          (record {
            command = "setspecialphysicalquota";
            classname = tag;
            session_id =
                values.find_in session_key "sessionid" (quota_param host b values registry quota);
            param = quota_param host b values registry quota;
          })
          w d v o h k n (quota_param_lem quota) in
      let g : find_module host b values registry (values.class_of_tag tag) ≡ some m = rw c f in
      (
        rw (make_crypt, f, action, demo, rpc, x) refl,
        rw (set_special_physical_quota, g, action, demo, rpc, y) refl,
      )
