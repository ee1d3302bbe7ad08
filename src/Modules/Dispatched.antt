-- ===== src/Modules/Dispatched.antt =====
-- What the operations of ModuleDB come to, through CoreModule::action, for a module that wants to talk back.
use openpanel_opencore.Prelude.{
  ℕ, String, true, false, ◌==◌, ◌≡◌, refl, ap, ◌∙◌, none, some, Option-cases, inl, inr,
}
use openpanel_opencore.Sessions.{Session, Host}
use openpanel_opencore.Sessions.Store.{deref, has}
use openpanel_opencore.Sessions.Invariant.{IsIndexed}
use openpanel_opencore.Database.Access.{Backend, Manager}
use openpanel_opencore.Modules.Action.{
  ModuleCall, Module, Execute, World, id_text, action_with_session, action,
}
use openpanel_opencore.Modules.Claims.{claims}
use openpanel_opencore.Modules.Balance.{IsFair, action_with_session-balances}
use openpanel_opencore.Modules.Dispatch.{
  Values, Registry, Answer, session_key, find_module, create_object, update_object, delete_object,
  create_param, addressed, call_action, report, Outcome,
}

-- What grace's values keep of `OpenCORE:Session` under the other assignments.
pub record Laws {V : Type 0} (values : Values V) : Type 0 where
  pub find-empty : (outer inner : String) → values.find_in outer inner values.empty ≡ none
  pub find-put :
      (outer inner key text : String) (v : V)
      → (outer == key) ≡ false
      → values.find_in outer inner (values.put key text v) ≡ values.find_in outer inner v
  pub find-put_in :
      (outer inner other key text : String) (v : V)
      → (inner == key) ≡ false
      → values.find_in outer inner (values.put_in other key text v) ≡ values.find_in outer inner v
  pub find-put_value :
      (outer inner key : String) (x v : V)
      → (outer == key) ≡ false
      → values.find_in outer inner (values.put_value key x v) ≡ values.find_in outer inner v

module _ {V : Type 0} (host : Host V Manager) (b : Backend) (values : Values V)
    (registry : Registry V) (laws : Laws values) where
  -- The three operations on objects come to an answer, with the claims on the sessions as they were.
  abbrev pub IsAnswered : World host b → Outcome host b values registry → Type 0
  IsAnswered w x =
      (r : Answer V) × (after : World host b) × (x ≡ some (r, after))
      × IsIndexed host after
      × ((j : String) → claims j after ≡ claims j w)

  action-action_with_session :
      (execute : Execute host b) (now : ℕ) (uuid : String) (m : Module V) (call : ModuleCall V)
      (w : World host b)
      → (call.command == "listobjects") ≡ false
      → m.demo ≡ false
      → m.wantsrpc ≡ true
      → action host b execute now uuid m call w
        ≡ action_with_session host b execute now uuid m call w
  unfolding action
  action-action_with_session execute now uuid m call w c demo rpc = rw (action, c, demo, rpc) refl

  report-IsAnswered :
      (execute : Execute host b) (now : ℕ) (uuid command ofclass err sid : String) (outp : V)
      (m : Module V) (w : World host b) (d : Manager) (s : Session V Manager)
      → (command == "listobjects") ≡ false
      → values.find_in session_key "sessionid" outp ≡ some sid
      → m.demo ≡ false
      → m.wantsrpc ≡ true
      → IsFair host b execute
      → IsIndexed host w
      → host.open_db ≡ some d
      → has uuid w.sessions ≡ false
      → deref sid w.sessions ≡ some s
      → IsAnswered w (
          report host b values registry err
            (call_action host b values registry execute now uuid m command ofclass outp w))
  report-IsAnswered execute now uuid command ofclass err sid outp m w d s c e demo rpc fair v o h
        t =
      let call : ModuleCall V = record {
        command = command;
        classname = ofclass;
        session_id = values.find_in session_key "sessionid" outp;
        param = outp;
      } in
      let there : deref (id_text host b call.session_id) w.sessions ≡ some s = rw e t in
      let (r, after, x, order, same) =
        action_with_session-balances host b execute now uuid m call w d s fair v o h there in
      let y : action host b execute now uuid m call w ≡ some (r, after) =
        action-action_with_session execute now uuid m call w c demo rpc ∙ x in
      (_, after, ap (report host b values registry err) y, order, same)

  create_param_lem :
      (ofclass withid sid : String) (parm : V)
      → values.find_in session_key "sessionid" parm ≡ some sid
      → values.find_in session_key "sessionid"
          (create_param host b values registry ofclass withid parm)
        ≡ some sid
  create_param_lem ofclass withid sid parm e =
      let v = values.put "OpenCORE:Command" "create" parm in
      let u = values.put_in session_key "classid" ofclass v in
      let f : values.find_in session_key "sessionid" u ≡ some sid =
        laws.find-put_in session_key "sessionid" session_key "classid" ofclass v refl
        ∙ laws.find-put session_key "sessionid" "OpenCORE:Command" "create" parm refl
        ∙ e in
      elim (Option-cases (values.find_in session_key "objectid" u)) [
        | inl n ↦
            rw (create_param, n)
              (laws.find-put_in session_key "sessionid" session_key "objectid" withid u refl ∙ f)
        | inr (id, n) ↦ rw (create_param, n) f
      ]

  addressed_lem :
      (command ofclass withid sid : String) (parm : V)
      → values.find_in session_key "sessionid" parm ≡ some sid
      → values.find_in session_key "sessionid"
          (addressed host b values registry command ofclass withid parm)
        ≡ some sid
  addressed_lem command ofclass withid sid parm e =
      let v = values.put "OpenCORE:Command" command parm in
      laws.find-put_in session_key "sessionid" session_key "objectid" withid
        (values.put_in session_key "classid" ofclass v) refl
      ∙ laws.find-put_in session_key "sessionid" session_key "classid" ofclass v refl
      ∙ laws.find-put session_key "sessionid" "OpenCORE:Command" command parm refl
      ∙ e

  -- Where values are as grace documents them, the class has a module that wants to talk back and is no demo,
  -- the module's program keeps the sessions in order and gives back what it claims, the parameters name a
  -- session that is there, the new identifier is unused and its database opens: createObject, updateObject and
  -- deleteObject of ModuleDB each come to an answer, after which every session has the claims that it had
  -- before, and tree and list of the sessions still agree.
  pub create_object-IsAnswered :
      (execute : Execute host b) (now : ℕ) (uuid ofclass withid sid err : String) (parm : V)
      (m : Module V) (w : World host b) (d : Manager) (s : Session V Manager)
      → find_module host b values registry ofclass ≡ some m
      → values.find_in session_key "sessionid" parm ≡ some sid
      → m.demo ≡ false
      → m.wantsrpc ≡ true
      → IsFair host b execute
      → IsIndexed host w
      → host.open_db ≡ some d
      → has uuid w.sessions ≡ false
      → deref sid w.sessions ≡ some s
      → IsAnswered w
          (create_object host b values registry execute now uuid ofclass withid parm err w)
        × IsAnswered w
            (update_object host b values registry execute now uuid ofclass withid parm err w)
        × IsAnswered w
            (delete_object host b values registry execute now uuid ofclass withid parm err w)
  unfolding create_object update_object delete_object
  create_object-IsAnswered execute now uuid ofclass withid sid err parm m w d s f e demo rpc fair v
        o h t =
      (
        rw (create_object, f)
            (report-IsAnswered execute now uuid "create" ofclass err sid
              (create_param host b values registry ofclass withid parm) m w d s refl
              (create_param_lem ofclass withid sid parm e) demo rpc fair v o h t),
        rw (update_object, f)
            (report-IsAnswered execute now uuid "update" ofclass err sid
              (addressed host b values registry "update" ofclass withid parm) m w d s refl
              (addressed_lem "update" ofclass withid sid parm e) demo rpc fair v o h t),
        rw (delete_object, f)
            (report-IsAnswered execute now uuid "delete" ofclass err sid
              (addressed host b values registry "delete" ofclass withid parm) m w d s refl
              (addressed_lem "delete" ofclass withid sid parm e) demo rpc fair v o h t),
      )
