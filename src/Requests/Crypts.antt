-- ===== src/Requests/Crypts.antt =====
-- CoreSession::handleCrypts of session.cpp.
use openpanel_opencore.Prelude.{
  String, false, not, ◌==◌, Option, none, some, List, [], ◌∷◌, if◌then◌else◌,
}
use openpanel_opencore.Requests.Services.{
  Core, Param, Values, Store, Modules, on_db, on_modules, refuse, err_crypt, err_crypt_orig,
}

module _ {S V W : Type 0} (x : Values V) (store : Store S V) (mods : Modules S V W) where
  -- The search that the handlers do: by uuid, and if that finds nothing, by metaid.
  unfoldable pub find_either : String → String → String → S → String × S
  find_either parentid ofclass withid s =
      let (uuid, s') = store.find_object parentid ofclass withid "" s in
      let other = store.find_object parentid ofclass "" withid s' in
      if uuid == "" then other else (uuid, s')

  -- The field is not filled in: the value of the object that is there.
  unfoldable pub old_crypt : String → String → String → String → V → Core S W → Option V × Core S W
  unfolding find_either
  old_crypt parentid ofclass withid fid param c =
      let (uuid, c') = on_db (find_either parentid ofclass withid) c in
      let (object, c'') = on_db (store.fetch_object uuid false) c' in
      if uuid == ""
      then refuse err_crypt_orig none c'
      else (some (x.set fid (elim object [ none ↦ "" | some o ↦ x.head_get o fid ]) param), c'')

  -- The field is filled in with a text that is not crypted.
  unfoldable pub new_crypt : String → String → String → V → Core S W → Option V × Core S W
  new_crypt ofclass fid type param c =
      if type == "extern"
      then (let (crypted, c') = on_modules (mods.make_crypt ofclass fid (x.get param fid)) c in
          elim crypted [
            | none ↦ refuse err_crypt none c'
            | some text ↦ (some (x.set fid text param), c')
          ])
      else if type == "md5"
      then (some (x.set fid (x.md5 (x.get param fid)) param), c)
      else (none, c)

  -- The loop over the parameters of the class. A pre-crypted password ends it: `break`.
  unfoldable pub crypt_fields :
      String → String → String → List Param → V → Core S W → Option V × Core S W
  unfolding old_crypt new_crypt
  crypt_fields parentid ofclass withid [] param c = (some param, c)
  crypt_fields parentid ofclass withid (p ∷ rest) param c =
      let skip = crypt_fields parentid ofclass withid rest param c in
      let old = old_crypt parentid ofclass withid p.id param c in
      let next = λ (v : V) (c' : Core S W). crypt_fields parentid ofclass withid rest v c' in
      elim p.crypt [
        | none ↦ skip
        | some type ↦
            let new = new_crypt ofclass p.id type param c in
            if not p.enabled
            then skip
            else if x.get param p.id == ""
            then elim old.0 [ none ↦ (none, old.1) | some v ↦ next v old.1 ]
            else elim (x.precrypted (x.get param p.id)) [
              | some text ↦ (some (x.set p.id text param), c)
              | none ↦ elim new.0 [ none ↦ (none, new.1) | some v ↦ next v new.1 ]
            ]
      ]

  -- CoreSession::handleCrypts
  unfoldable pub handle_crypts : String → String → String → V → Core S W → Option V × Core S W
  unfolding crypt_fields
  handle_crypts parentid ofclass withid param c = elim (mods.get_class ofclass) [
    | none ↦ (none, c)
    | some cl ↦ crypt_fields parentid ofclass withid cl.params param c
  ]
