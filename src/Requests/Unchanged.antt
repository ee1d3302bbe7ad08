-- ===== src/Requests/Unchanged.antt =====
-- What the requests need of a database that takes a creation back, and the searches that change nothing.
use openpanel_opencore.Prelude.{
  String, Bool, ◌≡◌, ◌≢◌, true, false, ◌==◌, some, List, [], ◌∷◌, Bool-cases, Option-cases, inl,
  inr,
}
use openpanel_opencore.Requests.Services.{Core, Param, Values, Store, Modules}
use openpanel_opencore.Requests.Crypts.{
  find_either, old_crypt, new_crypt, crypt_fields, handle_crypts,
}

-- The calls of the database and the modules that a request has made since `s`. First, searches and the
-- encryption of passwords.
pub data Searched {S V W : Type 0} (store : Store S V) (mods : Modules S V W) (s : S)
    : S → Type 0 where
  at_once : Searched store mods s s
  after_find :
      {t : S} (parent class uuid metaid : String)
      → Searched store mods s t
      → Searched store mods s (store.find_object parent class uuid metaid t).1
  after_fetch :
      {t : S} (uuid : String) (m : Bool)
      → Searched store mods s t
      → Searched store mods s (store.fetch_object uuid m t).1
  after_crypt :
      {t : S} (class fid text : String) (w : W)
      → Searched store mods s t
      → Searched store mods s (mods.make_crypt class fid text (t, w)).1.0

-- Then createObject with the answer `u`, chown of `u` and the fetch of `u`, each with success.
pub data Stored {S V W : Type 0} (store : Store S V) (mods : Modules S V W) (s : S) (u : String)
    : S → Type 0 where
  after_create :
      {t : S} (parent class metaid : String) (v : V)
      → Searched store mods s t
      → (store.create_object parent v class metaid false t).0 ≡ u
      → u ≢ ""
      → Stored store mods s u (store.create_object parent v class metaid false t).1
  after_search :
      {t : S} (parent class uuid metaid : String)
      → Stored store mods s u t
      → Stored store mods s u (store.find_object parent class uuid metaid t).1
  after_chown :
      {t : S} (owner : String)
      → Stored store mods s u t
      → (store.chown u owner t).0 ≡ true
      → Stored store mods s u (store.chown u owner t).1
  after_read :
      {t : S} (v : V)
      → Stored store mods s u t
      → (store.fetch_object u true t).0 ≡ some v
      → Stored store mods s u (store.fetch_object u true t).1

module _ {S V W : Type 0} (x : Values V) (store : Store S V) (mods : Modules S V W) where
  abbrev pub Same : S → S → Type 0
  Same s t = Searched store mods s t

  pub find_either-Same :
      (parentid ofclass withid : String) (s s' : S)
      → Same s s'
      → Same s (find_either x store mods parentid ofclass withid s').1
  unfolding find_either
  find_either-Same parentid ofclass withid s s' h =
      let first = after_find parentid ofclass withid "" h in
      elim (Bool-cases ((store.find_object parentid ofclass withid "" s').0 == "")) [
        | inl e ↦ rw (e, find_either) (after_find parentid ofclass "" withid first)
        | inr e ↦ rw (e, find_either) first
      ]

  old_crypt-Same :
      (parentid ofclass withid fid : String) (param : V) (s : S) (c : Core S W)
      → Same s c.db
      → Same s (old_crypt x store mods parentid ofclass withid fid param c).1.db
  unfolding old_crypt
  old_crypt-Same parentid ofclass withid fid param s c h =
      let found = find_either-Same parentid ofclass withid s c.db h in
      elim (Bool-cases ((find_either x store mods parentid ofclass withid c.db).0 == "")) [
        | inl e ↦ rw (e, old_crypt) found
        | inr e ↦ rw (e, old_crypt) (after_fetch _ false found)
      ]

  new_crypt-Same :
      (ofclass fid type : String) (param : V) (s : S) (c : Core S W)
      → Same s c.db
      → Same s (new_crypt x store mods ofclass fid type param c).1.db
  unfolding new_crypt
  new_crypt-Same ofclass fid type param s c h = elim (Bool-cases (type == "extern")) [
    | inr f ↦ elim (Bool-cases (type == "md5")) [
      | inl e ↦ rw (f, e, new_crypt) h
      | inr e ↦ rw (f, e, new_crypt) h
    ]
    | inl f ↦
        let other = after_crypt ofclass fid (x.get param fid) c.modules h in
        elim (Option-cases (mods.make_crypt ofclass fid (x.get param fid) (c.db, c.modules)).0) [
          | inl e ↦ rw (f, e, new_crypt) other
          | inr (t, e) ↦ rw (f, e, new_crypt) other
        ]
  ]

  crypt_fields-Same :
      (parentid ofclass withid : String) (ps : List Param) (param : V) (s : S) (c : Core S W)
      → Same s c.db
      → Same s (crypt_fields x store mods parentid ofclass withid ps param c).1.db
  unfolding crypt_fields
  crypt_fields-Same parentid ofclass withid [] param s c h = h
  crypt_fields-Same parentid ofclass withid (p ∷ rest) param s c h =
      let skip = crypt_fields-Same parentid ofclass withid rest param s c h in
      let old = old_crypt-Same parentid ofclass withid p.id param s c h in
      elim (Option-cases p.crypt) [
        | inl e ↦ rw (e, crypt_fields) skip
        | inr (type, e) ↦
            let new : Same s (new_crypt x store mods ofclass p.id type param c).1.db =
              new_crypt-Same ofclass p.id type param s c h in
            elim (Bool-cases p.enabled) [
              | inr f ↦ rw (e, f, crypt_fields) skip
              | inl f ↦ elim (Bool-cases (x.get param p.id == "")) [
                | inl g ↦
                    elim (Option-cases
                      (old_crypt x store mods parentid ofclass withid p.id param c).0) [
                        | inl i ↦ rw (e, f, g, i, crypt_fields) old
                        | inr (v, i) ↦
                            rw (e, f, g, i, crypt_fields)
                              (crypt_fields-Same parentid ofclass withid rest v s _ old)
                      ]
                | inr g ↦ elim (Option-cases (x.precrypted (x.get param p.id))) [
                  | inr (text, i) ↦ rw (e, f, g, i, crypt_fields) h
                  | inl i ↦
                      elim (Option-cases (new_crypt x store mods ofclass p.id type param c).0) [
                        | inl j ↦ rw (e, f, g, i, j, crypt_fields) new
                        | inr (v, j) ↦
                            rw (e, f, g, i, j, crypt_fields)
                              (crypt_fields-Same parentid ofclass withid rest v s _ new)
                      ]
                ]
              ]
            ]
      ]

  pub handle_crypts-Same :
      (parentid ofclass withid : String) (param : V) (s : S) (c : Core S W)
      → Same s c.db
      → Same s (handle_crypts x store mods parentid ofclass withid param c).1.db
  unfolding handle_crypts
  handle_crypts-Same parentid ofclass withid param s c h =
      elim (Option-cases (mods.get_class ofclass)) [
        | inl e ↦ rw (e, handle_crypts) h
        | inr (cl, e) ↦
            rw (e, handle_crypts) (crypt_fields-Same parentid ofclass withid cl.params param s c h)
      ]
