-- ===== src/Database/Login.antt =====
-- Who a DBManager works for: login, userLogin, logout, getCredentials and setCredentials of dbmanager.cpp.
use openpanel_opencore.Prelude.{
  ℕ, String, Bool, true, false, not, ◌&&◌, ◌==◌, ◌≡◌, ◌≢◌, refl, Option, none, some, List, [], ◌∷◌,
  arith, eq_iff, eqb, is_zero, find_key, Bool-cases, Option-cases, ◌⊎◌, inl, inr, if◌then◌else◌,
}
use openpanel_opencore.Database.Tables.{Object, Tables, find_local_id}
use openpanel_opencore.Database.Access.{
  Backend, Manager, err_loginfail, is_metaid, find_class_id, first_match,
}

-- What getCredentials writes.
pub record Credentials : Type 0 where
  pub userid : ℕ
  pub useruuid : Option String

module _ (b : Backend) where
  -- SELECT ... FROM objects WHERE metaid=... AND class=...
  unfoldable pub user_row : String → Tables → Option Object
  unfolding first_match find_class_id
  user_row username t =
      let class = find_class_id b "User" t in
      first_match b (λ o. eqb o.class class && is_metaid b username o.metaid) t.objects

  abbrev pub refuse_login : Manager → Manager
  refuse_login m = record m { errorcode = err_loginfail }

  abbrev pub text_of : Option String → String
  text_of none = ""
  text_of (some s) = s

  -- `members["password"]` of a row
  unfoldable pub password_of : Object → String
  unfolding find_key
  password_of o = text_of (find_key "password" (b.fromxml o.content))

  -- DBManager::login, where `md5pw` is the hash of a password with the salt of a stored one
  unfoldable pub login : (String → String → String) → String → String → Manager → Bool × Manager
  unfolding user_row password_of
  login md5pw username password m =
      let out = record m { useruuid = "" } in
      elim (user_row username m.tables) [
        | none ↦ (false, refuse_login out)
        | some o ↦
            if password_of o == md5pw password (password_of o) && not (o.uuid == "")
            then (true, record m { useruuid = o.uuid })
            else (false, refuse_login out)
      ]

  -- DBManager::userLogin
  unfoldable pub user_login : String → Manager → Bool × Manager
  unfolding user_row
  user_login username m = elim (user_row username m.tables) [
    | none ↦ (false, refuse_login m)
    | some o ↦
        if is_zero o.id then (false, refuse_login m) else (true, record m { useruuid = o.uuid })
  ]

  -- DBManager::logout
  unfoldable pub logout : Manager → Manager
  logout m = record m { useruuid = "" }

  -- DBManager::getCredentials
  unfoldable pub get_credentials : Manager → Credentials
  unfolding find_local_id
  get_credentials m = record {
    userid = find_local_id m.useruuid m.tables.objects;
    useruuid = some m.useruuid;
  }

  -- DBManager::setCredentials. Where the credentials name no uuid, the test `!count > 0` takes the row only
  -- if there is none, so that the uuid is empty in both branches.
  unfoldable pub set_credentials : Credentials → Manager → Manager
  set_credentials creds m = elim creds.useruuid [
    | some uuid ↦ record m { useruuid = uuid }
    | none ↦ record m { useruuid = "" }
  ]

  -- The user of a session is a row of class User with this name.
  pub record IsUser (username : String) (m : Manager) (o : Object) : Type 0 where
    pub row : user_row username m.tables ≡ some o
    pub class : o.class ≡ find_class_id b "User" m.tables
    pub name : is_metaid b username o.metaid ≡ true

  first_match_lem :
      (test : Object → Bool) (xs : List Object) (o : Object)
      → first_match b test xs ≡ some o
      → test o ≡ true
  unfolding first_match
  first_match_lem test [] o e = cc
  first_match_lem test (x ∷ xs) o e = elim (Bool-cases (test x)) [
    | inl f ↦ let k : o ≡ x = ground arith in rw k f
    | inr f ↦ first_match_lem test xs o (ground arith)
  ]

  user_row-IsUser :
      (username : String) (m : Manager) (o : Object)
      → user_row username m.tables ≡ some o
      → IsUser username m o
  unfolding user_row
  user_row-IsUser username m o e =
      let class = find_class_id b "User" m.tables in
      let k =
        first_match_lem (λ o. eqb o.class class && is_metaid b username o.metaid) m.tables.objects o
          e in
      record { row = e; class = ground (arith, k); name = ground (arith, k) }

  -- login sets the session's user exactly where it succeeds: then the first row of class User with this name
  -- has a uuid and a password that is its own hash with the given one, and the uuid becomes the user's. Where
  -- it fails, no user is logged in any more and the error is the one for a failed login.
  pub login-authenticates :
      (md5pw : String → String → String) (username password : String) (m : Manager)
      → (((login md5pw username password m).0 ≡ true)
          × ((o : Object) × IsUser username m o
              × (o.uuid ≢ "")
              × (password_of o ≡ md5pw password (password_of o))
              × ((login md5pw username password m).1 ≡ record m { useruuid = o.uuid })))
        ⊎ (((login md5pw username password m).0 ≡ false)
            × ((login md5pw username password m).1
                ≡ record m { useruuid = ""; errorcode = err_loginfail }))
  unfolding login
  login-authenticates md5pw username password m = elim (Option-cases (user_row username m.tables)) [
    | inl e ↦ inr (rw (e, login) refl, rw (e, login) refl)
    | inr (o, e) ↦
        elim (Bool-cases (password_of o == md5pw password (password_of o) && not (o.uuid == ""))) [
          | inl f ↦ inl (
            rw (e, f, login) refl,
            (
              o,
              user_row-IsUser username m o e,
              grind (arith, eq_iff o.uuid ""),
              grind (arith, eq_iff (password_of o) (md5pw password (password_of o))),
              rw (e, f, login) refl,
            ),
          )
          | inr f ↦ inr (rw (e, f, login) refl, rw (e, f, login) refl)
        ]
  ]

  -- setCredentials with the credentials of a session gives another session its user, and changes nothing
  -- else.
  pub set-get_credentials :
      (m n : Manager) → set_credentials (get_credentials m) n ≡ record n { useruuid = m.useruuid }
  unfolding set_credentials get_credentials
  set-get_credentials m n = refl
