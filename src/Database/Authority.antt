-- ===== src/Database/Authority.antt =====
-- haspower after any history of createObject calls by users who are logged in.
use openpanel_opencore.Prelude.{
  ℕ, String, ◌≡◌, ◌≢◌, subst, true, false, ◌==◌, Option, some, arith, eqb, Bool-cases, ◌⊎◌, inl,
  inr, ◌↔◌,
}
use openpanel_opencore.Database.Tables.{Object, Tables, by_id, mirrored, has_power}
use openpanel_opencore.Database.Access.{Backend, Manager}
use openpanel_opencore.Database.Create.{Request, create_object}
use openpanel_opencore.Database.Powers.{IsMirror, Above, self, mirrored-Above}
use openpanel_opencore.Database.Mirror.{LoggedIn, create_object-IsMirror}

-- One table comes from another by calls of createObject, each by a session whose user is logged in
-- and not immediate, a new user having no parent. Calls that fail are among them.
pub data Made (b : Backend) (fuel : ℕ) (t : Tables) : Tables → Type 0 where
  start : Made b fuel t t
  call :
      {m : Manager} (uuid : String) (r : Request) (res : Option String) (m' : Manager)
      → Made b fuel t m.tables
      → LoggedIn b m
      → r.immediate ≡ false
      → ((r.ofclass == "User") ≡ true → r.parent ≡ "")
      → create_object b fuel uuid r m ≡ some (res, m')
      → Made b fuel t m'.tables

pub Made-IsMirror :
    (b : Backend) (fuel : ℕ) (t : Tables)
    → IsMirror t
    → {t' : Tables} → Made b fuel t t'
    → IsMirror t'
Made-IsMirror b fuel t h start = h
Made-IsMirror b fuel t h (call {m = m} uuid r res m' made l n w e) =
    rw e at (create_object-IsMirror b fuel uuid r m (Made-IsMirror b fuel t h made) l n w)

has_power-Above :
    (oid uid : ℕ) (t : Tables) (o : Object)
    → IsMirror t
    → by_id oid t.objects ≡ some o
    → o.owner ≢ 0
    → uid ≢ 0
    → has_power oid uid t ≡ true
    → (oid ≡ uid) ⊎ Above t.objects o.owner uid
unfolding has_power
has_power-Above oid uid t o h e k l p = elim (Bool-cases (eqb oid uid)) [
  | inl same ↦ inl (ground arith)
  | inr other ↦ elim (Bool-cases (eqb o.owner uid)) [
    | inl own ↦ inr (subst (Above t.objects o.owner) (ground arith) (self o.owner))
    | inr no_own ↦ inr (h.sound o.owner uid (ground arith) k l)
  ]
]

Above-has_power :
    (oid uid : ℕ) (t : Tables) (o : Object)
    → IsMirror t
    → by_id oid t.objects ≡ some o
    → mirrored o.owner o.owner t.powermirror ≡ true
    → (oid ≡ uid) ⊎ Above t.objects o.owner uid
    → has_power oid uid t ≡ true
unfolding has_power
Above-has_power oid uid t o h e u (inl same) = ground arith
Above-has_power oid uid t o h e u (inr a) = ground (arith, mirrored-Above t h u a)

-- After any history of createObject calls by logged-in users, from tables whose mirror answers as the
-- owners do: `haspower` says yes for an object that a user owns exactly where the two ids are one or
-- the asking user stands in the chain of owners above the object.
pub has_power_iff :
    (b : Backend) (fuel : ℕ) (t t' : Tables) (oid uid : ℕ) (o : Object)
    → IsMirror t
    → Made b fuel t t'
    → by_id oid t'.objects ≡ some o
    → mirrored o.owner o.owner t'.powermirror ≡ true
    → o.owner ≢ 0
    → uid ≢ 0
    → (has_power oid uid t' ≡ true) ↔ ((oid ≡ uid) ⊎ Above t'.objects o.owner uid)
has_power_iff b fuel t t' oid uid o h made e u k l =
    let h' = Made-IsMirror b fuel t h made in
    (has_power-Above oid uid t' o h' e k l, Above-has_power oid uid t' o h' e u)
