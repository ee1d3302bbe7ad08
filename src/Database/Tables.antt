-- ===== src/Database/Tables.antt =====
-- The tables of sqlite/SCHEMA as lists of rows in the order of their ids, and the queries that the
-- methods of DBManager share. A query is the filter that its WHERE clause writes, and `rows[0]` of no
-- row reads as 0 or the empty text. The engine is taken to answer every query; INSERT is refused only
-- by a UNIQUE constraint. Error codes are kept, the texts of messages are not.
use openpanel_opencore.Prelude.{
  ℕ, String, Bool, true, false, ◌&&◌, ◌||◌, ◌==◌, Option, none, some, List, [], ◌∷◌, eqb,
  if◌then◌else◌,
}

-- A NULL metaid is `none`. The content of a deleted object is the empty text.
pub record Object : Type 0 where
  pub id : ℕ
  pub uuid : String
  pub metaid : Option String
  pub parent : ℕ
  pub owner : ℕ
  pub uniquecontext : Option ℕ
  pub class : ℕ
  pub content : String

pub record Power : Type 0 where
  pub userid : ℕ
  pub powerid : ℕ

-- `quota` is the integer that the source stores; `none` is its -1, no limit.
pub record ClassQuota : Type 0 where
  pub userid : ℕ
  pub classid : ℕ
  pub quota : Option ℕ

-- `next_id` is what AUTOINCREMENT gives to the next object.
pub record Tables : Type 0 where
  pub objects : List Object
  pub powermirror : List Power
  pub classquota : List ClassQuota
  pub next_id : ℕ

-- SELECT ... FROM objects WHERE id=...
unfoldable pub by_id : ℕ → List Object → Option Object
by_id id [] = none
by_id id (o ∷ rest) = if eqb o.id id then some o else by_id id rest

-- SELECT ... FROM objects WHERE uuid=...
unfoldable pub by_uuid : String → List Object → Option Object
by_uuid uuid [] = none
by_uuid uuid (o ∷ rest) = if o.uuid == uuid then some o else by_uuid uuid rest

abbrev pub id_of : Option Object → ℕ
id_of none = 0
id_of (some o) = o.id

abbrev pub owner_of : Option Object → ℕ
owner_of none = 0
owner_of (some o) = o.owner

abbrev pub content_of : Option Object → String
content_of none = ""
content_of (some o) = o.content

abbrev pub is_some {ℓ} : {A : Type ℓ} → Option A → Bool
is_some none = false
is_some (some a) = true

-- DBManager::findlocalid
unfoldable pub find_local_id : String → List Object → ℕ
unfolding by_uuid
find_local_id uuid objects = if uuid == "" then 0 else id_of (by_uuid uuid objects)

-- SELECT userid, powerid FROM powermirror WHERE userid=... AND powerid=...
unfoldable pub mirrored : ℕ → ℕ → List Power → Bool
mirrored u p [] = false
mirrored u p (row ∷ rest) = (eqb row.userid u && eqb row.powerid p) || mirrored u p rest

-- DBManager::haspower
unfoldable pub has_power : ℕ → ℕ → Tables → Bool
unfolding by_id mirrored
has_power oid uid t = if eqb oid uid then true else elim (by_id oid t.objects) [
  | none ↦ false
  | some o ↦ if eqb o.owner uid then true else mirrored o.owner uid t.powermirror
]
