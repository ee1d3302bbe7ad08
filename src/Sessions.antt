-- ===== src/Sessions.antt =====
-- session.cpp and session.h, class SessionDB: the sessions of the users, found through a search tree.
-- Time is an argument of each call, in seconds; the log is not modelled. Each operation runs under the
-- lock of the database, so a history is a sequence of whole operations; expire lets go of the lock around each
-- removal, and the model has no other call come in between.
mod Index
pub mod Store
pub mod Invariant
pub mod Usage
mod Persistence
mod Expiry
mod Tests
pub use Store.{Session}
use openpanel_opencore.Prelude.{
  ℕ, ◌+◌, ◌-◌, ◌%◌, ◌^◌, String, Bool, true, false, ◌&&◌, ◌==◌, Option, none, some, List, [], ◌∷◌,
  ◌++◌, map, ltb, is_zero, if◌then◌else◌,
}
use Index.{Tree, null, node, link, descend}
use Store.{deref, modify, unlink}

-- What SessionDB takes from elsewhere: the hash of a statstring, a default-constructed value, and the
-- DBManager of a session (dbmanager.cpp), which `init` may refuse to open.
pub record Host (V D : Type 0) : Type 0 where
  pub key : String → ℕ
  pub no_value : V
  pub open_db : Option D
  pub user_login : V → D → D

-- `first` to `last`, and the tree that hangs below `first`.
pub record SessionDb (V D : Type 0) : Type 0 where
  pub sessions : List (Session V D)
  pub tree : Tree

-- A session as it is saved.
pub record Serialized (V : Type 0) : Type 0 where
  pub id : String
  pub meta : V
  pub errors : V
  pub quotamap : V
  pub heartbeat : ℕ

-- A row of SessionDB::list.
pub record Row (V : Type 0) : Type 0 where
  pub id : String
  pub heartbeat : ℕ
  pub inuse : ℕ
  pub meta : V

-- A call on the database, with the time at which it runs.
pub data Call (V : Type 0) : Type 0 where
  gets releases removes : String → Call V
  creates : String → V → Call V
  loads : List (Serialized V) → Call V
  expires : Call V

module _ {V D : Type 0} where
  unfoldable pub empty : SessionDb V D
  empty = record { sessions = []; tree = null }

  unfoldable pub claim : ℕ → Session V D → Session V D
  claim now s = record s { heartbeat = now; inuse = s.inuse + 1 }

  unfoldable pub unclaim : ℕ → Session V D → Session V D
  unclaim now s = record s {
    heartbeat = now;
    inuse = if ltb 0 s.inuse then s.inuse - 1 else s.inuse;
  }

  unfoldable pub keep : Session V D → Session V D
  keep s = record s { inuse = s.inuse + 1 }

  pub restore : (V → D → D) → Serialized V → Session V D → Session V D
  restore login ser s = record s {
    meta = ser.meta;
    errors = ser.errors;
    quotamap = ser.quotamap;
    heartbeat = ser.heartbeat;
    inuse = 0;
    db = login ser.meta s.db;
  }

  -- SessionDB::release
  unfoldable pub release : ℕ → String → SessionDb V D → SessionDb V D
  unfolding unclaim
  release now id db = record db { sessions = modify id (unclaim now) db.sessions }

  pub serialize : Session V D → Serialized V
  serialize s = record {
    id = s.id;
    meta = s.meta;
    errors = s.errors;
    quotamap = s.quotamap;
    heartbeat = s.heartbeat;
  }

  -- SessionDB::saveToDisk, before the tree of values is written as XML
  pub save_to_disk : SessionDb V D → List (Serialized V)
  unfolding serialize
  save_to_disk db = map serialize db.sessions

  -- SessionDB::list
  pub list_row : Session V D → Row V
  list_row s = record {
    id = s.id;
    heartbeat = s.heartbeat % 2 ^ 32;
    inuse = s.inuse;
    meta = s.meta;
  }

  pub list : SessionDb V D → List (Row V)
  unfolding list_row
  list db = map list_row db.sessions

  -- The test of SessionDB::expire, with the cutoff moved to the other side.
  pub stale : ℕ → Session V D → Bool
  stale now s = is_zero s.inuse && ltb (s.heartbeat + 600) now

module _ {V D : Type 0} (host : Host V D) where
  open host use {key, no_value, open_db, user_login}

  -- SessionDB::find
  unfoldable pub find : String → SessionDb V D → Option (Session V D)
  unfolding descend
  find id db = if descend key id db.tree then deref id db.sessions else none

  -- SessionDB::get
  unfoldable pub get : String → SessionDb V D → Option String × SessionDb V D
  unfolding find keep
  get id db = elim (find id db) [
    | none ↦ (none, db)
    | some s ↦ (some s.id, record db { sessions = modify id keep db.sessions })
  ]

  -- SessionDB::exists
  unfoldable pub exists : String → SessionDb V D → Bool
  unfolding find
  exists id db = elim (find id db) [ none ↦ false | some s ↦ true ]

  -- The constructor of CoreSession; `none` is sqliteInitException.
  unfoldable pub new_session : ℕ → String → Option (Session V D)
  new_session now id = elim open_db [
    | none ↦ none
    | some d ↦ some (record {
      id = id;
      meta = no_value;
      errors = no_value;
      quotamap = no_value;
      heartbeat = now;
      inuse = 0;
      db = d;
    })
  ]

  -- The end of SessionDB::demand: the first session of an empty database, or one behind `last`.
  unfoldable pub attach : Session V D → List (Session V D) → Tree → SessionDb V D
  unfolding link
  attach s [] tree = record { sessions = s ∷ []; tree = node null s.id null }
  attach s (x ∷ xs) tree = record {
    sessions = (x ∷ xs) ++ record s { inuse = 1 } ∷ [];
    tree = link key s.id tree;
  }

  -- SessionDB::demand; `none` is an exception.
  unfoldable pub demand : ℕ → String → SessionDb V D → Option (SessionDb V D)
  unfolding find claim new_session attach
  demand now id db = elim (find id db) [
    | some s ↦ some (record db { sessions = modify id (claim now) db.sessions })
    | none ↦ elim (new_session now id) [
      | none ↦ none
      | some s ↦ some (attach s db.sessions db.tree)
    ]
  ]

  -- SessionDB::create, for the identifier that strutil::uuid made. On an exception the pointer that
  -- it returns was never assigned: `none`.
  unfoldable pub create : ℕ → String → V → SessionDb V D → Option String × SessionDb V D
  unfolding demand
  create now uuid meta db = elim (demand now uuid db) [
    | none ↦ (none, db)
    | some db' ↦ (
      some uuid,
      record db' { sessions = modify uuid (λ s. record s { meta = meta }) db'.sessions },
    )
  ]

  -- SessionDB::createFromSerialized
  pub create_from_serialized : ℕ → Serialized V → SessionDb V D → SessionDb V D
  unfolding demand restore
  create_from_serialized now ser db = elim (demand now ser.id db) [
    | none ↦ db
    | some db' ↦ record db' { sessions = modify ser.id (restore user_login ser) db'.sessions }
  ]

  -- SessionDB::loadFromDisk, after the XML is read
  pub load_from_disk : ℕ → List (Serialized V) → SessionDb V D → SessionDb V D
  load_from_disk now [] db = db
  load_from_disk now (ser ∷ rest) db = load_from_disk now rest (create_from_serialized now ser db)

  -- The loop of SessionDB::remove that links the remaining sessions anew below `first`.
  pub relink : Tree → List (Session V D) → Tree
  unfolding link
  relink tree [] = tree
  relink tree (s ∷ rest) = relink (link key s.id tree) rest

  pub rebuild : List (Session V D) → Tree
  unfolding relink
  rebuild [] = null
  rebuild (s ∷ rest) = relink (node null s.id null) rest

  -- SessionDB::remove. An empty database, and an identifier that the descent does not meet, change
  -- nothing.
  unfoldable pub remove : String → SessionDb V D → SessionDb V D
  unfolding descend rebuild
  remove id db =
      if descend key id db.tree
      then record { sessions = unlink id db.sessions; tree = rebuild (unlink id db.sessions) }
      else db

  -- The loop of SessionDB::expire: the sessions that it passes, the database, and how many went.
  pub expire_loop : ℕ → List (Session V D) → SessionDb V D → ℕ → SessionDb V D × ℕ
  expire_loop now [] db result = (db, result)
  expire_loop now (s ∷ rest) db result =
      expire_loop now rest (if stale now s then remove s.id db else db)
        (if stale now s then result + 1 else result)

  -- SessionDB::expire, with no other call in the gaps where it lets go of the lock (`breaksection`)
  pub expire : ℕ → SessionDb V D → SessionDb V D × ℕ
  unfolding expire_loop stale remove
  expire now db = expire_loop now db.sessions db 0

  pub step : SessionDb V D → ℕ × Call V → SessionDb V D
  step db (now, gets id) = (get id db).1
  step db (now, releases id) = release now id db
  step db (now, removes id) = remove id db
  step db (now, creates id meta) = (create now id meta db).1
  step db (now, loads sers) = load_from_disk now sers db
  step db (now, expires) = (expire now db).0

  pub run : SessionDb V D → List (ℕ × Call V) → SessionDb V D
  run db [] = db
  run db (c ∷ cs) = run (step db c) cs
