-- ===== src/Sessions/Index.antt =====
-- The search tree that SessionDB keeps through the `lower` and `higher` pointers of its sessions
-- (session.cpp, SessionDB::find and SessionDB::link). A tree is what hangs below a pointer. The
-- key of an identifier is `statstring::key`, a parameter: nothing is assumed of it, so two
-- identifiers may share one.
use openpanel_opencore.Prelude.{
  ℕ, String, ◌≡◌, Bool, true, false, ◌||◌, arith, ◌==◌, eq_iff, leb, if◌then◌else◌,
}

pub data Tree : Type 0 where
  null : Tree
  node : Tree → String → Tree → Tree

module _ (key : String → ℕ) where
  -- The descent of SessionDB::link: to the first free place on the side of the key.
  unfoldable pub link : String → Tree → Tree
  link cs null = node null cs null
  link cs (node lower crsr higher) =
      if leb (key crsr) (key cs)
      then node lower crsr (link cs higher)
      else node (link cs lower) crsr higher

  -- The descent of SessionDB::find, and of SessionDB::remove.
  unfoldable pub descend : String → Tree → Bool
  descend id null = false
  descend id (node lower crsr higher) =
      let up = descend id higher in
      let down = descend id lower in
      if crsr == id then true else if leb (key crsr) (key id) then up else down

  -- A linked session is found, and no other session is lost or made up.
  pub descend-link :
      (id cs : String) (t : Tree) → descend id (link cs t) ≡ (cs == id || descend id t)
  unfolding link descend
  descend-link id cs null = ground arith
  descend-link id cs (node lower crsr higher) =
      ground
        (arith, descend-link id cs lower, descend-link id cs higher, eq_iff cs id, eq_iff crsr id)
