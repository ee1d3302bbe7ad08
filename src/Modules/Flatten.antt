-- ===== src/Modules/Flatten.antt =====
-- ModuleDB::parsetree of moduledb.cpp: the objects that a module reports, as a tree of classes, instances
-- and members, become rows that refer to their parents by position.
use openpanel_opencore.Prelude.{
  ℕ, zero, suc, String, ◌==◌, Option, none, some, List, [], ◌∷◌, ◌++◌, length, if◌then◌else◌,
}

-- A member of an instance is a text, or the instances of a class (type="class"). An instance may name a
-- parent that is not in the tree, by the attributes "parent" and "parentclass".
mutual
  pub data Tree : Type 0 where
    class_node : String → Instances → Tree

  pub data Instances : Type 0 where
    no_instance : Instances
    instance_node : String → Option (String × String) → Members → Instances → Instances

  pub data Members : Type 0 where
    no_member : Members
    text_member : String → String → Members → Members
    class_member : Tree → Members → Members

-- The value that stands under "parent".
pub data ParentRef : Type 0 where
  no_parent : ParentRef
  at_position : ℕ → ParentRef
  named : String → String → ParentRef

pub record Row : Type 0 where
  pub class : String
  pub id : ℕ
  pub parent : ParentRef
  pub metaid : String
  pub members : List (String × String)

-- `members[id] = text`
unfoldable pub set_member : String → String → List (String × String) → List (String × String)
set_member id text [] = (id, text) ∷ []
set_member id text ((k, v) ∷ rest) =
    if k == id then (id, text) ∷ rest else (k, v) ∷ set_member id text rest

-- `into[pos]["members"][id] = text`
unfoldable pub set_at : ℕ → String → String → List Row → List Row
unfolding set_member
set_at pos id text [] = []
set_at zero id text (row ∷ rest) = record row { members = set_member id text row.members } ∷ rest
set_at (suc pos) id text (row ∷ rest) = row ∷ set_at pos id text rest

abbrev pub parent_ref : Option ℕ → Option (String × String) → ParentRef
parent_ref (some pos) given = at_position pos
parent_ref none (some (parent, class)) = named parent class
parent_ref none none = no_parent

abbrev pub new_row : String → ℕ → ParentRef → String → Row
new_row class pos parent metaid = record {
  class = class;
  id = pos;
  parent = parent;
  metaid = metaid;
  members = [];
}

unfoldable mutual
  unfolding set_at

  -- ModuleDB::parsetree; a negative parent is `none`.
  pub parsetree : Tree → Option ℕ → List Row → List Row
  parsetree (class_node class instances) parent into = parse_instances class instances parent into

  -- The loop over the instances.
  pub parse_instances : String → Instances → Option ℕ → List Row → List Row
  parse_instances class no_instance parent into = into
  parse_instances class (instance_node metaid given members rest) parent into =
      parse_instances class rest parent (
        parse_members members (length into)
          (into ++ new_row class (length into) (parent_ref parent given) metaid ∷ []))

  -- The loop over the members of the instance at `pos`.
  pub parse_members : Members → ℕ → List Row → List Row
  parse_members no_member pos into = into
  parse_members (text_member id text rest) pos into =
      parse_members rest pos (set_at pos id text into)
  parse_members (class_member tree rest) pos into =
      parse_members rest pos (parsetree tree (some pos) into)
