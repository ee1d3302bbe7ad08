-- ===== src/Database/Insert.antt =====
-- The INSERT of a new object, which createObject and copyprototype of dbmanager.cpp share, and
-- copyprototype itself.
use openpanel_opencore.Prelude.{
  ℕ, zero, suc, ◌-◌, ◌^◌, String, Bool, false, ◌&&◌, ◌||◌, ◌==◌, Option, none, some, List, [], ◌∷◌,
  ◌++◌, eqb, if◌then◌else◌,
}
use openpanel_opencore.Database.Tables.{Object, Tables, by_id}
use openpanel_opencore.Database.Access.{
  Backend, ClassData, Manager, fail, err_failure, err_notfound, find_class_id, get_class_data,
  is_metaid, metaid_text,
}

-- An `int` of -1 as an unsigned number: the owner that createObject hands to copyprototype where no
-- parent is given.
abbrev pub no_owner : ℕ
no_owner = 2 ^ 32 - 1

abbrev pub same_context : Option ℕ → Option ℕ → Bool
same_context (some a) (some b) = eqb a b
same_context _ _ = false

-- UNIQUE (uuid), UNIQUE (metaid, uniquecontext)
unfoldable pub conflicts : Backend → Object → List Object → Bool
conflicts b new [] = false
conflicts b new (o ∷ rest) =
    o.uuid == new.uuid
    || elim new.metaid [
      | none ↦ false
      | some metaid ↦ is_metaid b metaid o.metaid && same_context o.uniquecontext new.uniquecontext
    ]
    || conflicts b new rest

-- The row of a new object, but for its id.
pub record NewObject : Type 0 where
  pub uuid : String
  pub metaid : Option String
  pub parent : ℕ
  pub owner : ℕ
  pub uniquecontext : Option ℕ
  pub class : ℕ
  pub members : List (String × String)

abbrev pub with_id : Backend → ℕ → NewObject → Object
with_id b id v = record {
  id = id;
  uuid = v.uuid;
  metaid = v.metaid;
  parent = v.parent;
  owner = v.owner;
  uniquecontext = v.uniquecontext;
  class = v.class;
  content = b.toxml v.members;
}

-- The branch on the class's `uniquein`; the outer `none` is a defective attribute.
unfoldable pub unique_context : Backend → ClassData → ℕ → ℕ → Tables → Option (Option ℕ)
unfolding find_class_id
unique_context b cd classid parentid t = elim cd.uniquein [
  | none ↦ some none
  | some scope ↦
      if scope == "parent"
      then some (some parentid)
      else if scope == "class"
      then some
          (some (elim cd.uniqueclass [ none ↦ classid | some class ↦ find_class_id b class t ]))
      else none
]

-- INSERT INTO objects; `none` is a broken constraint.
unfoldable pub insert_object : Backend → NewObject → Tables → Option Tables
unfolding conflicts
insert_object b v t =
    let new = with_id b t.next_id v in
    if conflicts b new t.objects
    then none
    else some (record t { objects = t.objects ++ new ∷ []; next_id = suc t.next_id })

-- SELECT id FROM objects WHERE parent=...
unfoldable pub children : ℕ → List Object → List ℕ
children parent [] = []
children parent (o ∷ rest) =
    if eqb o.parent parent then o.id ∷ children parent rest else children parent rest

abbrev member : String → List (String × String) → String
member fid [] = ""
member fid ((f, v) ∷ rest) = if f == fid then v else member fid rest

-- The members of the copy: those that are given, and the prototype's with the token replaced.
unfoldable pub copy_members :
    Backend → String → List (String × String) → List (String × String) → List (String × String)
copy_members b repl members [] = []
copy_members b repl members ((fid, v) ∷ rest) =
    (fid, if member fid members == "" then b.valueparse v repl else member fid members)
    ∷ copy_members b repl members rest

-- The loop over the children of the prototype.
unfoldable pub copy_children :
    (ℕ → Manager → Option (Option String × Manager))
    → String
    → List ℕ
    → Manager
    → Option (Option String × Manager)
copy_children copy res [] m = some (some res, m)
copy_children copy res (id ∷ rest) m = elim (copy id m) [
  | none ↦ none
  | some (o, m') ↦ elim o [ none ↦ some (none, m') | some child ↦ copy_children copy res rest m' ]
]

-- The row that copyprototype writes; `none` is a defective `uniquein`.
unfoldable pub copy_row :
    Backend → Object → ℕ → ℕ → String → List (String × String) → Tables → Option NewObject
unfolding unique_context copy_members get_class_data
copy_row b from parentid ownerid repl members t =
    elim (unique_context b (get_class_data b from.class t) from.class parentid t) [
      | none ↦ none
      | some context ↦ some (record {
        uuid = b.fresh_uuid t.next_id;
        metaid = some (b.valueparse (metaid_text b from.metaid) repl);
        parent = parentid;
        owner = ownerid;
        uniquecontext = context;
        class = from.class;
        members = copy_members b repl members (b.fromxml from.content);
      })
    ]

-- DBManager::copyprototype, on fuel for the depth of the prototype; the outer `none` is that the
-- fuel ran out, the inner one the empty text.
unfoldable pub copy_prototype :
    Backend
    → ℕ
    → ℕ
    → ℕ
    → ℕ
    → String
    → List (String × String)
    → Manager
    → Option (Option String × Manager)
unfolding by_id copy_row insert_object children copy_children
copy_prototype b zero fromid parentid ownerid repl members m = none
copy_prototype b (suc fuel) fromid parentid ownerid repl members m =
    let t = m.tables in
    elim (by_id fromid t.objects) [
      | none ↦ some (fail err_failure none m)
      | some from ↦ elim (by_id from.class t.objects) [
        | none ↦ some (fail err_notfound none m)
        | some class ↦ elim (copy_row b from parentid ownerid repl members t) [
          | none ↦ some (fail err_failure none m)
          | some v ↦ elim (insert_object b v t) [
            | none ↦ some (fail err_failure none m)
            | some t' ↦
                copy_children (λ id m'. copy_prototype b fuel id t.next_id ownerid repl [] m')
                  v.uuid (children fromid t'.objects) (record m { tables = t' })
          ]
        ]
      ]
    ]
