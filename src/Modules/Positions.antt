-- ===== src/Modules/Positions.antt =====
-- Where parsetree puts the objects.
use openpanel_opencore.Prelude.{
  ℕ, zero, suc, ◌+◌, ◌<◌, ◌≤◌, String, ◌≡◌, refl, Option, none, some, List, [], ◌∷◌, ◌++◌, arith,
  length, length-append, get_elem?, inl, inr, ◌⊎◌,
}
use openpanel_opencore.Modules.Flatten.{
  Tree, class_node, Instances, no_instance, instance_node, Members, no_member, text_member,
  class_member, ParentRef, at_position, Row, set_at, parent_ref, new_row, parsetree,
  parse_instances, parse_members,
}

mutual
  -- The number of instances in a tree.
  pub count : Tree → ℕ
  count (class_node class instances) = count_instances instances

  pub count_instances : Instances → ℕ
  count_instances no_instance = 0
  count_instances (instance_node metaid given members rest) =
      suc (count_members members + count_instances rest)

  pub count_members : Members → ℕ
  count_members no_member = 0
  count_members (text_member id text rest) = count_members rest
  count_members (class_member tree rest) = count tree + count_members rest

length-set_at :
    (pos : ℕ) (id text : String) (rows : List Row) → length (set_at pos id text rows) ≡ length rows
unfolding set_at
length-set_at pos id text [] = refl
length-set_at zero id text (row ∷ rest) = refl
length-set_at (suc pos) id text (row ∷ rest) = ground (arith, length-set_at pos id text rest)

mutual
  unfolding parsetree count

  length-parsetree :
      (t : Tree) (parent : Option ℕ) (into : List Row)
      → length (parsetree t parent into) ≡ length into + count t
  length-parsetree (class_node class instances) parent into =
      length-parse_instances class instances parent into

  length-parse_instances :
      (class : String) (xs : Instances) (parent : Option ℕ) (into : List Row)
      → length (parse_instances class xs parent into) ≡ length into + count_instances xs
  length-parse_instances class no_instance parent into = omega arith
  length-parse_instances class (instance_node metaid given members rest) parent into =
      let row = new_row class (length into) (parent_ref parent given) metaid in
      let grown = into ++ row ∷ [] in
      omega (
        arith,
        length-append into (row ∷ []),
        length-parse_members members (length into) grown,
        length-parse_instances class rest parent (parse_members members (length into) grown),
      )

  length-parse_members :
      (ms : Members) (pos : ℕ) (into : List Row)
      → length (parse_members ms pos into) ≡ length into + count_members ms
  length-parse_members no_member pos into = omega arith
  length-parse_members (text_member id text rest) pos into = omega (
    arith,
    length-set_at pos id text into,
    length-parse_members rest pos (set_at pos id text into),
  )
  length-parse_members (class_member tree rest) pos into = omega (
    arith,
    length-parsetree tree (some pos) into,
    length-parse_members rest pos (parsetree tree (some pos) into),
  )

-- A reference to a parent that is nowhere but before the position.
abbrev pub IsBefore : ℕ → ParentRef → Type 0
IsBefore pos (at_position p) = p < pos
IsBefore pos _ = Unit

-- Every row carries its position, and refers to a position before its own.
pub record IsPlaced (rows : List Row) : Type 0 where
  pub placed :
      (i : ℕ) (row : Row) → get_elem? rows i ≡ some row → (row.id ≡ i) × IsBefore i row.parent

get_elem?-set_at :
    (pos i : ℕ) (id text : String) (rows : List Row) (row : Row)
    → get_elem? (set_at pos id text rows) i ≡ some row
    → (old : Row) × (get_elem? rows i ≡ some old) × (old.id ≡ row.id) × (old.parent ≡ row.parent)
unfolding set_at
get_elem?-set_at pos i id text [] row e = cc
get_elem?-set_at zero zero id text (x ∷ xs) row e = (x, refl, cc, cc)
get_elem?-set_at zero (suc i) id text (x ∷ xs) row e = (row, e, refl, refl)
get_elem?-set_at (suc pos) zero id text (x ∷ xs) row e = (row, e, refl, refl)
get_elem?-set_at (suc pos) (suc i) id text (x ∷ xs) row e = get_elem?-set_at pos i id text xs row e

set_at-IsPlaced :
    (pos : ℕ) (id text : String) (rows : List Row)
    → IsPlaced rows
    → IsPlaced (set_at pos id text rows)
set_at-IsPlaced pos id text rows h = record {
  placed = λ i row e.
      let (old, f, a, p) = get_elem?-set_at pos i id text rows row e in
      let (b, q) = h.placed i old f in rw (← a, ← p) (b, q);
}

get_elem?-snoc :
    (rows : List Row) (x row : Row) (i : ℕ)
    → get_elem? (rows ++ x ∷ []) i ≡ some row
    → (get_elem? rows i ≡ some row) ⊎ ((i ≡ length rows) × (row ≡ x))
get_elem?-snoc [] x row zero e = inr (refl, cc)
get_elem?-snoc [] x row (suc i) e = cc
get_elem?-snoc (y ∷ ys) x row zero e = inl e
get_elem?-snoc (y ∷ ys) x row (suc i) e = elim (get_elem?-snoc ys x row i e) [
  | inl f ↦ inl f
  | inr (f, g) ↦ inr (omega (arith, f), g)
]

snoc-IsPlaced :
    (rows : List Row) (x : Row)
    → IsPlaced rows
    → x.id ≡ length rows
    → IsBefore (length rows) x.parent
    → IsPlaced (rows ++ x ∷ [])
snoc-IsPlaced rows x h e b = record {
  placed = λ i row f. elim (get_elem?-snoc rows x row i f) [
    | inl g ↦ h.placed i row g
    | inr (g, k) ↦ rw (g, k) (e, b)
  ];
}

abbrev IsKnown : Option ℕ → List Row → Type 0
IsKnown none rows = Unit
IsKnown (some pos) rows = pos < length rows

parent_ref-IsBefore :
    (parent : Option ℕ) (given : Option (String × String)) (rows : List Row)
    → IsKnown parent rows
    → IsBefore (length rows) (parent_ref parent given)
parent_ref-IsBefore none none rows k = tt
parent_ref-IsBefore none (some (p, c)) rows k = tt
parent_ref-IsBefore (some pos) given rows k = k

IsKnown-grow :
    (parent : Option ℕ) (rows more : List Row)
    → length rows ≤ length more
    → IsKnown parent rows
    → IsKnown parent more
IsKnown-grow none rows more h k = tt
IsKnown-grow (some pos) rows more h k = omega (arith, h, k)

mutual
  unfolding parsetree

  parsetree-keeps :
      (t : Tree) (parent : Option ℕ) (into : List Row)
      → IsKnown parent into
      → IsPlaced into
      → IsPlaced (parsetree t parent into)
  parsetree-keeps (class_node class instances) parent into k h =
      instances-keep class instances parent into k h

  instances-keep :
      (class : String) (xs : Instances) (parent : Option ℕ) (into : List Row)
      → IsKnown parent into
      → IsPlaced into
      → IsPlaced (parse_instances class xs parent into)
  instances-keep class no_instance parent into k h = h
  instances-keep class (instance_node metaid given members rest) parent into k h =
      let row = new_row class (length into) (parent_ref parent given) metaid in
      let grown = into ++ row ∷ [] in
      let n = length-append into (row ∷ []) in
      let after = parse_members members (length into) grown in
      let m = length-parse_members members (length into) grown in
      instances-keep class rest parent after
        (IsKnown-grow parent into after (omega (arith, n, m)) k)
        (members-keep members (length into) grown (omega (arith, n))
          (snoc-IsPlaced into row h refl (parent_ref-IsBefore parent given into k)))

  members-keep :
      (ms : Members) (pos : ℕ) (into : List Row)
      → pos < length into
      → IsPlaced into
      → IsPlaced (parse_members ms pos into)
  members-keep no_member pos into k h = h
  members-keep (text_member id text rest) pos into k h =
      members-keep rest pos (set_at pos id text into)
        (omega (arith, k, length-set_at pos id text into)) (set_at-IsPlaced pos id text into h)
  members-keep (class_member tree rest) pos into k h =
      members-keep rest pos (parsetree tree (some pos) into)
        (omega (arith, k, length-parsetree tree (some pos) into))
        (parsetree-keeps tree (some pos) into k h)

empty-IsPlaced : IsPlaced []
empty-IsPlaced = record { placed = λ i row e. cc }

-- parsetree gives one row for each instance of the tree. The row carries its position, and where it refers
-- to a parent in the tree, it refers to a position before its own.
pub parsetree-IsPlaced :
    (t : Tree) → (length (parsetree t none []) ≡ count t) × IsPlaced (parsetree t none [])
parsetree-IsPlaced t =
    (omega (arith, length-parsetree t none []), parsetree-keeps t none [] tt empty-IsPlaced)
