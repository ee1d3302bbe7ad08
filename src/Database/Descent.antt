-- ===== src/Database/Descent.antt =====
-- listObjectTree and _listObjectTree terminate, and list exactly the objects below an object.
use openpanel_opencore.Prelude.{
  ℕ, zero, suc, ◌+◌, ◌<◌, ◌≤◌, String, true, false, ◌||◌, ◌≡◌, refl, some, List, [], ◌∷◌, ◌++◌,
  arith, eqb, is_zero, subst, Bool-cases, ◌⊎◌, inl, inr,
}
use openpanel_opencore.Database.Tables.{Object, find_local_id, has_power}
use openpanel_opencore.Database.Access.{Manager}
use openpanel_opencore.Database.Tree.{rows_below, list_below, list_object_tree}
use openpanel_opencore.Database.Below.{
  IsListing, IsRowListing, list_rows-IsRowListing, IsRow, IsBelow, Under, direct, deeper, IsMade,
}

module _ (objects : List Object) where
  -- The rows of the query are the rows below.
  rows_below_lem :
      (localid : ℕ) (xs : List Object) (o : Object)
      → IsRow o (rows_below localid xs)
      → IsRow o xs × IsBelow localid o
  unfolding rows_below
  rows_below_lem localid [] o m = absurd m
  rows_below_lem localid (x ∷ xs) o m =
      elim (Bool-cases (eqb x.parent localid || eqb x.owner localid)) [
        | inl e ↦
            let q : rows_below localid (x ∷ xs) ≡ x ∷ rows_below localid xs =
              rw (e, rows_below) refl in
            elim (subst (λ l. IsRow o l) q m) [
              | inl same ↦ (inl same, rw same (ground arith))
              | inr k ↦ let (a, b) = rows_below_lem localid xs o k in (inr a, b)
            ]
        | inr e ↦
            let q : rows_below localid (x ∷ xs) ≡ rows_below localid xs = rw (e, rows_below) refl in
            let (a, b) = rows_below_lem localid xs o (subst (λ l. IsRow o l) q m) in (inr a, b)
      ]

  not_below :
      (localid : ℕ) (x : Object)
      → IsBelow localid x
      → (eqb x.parent localid || eqb x.owner localid) ≡ false
      → ⊥
  not_below localid x (inl a) e = ground arith
  not_below localid x (inr a) e = ground arith

  IsRow-rows_below :
      (localid : ℕ) (xs : List Object) (o : Object)
      → IsRow o xs
      → IsBelow localid o
      → IsRow o (rows_below localid xs)
  unfolding rows_below
  IsRow-rows_below localid [] o m b = absurd m
  IsRow-rows_below localid (x ∷ xs) o m b =
      elim (Bool-cases (eqb x.parent localid || eqb x.owner localid)) [
        | inl e ↦
            let q : rows_below localid (x ∷ xs) ≡ x ∷ rows_below localid xs =
              rw (e, rows_below) refl in
            rw q (elim m [ inl same ↦ inl same | inr k ↦ inr (IsRow-rows_below localid xs o k b) ])
        | inr e ↦
            let q : rows_below localid (x ∷ xs) ≡ rows_below localid xs = rw (e, rows_below) refl in
            rw q (elim m [
              | inl same ↦ absurd (not_below localid x (rw (← same) b) e)
              | inr k ↦ IsRow-rows_below localid xs o k b
            ])
      ]

  made_later : (next localid : ℕ) (o : Object) → IsMade next o → IsBelow localid o → localid < o.id
  made_later next localid o h (inl e) = omega (arith, h.parent, e)
  made_later next localid o h (inr e) = omega (arith, h.owner, e)

  Under-cases :
      (localid : ℕ) (o : Object)
      → Under objects localid o
      → (IsRow o objects × IsBelow localid o)
        ⊎ ((x : Object) × IsRow x objects × IsBelow localid x × Under objects x.id o)
  Under-cases localid o (direct r b) = inl (r, b)
  Under-cases localid o (deeper x r b d) = inr (x, r, b, d)

  to_listing :
      (localid : ℕ) (listed : List String)
      → IsRowListing objects (rows_below localid objects) listed
      → IsListing objects localid listed
  to_listing localid listed h = record {
    sound = λ u e.
        let (row, m, k) = h.sound u e in
        let (r, b) = rows_below_lem localid objects row m in
        elim k [
          | inl same ↦ (row, direct r b, same)
          | inr (o, d, same) ↦ (o, deeper row r b d, same)
        ];
    complete = λ o d. elim (Under-cases localid o d) [
      | inl (r, b) ↦ h.self o (IsRow-rows_below localid objects o r b)
      | inr (x, r, b, k) ↦ h.complete x o (IsRow-rows_below localid objects x r b) k
    ];
  }

  -- Where an object comes after its parent and its owner, and ids are positive and below `next`: for an id
  -- below `next`, and with fuel for the ids from there up to `next`, _listObjectTree returns, and what it
  -- appends are the uuids of exactly the objects below the id, whether by their parents or by their owners.
  pub list_below-IsListing :
      (next : ℕ)
      → ((o : Object) → IsRow o objects → IsMade next o)
      → (fuel localid : ℕ) (into : List String) → 0 < localid
      → localid < next
      → next ≤ localid + fuel
      → (listed : List String) × (list_below fuel objects localid into
          ≡ some (some (into ++ listed)))
        × IsListing objects localid listed
  unfolding list_below
  list_below-IsListing next made zero localid into p k l = absurd (omega (arith, k, l))
  list_below-IsListing next made (suc fuel) localid into p k l =
      let (listed, e, s) =
        list_rows-IsRowListing objects (list_below fuel objects) (rows_below localid objects)
          (λ row m into.
            let (r, b) = rows_below_lem localid objects row m in
            let later = made_later next localid row (made row r) b in
            list_below-IsListing next made fuel row.id into (omega (arith, later))
              ((made row r).bounded) (omega (arith, later, l)))
          into in
      let q : is_zero localid ≡ false = ground arith in
      (listed, rw (q, list_below) e, to_listing localid listed s)

-- Where the objects have positive ids below `next` and come after their parents and owners, the caller has
-- power over the object and there is fuel for the ids from the object's own on: listObjectTree returns the
-- uuids of exactly the objects below the object, and last its own uuid, and changes nothing.
pub list_object_tree-IsListing :
    (next fuel : ℕ) (uuid : String) (m : Manager)
    → ((o : Object) → IsRow o m.tables.objects → IsMade next o)
    → 0 < find_local_id uuid m.tables.objects
    → find_local_id uuid m.tables.objects < next
    → next ≤ find_local_id uuid m.tables.objects + fuel
    → has_power
        (find_local_id uuid m.tables.objects)
        (find_local_id m.useruuid m.tables.objects)
        m.tables
      ≡ true
    → (listed : List String) × (list_object_tree fuel uuid m ≡ some (some (listed ++ uuid ∷ []), m))
      × IsListing m.tables.objects (find_local_id uuid m.tables.objects) listed
unfolding list_object_tree
list_object_tree-IsListing next fuel uuid m made p k l h =
    let id = find_local_id uuid m.tables.objects in
    let (listed, e, s) = list_below-IsListing m.tables.objects next made fuel id [] p k l in
    let q : is_zero id ≡ false = ground arith in (listed, rw (q, h, e, list_object_tree) refl, s)
