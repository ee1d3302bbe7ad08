-- ===== src/Database/Below.antt =====
-- What the loop of _listObjectTree of dbmanager.cpp appends, and the objects below an object.
use openpanel_opencore.Prelude.{
  ℕ, ◌<◌, String, true, ◌==◌, ◌≡◌, refl, ◌∙◌, some, List, [], ◌∷◌, ◌++◌, arith, eq_iff, eq_refl,
  has_name, has_name-append, append_middle, append_assoc, append_nil, ap, Bool-cases, ◌⊎◌, inl, inr,
}
use openpanel_opencore.Database.Tables.{Object}
use openpanel_opencore.Database.Tree.{Listing, list_rows}

-- The object is a row of the list.
abbrev pub IsRow : Object → List Object → Type 0
IsRow o [] = ⊥
IsRow o (x ∷ xs) = (o ≡ x) ⊎ IsRow o xs

abbrev pub IsBelow : ℕ → Object → Type 0
IsBelow localid o = (o.parent ≡ localid) ⊎ (o.owner ≡ localid)

-- The objects that are below the object `localid`, directly or not.
pub data Under (objects : List Object) : ℕ → Object → Type 0 where
  direct :
      {localid : ℕ} {o : Object} → IsRow o objects → IsBelow localid o → Under objects localid o
  deeper :
      {localid : ℕ} {o : Object} (x : Object)
      → IsRow x objects
      → IsBelow localid x
      → Under objects x.id o
      → Under objects localid o

-- Ids are positive and below `next`, and an object comes after its parent and its owner.
pub record IsMade (next : ℕ) (o : Object) : Type 0 where
  pub positive : 0 < o.id
  pub bounded : o.id < next
  pub parent : o.parent < o.id
  pub owner : o.owner < o.id

module _ (objects : List Object) where
  -- A uuid of an object below.
  abbrev pub IsUnder : ℕ → String → Type 0
  IsUnder localid u = (o : Object) × Under objects localid o × (o.uuid ≡ u)

  -- The list that a visit appends.
  pub record IsListing (localid : ℕ) (listed : List String) : Type 0 where
    pub sound : (u : String) → has_name u listed ≡ true → IsUnder localid u
    pub complete : (o : Object) → Under objects localid o → has_name o.uuid listed ≡ true

  abbrev pub Visits : (ℕ → List String → Listing) → ℕ → Type 0
  Visits visit localid =
      (into : List String)
      → (listed : List String) × (visit localid into ≡ some (some (into ++ listed)))
        × IsListing localid listed

  -- What the loop appends for a list of rows.
  pub record IsRowListing (rows : List Object) (listed : List String) : Type 0 where
    pub sound :
        (u : String)
        → has_name u listed ≡ true
        → (row : Object) × IsRow row rows × ((row.uuid ≡ u) ⊎ IsUnder row.id u)
    pub self : (row : Object) → IsRow row rows → has_name row.uuid listed ≡ true
    pub complete :
        (row o : Object) → IsRow row rows → Under objects row.id o → has_name o.uuid listed ≡ true

  pub one_more :
      (row : Object) (rows : List Object) (l1 l2 : List String)
      → IsListing row.id l1
      → IsRowListing rows l2
      → IsRowListing (row ∷ rows) (l1 ++ row.uuid ∷ l2)
  unfolding has_name
  one_more row rows l1 l2 a b = record {
    sound = λ u e. elim (Bool-cases (has_name u l1)) [
      | inl f ↦ (row, inl refl, inr (a.sound u f))
      | inr f ↦ elim (Bool-cases (row.uuid == u)) [
        | inl g ↦ (row, inl refl, inl ((eq_iff row.uuid u).0 g))
        | inr g ↦
            let h : has_name u l2 ≡ true = ground (arith, has_name-append u l1 (row.uuid ∷ l2)) in
            let (r, m, k) = b.sound u h in (r, inr m, k)
      ]
    ];
    self = λ r m. elim m [
      | inl e ↦ rw e (ground (arith, has_name-append row.uuid l1 (row.uuid ∷ l2), eq_refl row.uuid))
      | inr k ↦ let h = b.self r k in ground (arith, h, has_name-append r.uuid l1 (row.uuid ∷ l2))
    ];
    complete = λ r o m d. elim m [
      | inl e ↦
          let h = a.complete o (rw (← (ap (λ (x : Object). x.id) e)) d) in
          ground (arith, h, has_name-append o.uuid l1 (row.uuid ∷ l2))
      | inr k ↦
          let h = b.complete r o k d in ground (arith, h, has_name-append o.uuid l1 (row.uuid ∷ l2))
    ];
  }

  pub list_rows-IsRowListing :
      (visit : ℕ → List String → Listing) (rows : List Object)
      → ((row : Object) → IsRow row rows → Visits visit row.id)
      → (into : List String)
      → (listed : List String) × (list_rows visit rows into ≡ some (some (into ++ listed)))
        × IsRowListing rows listed
  unfolding list_rows has_name
  list_rows-IsRowListing visit [] v into = (
    [],
    rw (append_nil into, list_rows) refl,
    record {
      sound = λ u e. absurd (let z : ⊥ = cc in z);
      self = λ row m. absurd m;
      complete = λ row o m. absurd m;
    },
  )
  list_rows-IsRowListing visit (row ∷ rows) v into =
      let (l1, e1, s1) = v row (inl refl) into in
      let (l2, e2, s2) =
        list_rows-IsRowListing visit rows (λ r m. v r (inr m)) ((into ++ l1) ++ row.uuid ∷ []) in
      let same : ((into ++ l1) ++ row.uuid ∷ []) ++ l2 ≡ into ++ (l1 ++ row.uuid ∷ l2) =
        append_middle (into ++ l1) l2 row.uuid ∙ append_assoc into l1 (row.uuid ∷ l2) in
      (l1 ++ row.uuid ∷ l2, rw (e1, e2, same, list_rows) refl, one_more row rows l1 l2 s1 s2)
