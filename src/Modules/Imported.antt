-- ===== src/Modules/Imported.antt =====
-- handleGetConfig creates each object of the module under the object that the module reports as its parent.
use openpanel_opencore.Prelude.{
  ℕ, suc, ◌+◌, ◌<◌, String, false, ◌≡◌, ◌≢◌, refl, ◌∙◌, none, some, List, [], ◌∷◌, ◌⊎◌, arith,
  get_elem?, eqb, All, subst, find_key, put_key, find_key-put, find_key-put_other, has_name,
  Bool-cases, Option-cases, ⊎-cases, inl, inr,
}
use openpanel_opencore.Modules.Flatten.{
  Tree, ParentRef, no_parent, at_position, named, Row, parsetree,
}
use openpanel_opencore.Modules.Positions.{IsBefore, parsetree-IsPlaced}
use openpanel_opencore.Modules.Import.{
  Importer, Decision, leave_out, create_under, Progress, resolve, decide, answer, import_row,
  import_rows,
}

module _ {D : Type 0} (im : Importer D) where
  -- The rows that have been created, with their parents and uuids, as the database sees it; it never says
  -- that an object is there already; and the texts of two numbers differ.
  pub record Laws (Made : String → Row → String → Type 0) : Type 0 where
    pub made :
        (parentid : String) (row : Row) (d : D) (uuid : String)
        → (im.create_object parentid row d).0 ≡ some uuid
        → Made parentid row uuid
    pub no_duplicate : (d : D) → im.already_exists d ≡ false
    pub texts : (i j : ℕ) → im.text i ≡ im.text j → i ≡ j

  module _ (Made : String → Row → String → Type 0) (laws : Laws Made) where
    -- The uuid of a row's parent.
    abbrev pub IsParent : ParentRef → String → List (String × String) → Type 0
    IsParent no_parent parentid uuids = parentid ≡ ""
    IsParent (at_position p) parentid uuids = find_key (im.text p) uuids ≡ some parentid
    IsParent (named parent class) parentid uuids = Unit

    -- The row has been created under its parent, and its uuid is known.
    pub record IsImported (uuids : List (String × String)) (row : Row) : Type 0 where
      pub parentid : String
      pub uuid : String
      pub made : Made parentid row uuid
      pub known : find_key (im.text row.id) uuids ≡ some uuid
      pub parent : IsParent row.parent parentid uuids

    -- All positions before `n` have a uuid.
    abbrev Filled : ℕ → List (String × String) → Type 0
    Filled n uuids = (p : ℕ) → p < n → (u : String) × (find_key (im.text p) uuids ≡ some u)

    decide_lem :
        (n : ℕ) (parent : ParentRef) (s : Progress D)
        → s.skipparents ≡ []
        → Filled n s.uuids
        → IsBefore n parent
        → (parentid : String) × (decide im parent s ≡ create_under parentid)
          × IsParent parent parentid s.uuids
    unfolding decide resolve has_name
    decide_lem n no_parent s k f b = ("", refl, refl)
    decide_lem n (at_position p) s k f b =
        let (u, e) = f p b in (u, rw (e, decide, resolve) refl, e)
    decide_lem n (named p c) s k f b = elim (Option-cases (find_key p s.uuids)) [
      | inl e ↦ (im.find_object c p s.database, rw (e, k, decide, resolve) refl, tt)
      | inr (u, e) ↦ (u, rw (e, decide, resolve) refl, tt)
    ]

    -- A row that was created is in `uuids` afterwards.
    import_row_lem :
        (row : Row) (parentid : String) (s t : Progress D)
        → import_row im row (create_under parentid) s ≡ inr t
        → (uuid : String) × Made parentid row uuid
          × (t.uuids ≡ put_key (im.text row.id) uuid s.uuids)
          × (t.skipparents ≡ s.skipparents)
    unfolding import_row answer
    import_row_lem row parentid s t e =
        elim (Option-cases (im.create_object parentid row s.database).0) [
          | inl f ↦
              let d = (im.create_object parentid row s.database).1 in
              let y : import_row im row (create_under parentid) s
                  ≡ inl (record s { database = d }) =
                rw (f, laws.no_duplicate d, import_row, answer) refl in
              absurd (let z : ⊥ = cc in z)
          | inr (uuid, f) ↦
              let d = (im.create_object parentid row s.database).1 in
              let done : Progress D = record s {
                database = d;
                uuids = put_key (im.text row.id) uuid s.uuids;
              } in
              let y : import_row im row (create_under parentid) s ≡ inr done =
                rw (f, import_row, answer) refl in
              let k : t ≡ done = cc in
              (uuid, laws.made parentid row s.database uuid f, rw k refl, rw k refl)
        ]

    -- The row that stands next has its position, and its parent before it.
    record IsNext (n : ℕ) (rows : List Row) : Type 0 where
      placed :
          (i : ℕ) (row : Row)
          → get_elem? rows i ≡ some row
          → (row.id ≡ n + i) × IsBefore (n + i) row.parent

    next_lem : (n : ℕ) (row : Row) (rows : List Row) → IsNext n (row ∷ rows) → IsNext (suc n) rows
    next_lem n row rows q = record {
      placed = λ i r m.
          let (a, b) = q.placed (suc i) r m in
          let e : n + suc i ≡ suc n + i = omega arith in
          (omega (arith, a), subst (λ j. IsBefore j r.parent) e b);
    }

    keep-IsParent :
        (n : ℕ) (parent : ParentRef) (parentid : String) (old new : List (String × String))
        → IsBefore n parent
        → ((p : ℕ) → p < n → find_key (im.text p) new ≡ find_key (im.text p) old)
        → IsParent parent parentid old
        → IsParent parent parentid new
    keep-IsParent n no_parent parentid old new b f h = h
    keep-IsParent n (at_position p) parentid old new b f h = f p b ∙ h
    keep-IsParent n (named p c) parentid old new b f h = tt

    import_rows_lem :
        (n : ℕ) (rows : List Row) (s t : Progress D)
        → IsNext n rows
        → s.skipparents ≡ []
        → Filled n s.uuids
        → import_rows im rows s ≡ inr t
        → All (IsImported t.uuids) rows
          × ((p : ℕ) → p < n → find_key (im.text p) t.uuids ≡ find_key (im.text p) s.uuids)
    unfolding import_rows
    import_rows_lem n [] s t q k f e = let same : t ≡ s = cc in (tt, λ p l. rw same refl)
    import_rows_lem n (row ∷ rows) s t q k f e =
        let (at, before) = q.placed 0 row refl in
        let id : row.id ≡ n = omega (arith, at) in
        let zero_more : n + 0 ≡ n = omega arith in
        let b : IsBefore n row.parent = subst (λ m. IsBefore m row.parent) zero_more before in
        let (parentid, c, h) = decide_lem n row.parent s k f b in
        elim (⊎-cases (import_row im row (create_under parentid) s)) [
          | inl (x, g) ↦
              let y : import_rows im (row ∷ rows) s ≡ inl x = rw (c, g, import_rows) refl in
              absurd (let z : ⊥ = cc in z)
          | inr (mid, g) ↦
              let y : import_rows im (row ∷ rows) s ≡ import_rows im rows mid =
                rw (c, g, import_rows) refl in
              let (uuid, made, u, v) = import_row_lem row parentid s mid g in
              let other : (p : ℕ)
                  → p < n
                  → find_key (im.text p) mid.uuids ≡ find_key (im.text p) s.uuids =
                λ p l.
                  let apart : im.text p ≢ im.text n =
                    λ eq. absurd (omega (arith, laws.texts p n eq, l)) in
                  rw (u, id) (find_key-put_other (im.text p) (im.text n) uuid s.uuids apart) in
              let here : find_key (im.text n) mid.uuids ≡ some uuid =
                rw (u, id) (find_key-put (im.text n) uuid s.uuids) in
              let filled : Filled (suc n) mid.uuids = λ p l. elim (Bool-cases (eqb p n)) [
                | inl x ↦ let same : p ≡ n = ground arith in (uuid, rw same here)
                | inr x ↦
                    let less : p < n = ground (arith, l) in
                    let (w, z) = f p less in (w, other p less ∙ z)
              ] in
              let (done, kept) =
                import_rows_lem (suc n) rows mid t (next_lem n row rows q) (v ∙ k) filled
                  (cc (y, e)) in
              (
                (
                  record {
                    parentid = parentid;
                    uuid = uuid;
                    made = made;
                    known = rw id (kept n (omega arith) ∙ here);
                    parent =
                        keep-IsParent n row.parent parentid s.uuids t.uuids b
                          (λ p l. kept p (omega (arith, l)) ∙ other p l) h;
                  },
                  done,
                ),
                λ p l. kept p (omega (arith, l)) ∙ other p l,
              )
        ]

    -- createObject has refused one of the rows.
    pub record IsRefused (rows : List Row) : Type 0 where
      pub position : ℕ
      pub row : Row
      pub placed : get_elem? rows position ≡ some row
      pub parentid : String
      pub database : D
      pub refused : (im.create_object parentid row database).0 ≡ none

    import_row-refused :
        (row : Row) (x : Decision) (s t : Progress D)
        → import_row im row x s ≡ inl t
        → (parentid : String) × (d : D) × ((im.create_object parentid row d).0 ≡ none)
    unfolding import_row answer
    import_row-refused row leave_out s t e = absurd (let z : ⊥ = cc in z)
    import_row-refused row (create_under parentid) s t e =
        elim (Option-cases (im.create_object parentid row s.database).0) [
          | inl f ↦ (parentid, s.database, f)
          | inr (uuid, f) ↦
              let d = (im.create_object parentid row s.database).1 in
              let y : import_row im row (create_under parentid) s
                  ≡ inr (record s { database = d; uuids = put_key (im.text row.id) uuid s.uuids }) =
                rw (f, import_row, answer) refl in
              absurd (let z : ⊥ = cc in z)
        ]

    import_rows-IsRefused :
        (rows : List Row) (s t : Progress D) → import_rows im rows s ≡ inl t → IsRefused rows
    unfolding import_rows
    import_rows-IsRefused [] s t e = absurd (let z : ⊥ = cc in z)
    import_rows-IsRefused (row ∷ rows) s t e =
        elim (⊎-cases (import_row im row (decide im row.parent s) s)) [
          | inl (x, g) ↦
              let (parentid, d, f) = import_row-refused row (decide im row.parent s) s x g in
              record {
                position = 0;
                row = row;
                placed = refl;
                parentid = parentid;
                database = d;
                refused = f;
              }
          | inr (mid, g) ↦
              let y : import_rows im (row ∷ rows) s ≡ import_rows im rows mid =
                rw (g, import_rows) refl in
              let r = import_rows-IsRefused rows mid t (cc (y, e)) in
              record {
                position = suc r.position;
                row = r.row;
                placed = r.placed;
                parentid = r.parentid;
                database = r.database;
                refused = r.refused;
              }
        ]

    abbrev pub beginning : D → Progress D
    beginning d = record { uuids = []; skipparents = []; database = d }

    parsetree-IsImported :
        (tree : Tree) (d : D) (t : Progress D)
        → import_rows im (parsetree tree none []) (beginning d) ≡ inr t
        → All (IsImported t.uuids) (parsetree tree none [])
    parsetree-IsImported tree d t e =
        let (n, placed) = parsetree-IsPlaced tree in
        let start : Progress D = record { uuids = []; skipparents = []; database = d } in
        let next : IsNext 0 (parsetree tree none []) = record {
          placed = λ i row m.
              let (a, b) = placed.placed i row m in
              let z : i ≡ 0 + i = omega arith in
              (omega (arith, a), subst (λ j. IsBefore j row.parent) z b);
        } in
        let (done, kept) =
          import_rows_lem 0 (parsetree tree none []) start t next refl
            (λ p l. absurd (omega (arith, l))) e in
        done

    -- Where the database never says that an object is there already and the texts of two numbers differ: the
    -- loop of handleGetConfig over the rows that parsetree makes either throws, and then createObject has
    -- refused one of them; or it has created each row, and the row's uuid stands under its position; a row whose
    -- parent is in the tree has been created under the uuid of that parent, and one without a parent at the
    -- root.
    pub import_rows-IsImported :
        (tree : Tree) (d : D)
        → ((t : Progress D) × (import_rows im (parsetree tree none []) (beginning d) ≡ inl t)
            × IsRefused (parsetree tree none []))
          ⊎ ((t : Progress D) × (import_rows im (parsetree tree none []) (beginning d) ≡ inr t)
              × All (IsImported t.uuids) (parsetree tree none []))
    import_rows-IsImported tree d =
        elim (⊎-cases (import_rows im (parsetree tree none []) (beginning d))) [
          | inl (t, e) ↦
              inl (t, e, import_rows-IsRefused (parsetree tree none []) (beginning d) t e)
          | inr (t, e) ↦ inr (t, e, parsetree-IsImported tree d t e)
        ]
