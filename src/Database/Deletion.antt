-- ===== src/Database/Deletion.antt =====
-- A deletion in two steps: deleteObject empties the row, reportSuccess takes it out.
use openpanel_opencore.Prelude.{
  ℕ, Bool, false, not, ◌||◌, All, String, ◌≡◌, ◌≢◌, refl, subst, ◌∙◌, true, ◌==◌, none, some, List,
  [], ◌∷◌, arith, eqb, if◌then◌else◌, Bool-cases, Option-cases, inl, inr, eq_iff, eq_refl,
}
use openpanel_opencore.Database.Tables.{Object, by_id, by_uuid, find_local_id}
use openpanel_opencore.Database.Access.{
  Backend, Manager, check_field_list, find_class_id, class_name, metaid_text,
}
use openpanel_opencore.Database.Insert.{conflicts}
use openpanel_opencore.Database.Update.{
  write, displace, replace, purge, store_update, update_object, delete_object, report_success,
}

-- The constraints on the table: ids are positive and neither an id nor a uuid stands twice.
abbrev pub IsKeyed : List Object → Type 0
IsKeyed [] = Unit
IsKeyed (o ∷ rest) =
    (o.id ≢ 0) × (by_id o.id rest ≡ none) × (by_uuid o.uuid rest ≡ none) × IsKeyed rest

by_uuid-uuid :
    (uuid : String) (xs : List Object) (o : Object) → by_uuid uuid xs ≡ some o → o.uuid ≡ uuid
unfolding by_uuid
by_uuid-uuid uuid [] o e = cc
by_uuid-uuid uuid (x ∷ xs) o e = ground (arith, by_uuid-uuid uuid xs o, (eq_iff x.uuid uuid).0)

-- An id and a uuid lead to one row.
pub by_id-by_uuid :
    (uuid : String) (xs : List Object) (o : Object)
    → IsKeyed xs
    → by_uuid uuid xs ≡ some o
    → (o.id ≢ 0) × (by_id o.id xs ≡ some o)
unfolding by_uuid by_id
by_id-by_uuid uuid [] o k e = cc
by_id-by_uuid uuid (x ∷ xs) o (p, q, r, k) e = ground (arith, by_id-by_uuid uuid xs o k)

by_uuid-by_id :
    (u : ℕ) (xs : List Object) (o : Object)
    → IsKeyed xs
    → by_id u xs ≡ some o
    → by_uuid o.uuid xs ≡ some o
unfolding by_uuid by_id
by_uuid-by_id u [] o k e = cc
by_uuid-by_id u (x ∷ xs) o (p, q, r, k) e =
    grind (arith, by_uuid-by_id u xs o k, eq_refl x.uuid, eq_iff x.uuid o.uuid)

by_uuid-write :
    (v : String) (new : Object) (xs : List Object) (o : Object)
    → IsKeyed xs
    → by_id new.id xs ≡ some o
    → o.uuid ≡ new.uuid
    → by_uuid v (write new xs) ≡ (if new.uuid == v then some new else by_uuid v xs)
unfolding by_uuid by_id write
by_uuid-write v new [] o k e same = cc
by_uuid-write v new (x ∷ xs) o (p, q, r, k) e same = elim (Bool-cases (eqb x.id new.id)) [
  | inl h ↦ rw (h, write, by_uuid) (grind arith)
  | inr h ↦
      rw (h, write, by_uuid)
        (grind (
          arith,
          by_uuid-write v new xs o k,
          by_uuid-by_id new.id xs o k,
          eq_iff x.uuid v,
          eq_iff new.uuid v,
        ))
]

by_id-write-none :
    (u : ℕ) (new : Object) (xs : List Object) → by_id u xs ≡ none → by_id u (write new xs) ≡ none
unfolding by_id write
by_id-write-none u new [] e = refl
by_id-write-none u new (x ∷ xs) e = ground (arith, by_id-write-none u new xs)

-- A row that is written in place keeps the constraints.
IsKeyed-write :
    (new : Object) (xs : List Object) (o : Object)
    → IsKeyed xs
    → by_id new.id xs ≡ some o
    → o.uuid ≡ new.uuid
    → IsKeyed (write new xs)
unfolding by_uuid by_id write
IsKeyed-write new [] o k e same = tt
IsKeyed-write new (x ∷ xs) o (p, q, r, k) e same = elim (Bool-cases (eqb x.id new.id)) [
  | inl h ↦ rw (h, write) (ground arith, ground arith, grind arith, k)
  | inr h ↦
      rw (h, write)
        (
          p,
          by_id-write-none x.id new xs q,
          by_uuid-write x.uuid new xs o k (ground arith) same
              ∙ grind (arith, r, by_uuid-by_id new.id xs o k, eq_iff new.uuid x.uuid),
          IsKeyed-write new xs o k (ground arith) same,
        )
]

by_uuid-purge :
    (v uuid : String) (xs : List Object) → v ≢ uuid → by_uuid v (purge uuid xs) ≡ by_uuid v xs
unfolding by_uuid purge
by_uuid-purge v uuid [] n = refl
by_uuid-purge v uuid (x ∷ xs) n =
    grind (arith, by_uuid-purge v uuid xs n, eq_iff x.uuid v, eq_iff x.uuid uuid)

purge_absent :
    (uuid : String) (xs : List Object)
    → by_uuid uuid xs ≡ none
    → by_uuid uuid (purge uuid xs) ≡ none
unfolding by_uuid purge
purge_absent uuid [] n = refl
purge_absent uuid (x ∷ xs) n = ground (arith, purge_absent uuid xs)

purge_emptied :
    (uuid : String) (xs : List Object) (o : Object)
    → IsKeyed xs
    → by_uuid uuid xs ≡ some o
    → (o.content == "") ≡ true
    → by_uuid uuid (purge uuid xs) ≡ none
unfolding by_uuid purge
purge_emptied uuid [] o k e c = refl
purge_emptied uuid (x ∷ xs) o (p, q, r, k) e c =
    grind (arith, purge_emptied uuid xs o k, purge_absent uuid xs, eq_iff x.uuid uuid)

-- UNIQUE (uuid) and UNIQUE (metaid, uniquecontext), as createObject sees to them: no two rows conflict, and a
-- row that has a uniquecontext has a metaid.
abbrev is_clear : Backend → Object → Object → Bool
is_clear b x y = eqb y.id x.id || not (conflicts b x (y ∷ []))

abbrev is_named : Object → Bool
is_named o = elim o.uniquecontext [
  | none ↦ true
  | some c ↦ elim o.metaid [ none ↦ false | some t ↦ true ]
]

abbrev pub IsUnique : Backend → List Object → Type 0
IsUnique b xs = All (λ x. (is_named x ≡ true) × All (λ y. is_clear b x y ≡ true) xs) xs

All-by_id :
    (P : Object → Type 0) (u : ℕ) (xs : List Object) (o : Object)
    → All P xs
    → by_id u xs ≡ some o
    → P o
unfolding by_id
All-by_id P u [] o h e = cc
All-by_id P u (x ∷ xs) o (p, h) e = elim (Bool-cases (eqb x.id u)) [
  | inl f ↦ let same : x ≡ o = ground arith in subst P same p
  | inr f ↦ All-by_id P u xs o h (ground arith)
]

-- The row that a deletion leaves until reportSuccess.
abbrev emptied : Backend → String → ℕ → Object → Object
emptied b uuid classid o = record o {
  uuid = uuid;
  class = classid;
  metaid = some (metaid_text b o.metaid);
  content = "";
}

-- It conflicts with what the row that was there conflicts with.
conflicts-emptied :
    (b : Backend) (uuid : String) (classid : ℕ) (o y : Object)
    → o.uuid ≡ uuid
    → is_named o ≡ true
    → is_clear b o y ≡ true
    → is_clear b (emptied b uuid classid o) y ≡ true
unfolding conflicts
conflicts-emptied b uuid classid o y e n h = elim (Option-cases o.metaid) [
  | inr (t, f) ↦ ground (arith, f)
  | inl f ↦ elim (Option-cases o.uniquecontext) [
    | inr (c, g) ↦ absurd (ground (arith, f, g))
    | inl g ↦ ground (arith, f, g)
  ]
]

displace_none :
    (b : Backend) (new : Object) (xs : List Object)
    → All (λ y. is_clear b new y ≡ true) xs
    → displace b new xs ≡ xs
unfolding displace
displace_none b new [] h = refl
displace_none b new (x ∷ xs) (p, h) = ground (arith, displace_none b new xs h)

All-imp :
    (P Q : Object → Type 0) (xs : List Object) → ((o : Object) → P o → Q o) → All P xs → All Q xs
All-imp P Q [] f h = tt
All-imp P Q (x ∷ xs) f (p, h) = (f x p, All-imp P Q xs f h)

displace-emptied :
    (b : Backend) (uuid : String) (classid u : ℕ) (o : Object) (xs : List Object)
    → IsUnique b xs
    → by_id u xs ≡ some o
    → o.uuid ≡ uuid
    → replace b (emptied b uuid classid o) xs ≡ write (emptied b uuid classid o) xs
unfolding replace
displace-emptied b uuid classid u o xs h e same =
    let (n, c) =
      All-by_id (λ x. (is_named x ≡ true) × All (λ y. is_clear b x y ≡ true) xs) u xs o h e in
    rw
      (displace_none b (emptied b uuid classid o) xs (
        All-imp (λ y. is_clear b o y ≡ true) _ xs
          (λ y k. conflicts-emptied b uuid classid o y same n k) c))
      refl

-- What deleteObject has written where it returns true for an object that is there.
delete_writes :
    (b : Backend) (uuid : String) (asgod : Bool) (m : Manager)
    → (delete_object b uuid asgod m).0 ≡ true
    → find_local_id uuid m.tables.objects ≢ 0
    → (o : Object) × (classid : ℕ) × (by_id (find_local_id uuid m.tables.objects) m.tables.objects
        ≡ some o)
      × ((delete_object b uuid asgod m).1.tables.objects
          ≡ replace b (emptied b uuid classid o) m.tables.objects)
unfolding delete_object update_object store_update check_field_list
delete_writes b uuid asgod m h n =
    elim (Option-cases (by_id (find_local_id uuid m.tables.objects) m.tables.objects)) [
      | inl e ↦ absurd (ground (arith, e))
      | inr (o, e) ↦
          let classid = find_class_id b (class_name b o.class m.tables) m.tables in
          (o, classid, e, ground (arith, e))
    ]

by_uuid-find_local_id :
    (uuid : String) (xs : List Object) (o : Object)
    → IsKeyed xs
    → find_local_id uuid xs ≢ 0
    → by_id (find_local_id uuid xs) xs ≡ some o
    → (o.uuid ≡ uuid) × (o.id ≡ find_local_id uuid xs)
unfolding find_local_id
by_uuid-find_local_id uuid xs o k n e = elim (Option-cases (by_uuid uuid xs)) [
  | inl f ↦ absurd (ground (arith, f))
  | inr (x, f) ↦
      let (p, g) = by_id-by_uuid uuid xs x k f in
      let name = by_uuid-uuid uuid xs x f in ground (arith, f)
]

-- What by_uuid finds after deleteObject: the emptied row under the uuid, all else as before.
by_uuid-delete :
    (b : Backend) (uuid : String) (asgod : Bool) (m : Manager)
    → IsKeyed m.tables.objects
    → IsUnique b m.tables.objects
    → (delete_object b uuid asgod m).0 ≡ true
    → find_local_id uuid m.tables.objects ≢ 0
    → IsKeyed (delete_object b uuid asgod m).1.tables.objects
      × (new : Object) × (new.content ≡ "")
      × ((v : String)
          → by_uuid v (delete_object b uuid asgod m).1.tables.objects
            ≡ (if uuid == v then some new else by_uuid v m.tables.objects))
by_uuid-delete b uuid asgod m k u h n =
    let xs = m.tables.objects in
    let (o, classid, e, stored) = delete_writes b uuid asgod m h n in
    let new = emptied b uuid classid o in
    let (named, found) = by_uuid-find_local_id uuid xs o k n e in
    let there : by_id new.id xs ≡ some o = rw found e in
    let written = displace-emptied b uuid classid (find_local_id uuid xs) o xs u e named in
    (
      rw (stored, written) (IsKeyed-write new xs o k there named),
      new,
      refl,
      λ v. rw (stored, written) (by_uuid-write v new xs o k there named),
    )

-- deleteObject and then reportSuccess on an object that is there, where no id and no uuid stands twice, no
-- two rows conflict and a row with a uniquecontext has a metaid: where deleteObject says yes, the object is
-- gone and every other object is found as before.
pub delete-report :
    (b : Backend) (uuid v : String) (asgod : Bool) (m : Manager)
    → IsKeyed m.tables.objects
    → IsUnique b m.tables.objects
    → (delete_object b uuid asgod m).0 ≡ true
    → find_local_id uuid m.tables.objects ≢ 0
    → by_uuid v (report_success uuid (delete_object b uuid asgod m).1).1.tables.objects
      ≡ (if uuid == v then none else by_uuid v m.tables.objects)
unfolding report_success
delete-report b uuid v asgod m k u h n =
    let m' = (delete_object b uuid asgod m).1 in
    let (k', new, empty, after) = by_uuid-delete b uuid asgod m k u h n in
    elim (Bool-cases (uuid == v)) [
      | inl e ↦
          let same : uuid ≡ v = (eq_iff uuid v).0 e in
          let gone =
            purge_emptied uuid m'.tables.objects new k' (after uuid ∙ rw (eq_refl uuid) refl)
              (rw empty refl) in
          rw e (subst (λ w. by_uuid w (purge uuid m'.tables.objects) ≡ none) same gone)
      | inr e ↦ rw e (
          by_uuid-purge v uuid m'.tables.objects (λ w. grind (arith, eq_iff uuid v))
          ∙ after v
          ∙ rw e refl)
    ]
