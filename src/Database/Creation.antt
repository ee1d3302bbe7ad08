-- ===== src/Database/Creation.antt =====
-- What createObject does where no prototype is involved: it refuses and changes no table, or it appends
-- one row that the checks have passed.
use openpanel_opencore.Prelude.{
  ℕ, suc, String, ◌<◌, ◌≡◌, refl, ap, ◌∙◌, true, false, not, ◌&&◌, ◌==◌, Option, none, some, List,
  [], ◌∷◌, ◌++◌, arith, is_zero, Bool-cases, Option-cases, ◌⊎◌, inl, inr,
}
use openpanel_opencore.Database.Tables.{Tables, find_local_id, has_power}
use openpanel_opencore.Database.Access.{
  Backend, ClassData, Manager, find_object, user_is_gone, check_field_list, find_class_id,
  get_class_data,
}
use openpanel_opencore.Database.Insert.{
  NewObject, with_id, conflicts, insert_object, unique_context,
}
use openpanel_opencore.Database.Quota.{QuotaReply, get_user_quota}
use openpanel_opencore.Database.Create.{
  Request, mirror_user, commit_object, store_object, check_and_store, check_parent, check_singleton,
  place_object, create_object, parent_row, parent_id, over_quota, new_row,
}
use openpanel_opencore.Database.Frame.{
  Frame, Frame-trans, Frame-user_is_gone, Frame-find_object, Frame-check_field_list,
  Frame-check_parent,
}
use openpanel_opencore.Database.Limits.{OwnersFall, get_user_quota-IsTightest}

-- A call that returns, with what holds of its result.
abbrev pub Returns : (Option String → Manager → Type 0) → Option (Option String × Manager) → Type 0
Returns P none = ⊥
Returns P (some (res, m')) = P res m'

module _ (b : Backend) where
  pub record Appends (v : NewObject) (m m' : Manager) : Type 0 where
    pub objects : m'.tables.objects ≡ m.tables.objects ++ with_id b m.tables.next_id v ∷ []
    pub next : m'.tables.next_id ≡ suc m.tables.next_id
    pub fresh : conflicts b (with_id b m.tables.next_id v) m.tables.objects ≡ false

  abbrev pub Outcome : NewObject → Manager → Option String → Manager → Type 0
  Outcome v m none m' = m'.tables ≡ m.tables
  Outcome v m (some u) m' = (u ≡ v.uuid) × Appends v m m'

  mirror_user_objects :
      (ofclass useruuid : String) (id : ℕ) (t : Tables)
      → (mirror_user ofclass useruuid id t).objects ≡ t.objects
  unfolding mirror_user
  mirror_user_objects ofclass useruuid id t = ground arith

  mirror_user_next :
      (ofclass useruuid : String) (id : ℕ) (t : Tables)
      → (mirror_user ofclass useruuid id t).next_id ≡ t.next_id
  unfolding mirror_user
  mirror_user_next ofclass useruuid id t = ground arith

  commit-Outcome :
      (ofclass : String) (v : NewObject) (m : Manager)
      → Returns (Outcome v m) (some (commit_object b ofclass v m))
  unfolding commit_object insert_object
  commit-Outcome ofclass v m =
      elim (Bool-cases (conflicts b (with_id b m.tables.next_id v) m.tables.objects)) [
        | inl e ↦ rw (e, commit_object, insert_object) refl
        | inr e ↦
            rw (e, commit_object, insert_object)
              (
                refl,
                record {
                  objects = mirror_user_objects ofclass m.useruuid m.tables.next_id _;
                  next = mirror_user_next ofclass m.useruuid m.tables.next_id _;
                  fresh = e;
                },
              )
      ]

  Appends-Frame :
      (v : NewObject) {m m' m'' : Manager} → Frame m m' → Appends v m' m'' → Appends v m m''
  Appends-Frame v f h = record {
    objects = rw (← f.tables) h.objects;
    next = rw (← f.tables) h.next;
    fresh = rw (← f.tables) h.fresh;
  }

  Outcome-Frame :
      (v : NewObject) {m m' : Manager}
      → Frame m m'
      → (x : Option (Option String × Manager)) → Returns (Outcome v m') x
      → Returns (Outcome v m) x
  Outcome-Frame v f none h = h
  Outcome-Frame v f (some (none, m'')) h = h ∙ f.tables
  Outcome-Frame v f (some (some u, m'')) (e, h) = (e, Appends-Frame v f h)

  check-Outcome :
      (fuel : ℕ) (r : Request) (cd : ClassData) (row : Option (ℕ × ℕ)) (v : NewObject) (m : Manager)
      → r.permcheck ≡ false
      → cd.magicdelimiter ≡ none
      → Returns (Outcome v m) (check_and_store b fuel r cd row v m)
  unfolding check_and_store store_object
  check-Outcome fuel r cd row v m n d =
      let m' = (check_parent b cd r.metaid r.parent (parent_id row) m).1 in
      let f : Frame m m' = Frame-check_parent b cd r.metaid r.parent (parent_id row) m in
      elim (Bool-cases (check_singleton cd r.metaid)) [
        | inr s ↦ rw (n, s, check_and_store) refl
        | inl s ↦ elim (Bool-cases (check_parent b cd r.metaid r.parent (parent_id row) m).0) [
          | inl p ↦
              rw (n, s, p, d, check_and_store, store_object)
                (Outcome-Frame v f (some (commit_object b r.ofclass v m'))
                  (commit-Outcome r.ofclass v m'))
          | inr p ↦ rw (n, s, p, check_and_store) f.tables
        ]
      ]

  -- What the code asks for before it stores an object.
  pub record Allowed (fuel parentid : ℕ) (ofclass : String) (m : Manager) : Type 0 where
    pub parent :
        (m.god ≡ true)
        ⊎ (parentid ≡ 0)
        ⊎ (has_power parentid (find_local_id m.useruuid m.tables.objects) m.tables ≡ true)
    pub quota :
        (m.god ≡ true)
        ⊎ ((reply : QuotaReply) × (get_user_quota b fuel ofclass "" m ≡ some reply)
            × (over_quota reply ≡ false))

  abbrev pub Permitted : ℕ → ℕ → String → NewObject → Manager → Option String → Manager → Type 0
  Permitted fuel parentid ofclass v m none m' = m'.tables ≡ m.tables
  Permitted fuel parentid ofclass v m (some u) m' =
      (u ≡ v.uuid) × Appends v m m' × Allowed fuel parentid ofclass m

  permit :
      (fuel parentid : ℕ) (ofclass : String) (v : NewObject) (m : Manager)
      → Allowed fuel parentid ofclass m
      → (x : Option (Option String × Manager)) → Returns (Outcome v m) x
      → Returns (Permitted fuel parentid ofclass v m) x
  permit fuel parentid ofclass v m a none h = h
  permit fuel parentid ofclass v m a (some (none, m')) h = h
  permit fuel parentid ofclass v m a (some (some u, m')) (e, h) = (e, h, a)

  place-Permitted :
      (fuel : ℕ) (r : Request) (cd : ClassData) (row : Option (ℕ × ℕ)) (v : NewObject) (m : Manager)
      → OwnersFall m.tables
      → find_local_id m.useruuid m.tables.objects < fuel
      → r.permcheck ≡ false
      → cd.magicdelimiter ≡ none
      → Returns (Permitted fuel (parent_id row) r.ofclass v m) (place_object b fuel r cd row v m)
  unfolding place_object
  place-Permitted fuel r cd row v m o k n d =
      let parentid = parent_id row in
      let user = find_local_id m.useruuid m.tables.objects in
      let (limit, count, q, tight) = get_user_quota-IsTightest b fuel r.ofclass m o k in
      let stored = check-Outcome fuel r cd row v m n d in
      elim (Bool-cases
        (not m.god && not (is_zero parentid) && not (has_power parentid user m.tables))) [
          | inl p ↦ rw (p, place_object) refl
          | inr p ↦ elim (Bool-cases (not m.god && over_quota (QuotaReply.counted limit count))) [
            | inl w ↦ rw (p, q, w, place_object) refl
            | inr w ↦
                let allowed : Allowed fuel parentid r.ofclass m = record {
                  parent = ground (arith, p);
                  quota = elim (Bool-cases m.god) [
                    | inl g ↦ inl g
                    | inr g ↦ inr (QuotaReply.counted limit count, q, ground (arith, w, g))
                  ];
                } in
                rw (p, q, w, place_object)
                  (permit fuel parentid r.ofclass v m allowed (check_and_store b fuel r cd row v m)
                    stored)
          ]
        ]

  -- What the row holds that the request does not give: the checked members, and the context in which the
  -- metaid is unique.
  pub record Checked (r : Request) (m : Manager) (context : Option ℕ)
      (members : List (String × String)) : Type 0 where
    pub fields :
        (check_field_list b
          (get_class_data b (find_class_id b r.ofclass m.tables) m.tables)
          r.members
          (user_is_gone b m).1).0
        ≡ some members
    pub scope :
        unique_context b
          (get_class_data b (find_class_id b r.ofclass m.tables) m.tables)
          (find_class_id b r.ofclass m.tables)
          (parent_id (parent_row r.parent m.tables))
          m.tables
        ≡ some context

  -- What a call with permission to store comes to: nothing is stored, or the row of the request is.
  abbrev pub Created : ℕ → String → Request → Manager → Option String → Manager → Type 0
  Created fuel uuid r m none m' = m'.tables ≡ m.tables
  Created fuel uuid r m (some u) m' =
      (u ≡ uuid)
      × (context : Option ℕ) × (members : List (String × String)) × Checked r m context members
      × Appends
          (new_row uuid r (find_class_id b r.ofclass m.tables) context members
            (parent_row r.parent m.tables) (find_local_id m.useruuid m.tables.objects))
          m m'
      × Allowed fuel (parent_id (parent_row r.parent m.tables)) r.ofclass m

  get_user_quota-Frame :
      (fuel : ℕ) (ofclass : String) {m m3 : Manager}
      → Frame m m3
      → get_user_quota b fuel ofclass "" m3 ≡ get_user_quota b fuel ofclass "" m
  unfolding get_user_quota
  get_user_quota-Frame fuel ofclass {m = m} {m3 = m3} f =
      let reply = λ (t : Tables) (u : String).
        get_user_quota b fuel ofclass ""
          (record { tables = t; god = false; useruuid = u; errorcode = 0 }) in
      ap (λ t. reply t m3.useruuid) f.tables ∙ ap (λ u. reply m.tables u) f.useruuid

  Allowed-Frame :
      (fuel parentid : ℕ) (ofclass : String) {m m3 : Manager}
      → Frame m m3
      → Allowed fuel parentid ofclass m3
      → Allowed fuel parentid ofclass m
  Allowed-Frame fuel parentid ofclass f w = record {
    parent = rw (← f.god, ← f.useruuid, ← f.tables) w.parent;
    quota = rw (← get_user_quota-Frame fuel ofclass f, ← f.god) w.quota;
  }

  Created-Frame :
      (fuel : ℕ) (uuid : String) (r : Request) (context : Option ℕ)
      (members : List (String × String)) {m m3 : Manager}
      → Frame m m3
      → Checked r m context members
      → (x : Option (Option String × Manager))
      → Returns
          (Permitted fuel
            (parent_id (parent_row r.parent m.tables))
            r.ofclass
            (new_row uuid r
              (find_class_id b r.ofclass m.tables)
              context
              members
              (parent_row r.parent m.tables)
              (find_local_id m.useruuid m.tables.objects))
            m3)
          x
      → Returns (Created fuel uuid r m) x
  Created-Frame fuel uuid r context members f c none h = h
  Created-Frame fuel uuid r context members f c (some (none, m')) h = h ∙ f.tables
  Created-Frame fuel uuid r context members {m = m} f c (some (some u, m')) (e, a, w) = (
    e,
    context,
    members,
    c,
    Appends-Frame _ f a,
    Allowed-Frame fuel (parent_id (parent_row r.parent m.tables)) r.ofclass f w,
  )

  -- createObject without `permcheck` on a class without `magicdelimiter`, with fuel beyond the user's id,
  -- where the owners were made in order: it returns; where it returns no uuid the tables are as before; otherwise the
  -- uuid is the new one, one row is appended as the request says, with the parent's owner or the user
  -- as its owner, no constraint is broken, and without god mode the user has power over the parent and
  -- quota left.
  pub create_object-Created :
      (fuel : ℕ) (uuid : String) (r : Request) (m : Manager)
      → OwnersFall m.tables
      → find_local_id m.useruuid m.tables.objects < fuel
      → r.permcheck ≡ false
      → (get_class_data b (find_class_id b r.ofclass m.tables) m.tables).magicdelimiter ≡ none
      → Returns (Created fuel uuid r m) (create_object b fuel uuid r m)
  unfolding create_object
  create_object-Created fuel uuid r m o k n d =
      let t = m.tables in
      let m1 = (user_is_gone b m).1 in
      let f1 : Frame m m1 = Frame-user_is_gone b m in
      let classid = find_class_id b r.ofclass t in
      let cd = get_class_data b classid t in
      let m2 = (check_field_list b cd r.members m1).1 in
      let f2 : Frame m m2 = Frame-trans f1 (Frame-check_field_list b cd r.members m1) in
      let m3 = (find_object b "" "Class" "" r.ofclass m2).1 in
      let f3 : Frame m m3 = Frame-trans f2 (Frame-find_object b "" "Class" "" r.ofclass m2) in
      let row = parent_row r.parent t in
      elim (Bool-cases (r.metaid == "$prototype$" && not m.god)) [
        | inl e ↦ rw (e, create_object) refl
        | inr e ↦ elim (Bool-cases (user_is_gone b m).0) [
          | inl g ↦ rw (e, g, create_object) f1.tables
          | inr g ↦ elim (Option-cases (check_field_list b cd r.members m1).0) [
            | inl c ↦ rw (e, g, c, create_object) f2.tables
            | inr (members, c) ↦
                elim (Option-cases (unique_context b cd classid (parent_id row) t)) [
                  | inl u ↦ rw (e, g, c, u, create_object) f3.tables
                  | inr (context, u) ↦
                      let v =
                        new_row uuid r classid context members row
                          (find_local_id m.useruuid t.objects) in
                      rw (e, g, c, u, create_object)
                        (Created-Frame fuel uuid r context members f3
                          (record { fields = c; scope = u }) (place_object b fuel r cd row v m3)
                          (place-Permitted fuel r cd row v m3 (rw f3.tables o)
                            (rw (f3.tables, f3.useruuid) k) n d))
                ]
          ]
        ]
      ]
