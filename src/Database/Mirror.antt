-- ===== src/Database/Mirror.antt =====
-- createObject keeps the power mirror in step with the owners.
use mathlib.Core.List.{append-nil}
use openpanel_opencore.Prelude.{
  ℕ, zero, suc, String, ◌≡◌, ◌≢◌, refl, true, false, not, ◌&&◌, ◌||◌, ◌==◌, Option, none, some,
  List, [], ◌∷◌, ◌++◌, arith, ◌∙◌, sym, Bool-cases, Option-cases, List-cases, OnSome, inl, inr,
}
use openpanel_opencore.Database.Tables.{Object, Tables, by_id, by_uuid, find_local_id, mirrored}
use openpanel_opencore.Database.Access.{
  Backend, ClassData, Manager, find_object, user_is_gone, check_field_list, find_class_id,
  get_class_data,
}
use openpanel_opencore.Database.Insert.{
  NewObject, with_id, conflicts, insert_object, copy_row, copy_children, copy_prototype, children,
  unique_context,
}
use openpanel_opencore.Database.Create.{
  Request, mirror_user, commit_object, instantiate, store_object, check_and_store, check_parent,
  place_object, create_object, check_singleton, parent_row, parent_id, parent_owner, owner_or_none,
  prototypes, new_row,
}
use openpanel_opencore.Database.Powers.{IsMirror, grown, object-IsMirror, user-IsMirror}
use openpanel_opencore.Database.Frame.{
  Frame, Frame-trans, Frame-user_is_gone, Frame-find_object, Frame-check_field_list,
  Frame-check_parent,
}

-- What a finished call leaves behind.
abbrev pub Leaves : Option (Option String × Manager) → Type 0
Leaves = OnSome (λ res. IsMirror res.1.tables)

pub by_uuid-append :
    (uuid : String) (xs ys : List Object)
    → by_uuid uuid (xs ++ ys) ≡ elim (by_uuid uuid xs) [ none ↦ by_uuid uuid ys | some o ↦ some o ]
unfolding by_uuid
by_uuid-append uuid [] ys = refl
by_uuid-append uuid (x ∷ xs) ys = ground (arith, by_uuid-append uuid xs ys)

find_local_id-append :
    (uuid : String) (xs ys : List Object)
    → find_local_id uuid xs ≢ 0
    → find_local_id uuid (xs ++ ys) ≡ find_local_id uuid xs
unfolding find_local_id
find_local_id-append uuid xs ys h = ground (arith, by_uuid-append uuid xs ys)

module _ (b : Backend) where
  insert-IsMirror :
      (v : NewObject) (t : Tables) → IsMirror t → OnSome IsMirror (insert_object b v t)
  unfolding insert_object
  insert-IsMirror v t h = ground (arith, object-IsMirror t (with_id b t.next_id v) h refl)

  copy_children-IsMirror :
      (copy : ℕ → Manager → Option (Option String × Manager)) (res : String) (ids : List ℕ)
      (m : Manager)
      → ((id : ℕ) (m : Manager) → IsMirror m.tables → Leaves (copy id m))
      → IsMirror m.tables
      → Leaves (copy_children copy res ids m)
  unfolding copy_children
  copy_children-IsMirror copy res [] m f h = h
  copy_children-IsMirror copy res (id ∷ rest) m f h = elim (Option-cases (copy id m)) [
    | inl e ↦ rw (e, copy_children) tt
    | inr (r, e) ↦
        let k : IsMirror r.1.tables = rw e at (f id m h) in
        elim (Option-cases r.0) [
          | inl n ↦ rw (e, copy_children, n) k
          | inr (child, n) ↦ rw (e, copy_children, n) (copy_children-IsMirror copy res rest r.1 f k)
        ]
  ]

  copy_prototype-IsMirror :
      (fuel fromid parentid ownerid : ℕ) (repl : String) (members : List (String × String))
      (m : Manager)
      → IsMirror m.tables
      → Leaves (copy_prototype b fuel fromid parentid ownerid repl members m)
  unfolding copy_prototype
  copy_prototype-IsMirror zero fromid parentid ownerid repl members m h = tt
  copy_prototype-IsMirror (suc fuel) fromid parentid ownerid repl members m h =
      let t = m.tables in
      elim (Option-cases (by_id fromid t.objects)) [
        | inl e ↦ rw (e, copy_prototype) h
        | inr (from, e) ↦ elim (Option-cases (by_id from.class t.objects)) [
          | inl f ↦ rw (e, f, copy_prototype) h
          | inr (class, f) ↦ elim (Option-cases (copy_row b from parentid ownerid repl members t)) [
            | inl g ↦ rw (e, f, g, copy_prototype) h
            | inr (v, g) ↦ elim (Option-cases (insert_object b v t)) [
              | inl i ↦ rw (e, f, g, i, copy_prototype) h
              | inr (t', i) ↦
                  rw (e, f, g, i, copy_prototype)
                    (copy_children-IsMirror _ v.uuid (children fromid t'.objects)
                      (record m { tables = t' })
                      (λ id m'. copy_prototype-IsMirror fuel id t.next_id ownerid repl [] m')
                      (rw i at (insert-IsMirror v t h)))
            ]
          ]
        ]
      ]

  place-IsMirror :
      (fuel : ℕ) (r : Request) (cd : ClassData) (row : Option (ℕ × ℕ)) (v : NewObject) (m : Manager)
      → IsMirror m.tables
      → Leaves (check_and_store b fuel r cd row v m)
      → Leaves (place_object b fuel r cd row v m)
  unfolding place_object
  place-IsMirror fuel r cd row v m h k = ground arith

  -- The session's user is in the tables and in the mirror.
  pub record LoggedIn (m : Manager) : Type 0 where
    pub present : find_local_id m.useruuid m.tables.objects ≢ 0
    pub user :
        mirrored
          (find_local_id m.useruuid m.tables.objects)
          (find_local_id m.useruuid m.tables.objects)
          m.tables.powermirror
        ≡ true

  -- A user is owned by the user who makes it.
  abbrev OwnedByMaker : String → NewObject → Manager → Type 0
  OwnedByMaker ofclass v m =
      (ofclass == "User") ≡ true → v.owner ≡ find_local_id m.useruuid m.tables.objects

  useruuid_some :
      (uuid : String) (objects : List Object)
      → find_local_id uuid objects ≢ 0
      → (uuid == "") ≡ false
  unfolding find_local_id
  useruuid_some uuid objects h = ground arith

  mirror_user-IsMirror :
      (ofclass : String) (v : NewObject) (m : Manager) (h : IsMirror m.tables)
      → LoggedIn m
      → OwnedByMaker ofclass v m
      → IsMirror (
          mirror_user ofclass m.useruuid m.tables.next_id
            (grown m.tables (with_id b m.tables.next_id v) h refl))
  unfolding mirror_user
  mirror_user-IsMirror ofclass v m h l w =
      let t = m.tables in
      let o = with_id b t.next_id v in
      elim (Bool-cases (ofclass == "User")) [
        | inr e ↦ rw (e, mirror_user) (object-IsMirror t o h refl)
        | inl e ↦
            let found = find_local_id-append m.useruuid t.objects (o ∷ []) l.present ∙ sym (w e) in
            rw (e, mirror_user, found, useruuid_some m.useruuid t.objects l.present, append-nil)
              (user-IsMirror t o h refl (rw (w e) l.present) (rw (w e) l.user))
      ]

  commit-IsMirror :
      (ofclass : String) (v : NewObject) (m : Manager)
      → IsMirror m.tables
      → LoggedIn m
      → OwnedByMaker ofclass v m
      → IsMirror (commit_object b ofclass v m).1.tables
  unfolding commit_object
  commit-IsMirror ofclass v m h l w =
      elim (Bool-cases (conflicts b (with_id b m.tables.next_id v) m.tables.objects)) [
        | inl e ↦ rw (e, commit_object, insert_object) h
        | inr e ↦ rw (e, commit_object, insert_object) (mirror_user-IsMirror ofclass v m h l w)
      ]

  instantiate-IsMirror :
      (fuel : ℕ) (r : Request) (row : Option (ℕ × ℕ)) (id : ℕ) (v : NewObject) (m : Manager)
      → r.immediate ≡ false
      → IsMirror m.tables
      → Leaves (instantiate b fuel r row id v m)
  unfolding instantiate
  instantiate-IsMirror fuel r row id v m n h =
      let owner = owner_or_none (parent_owner row) in
      let copied = copy_prototype-IsMirror fuel id (parent_id row) owner r.metaid v.members m h in
      elim (Option-cases (copy_prototype b fuel id (parent_id row) owner r.metaid v.members m)) [
        | inl e ↦ rw (e, instantiate) tt
        | inr (res, e) ↦ rw (e, instantiate, n) (rw e at copied)
      ]

  store-IsMirror :
      (fuel : ℕ) (r : Request) (cd : ClassData) (row : Option (ℕ × ℕ)) (v : NewObject) (m : Manager)
      → r.immediate ≡ false
      → IsMirror m.tables
      → LoggedIn m
      → OwnedByMaker r.ofclass v m
      → Leaves (store_object b fuel r cd row v m)
  unfolding store_object
  store-IsMirror fuel r cd row v m n h l w =
      let commit = commit-IsMirror r.ofclass v m h l w in
      let proto = λ (id : ℕ). instantiate-IsMirror fuel r row id v m n h in
      elim (Option-cases cd.magicdelimiter) [
        | inl e ↦ rw (e, store_object) commit
        | inr (d, e) ↦ elim (Bool-cases (not (d == "$") || not (cd.prototype == "prototype"))) [
          | inl k ↦ rw (e, k, store_object) h
          | inr k ↦ elim (List-cases (prototypes b v.class m.tables.objects)) [
            | inl p ↦ rw (e, k, p, store_object) commit
            | inr (inl (id, p)) ↦ rw (e, k, p, store_object) (proto id)
            | inr (inr (id, x, y, p)) ↦ rw (e, k, p, store_object) commit
          ]
        ]
      ]

  LoggedIn-Frame : {m m' : Manager} → Frame m m' → LoggedIn m → LoggedIn m'
  LoggedIn-Frame f l = record {
    present = rw (f.tables, f.useruuid) l.present;
    user = rw (f.tables, f.useruuid) l.user;
  }

  IsMirror-Frame : {m m' : Manager} → Frame m m' → IsMirror m.tables → IsMirror m'.tables
  IsMirror-Frame f h = rw f.tables h

  check-IsMirror :
      (fuel : ℕ) (r : Request) (cd : ClassData) (row : Option (ℕ × ℕ)) (v : NewObject) (m : Manager)
      → r.immediate ≡ false
      → IsMirror m.tables
      → LoggedIn m
      → OwnedByMaker r.ofclass v m
      → Leaves (check_and_store b fuel r cd row v m)
  unfolding check_and_store
  check-IsMirror fuel r cd row v m n h l w =
      let m' = (check_parent b cd r.metaid r.parent (parent_id row) m).1 in
      let f : Frame m m' = Frame-check_parent b cd r.metaid r.parent (parent_id row) m in
      let k : IsMirror m'.tables = IsMirror-Frame f h in
      let stored =
        store-IsMirror fuel r cd row v m' n k (LoggedIn-Frame f l)
          (λ e. w e ∙ rw (f.tables, f.useruuid) refl) in
      elim (Bool-cases r.permcheck) [
        | inl e ↦ rw (e, check_and_store) h
        | inr e ↦ elim (Bool-cases (check_singleton cd r.metaid)) [
          | inr s ↦ rw (e, s, check_and_store) h
          | inl s ↦ elim (Bool-cases (check_parent b cd r.metaid r.parent (parent_id row) m).0) [
            | inl p ↦ rw (e, s, p, check_and_store) stored
            | inr p ↦ rw (e, s, p, check_and_store) k
          ]
        ]
      ]

  -- Whatever a finished createObject does, for a user who is logged in, the mirror answers as the
  -- owners do before and after: where the call is not immediate, and where a new user has no parent.
  pub create_object-IsMirror :
      (fuel : ℕ) (uuid : String) (r : Request) (m : Manager)
      → IsMirror m.tables
      → LoggedIn m
      → r.immediate ≡ false
      → ((r.ofclass == "User") ≡ true → r.parent ≡ "")
      → Leaves (create_object b fuel uuid r m)
  unfolding create_object
  create_object-IsMirror fuel uuid r m h l n w =
      let t = m.tables in
      let m1 = (user_is_gone b m).1 in
      let f1 : Frame m m1 = Frame-user_is_gone b m in
      let classid = find_class_id b r.ofclass t in
      let cd = get_class_data b classid t in
      let m2 = (check_field_list b cd r.members m1).1 in
      let f2 : Frame m m2 = Frame-trans f1 (Frame-check_field_list b cd r.members m1) in
      let m3 = (find_object b "" "Class" "" r.ofclass m2).1 in
      let f3 : Frame m m3 = Frame-trans f2 (Frame-find_object b "" "Class" "" r.ofclass m2) in
      let row = parent_row r.parent t in
      elim (Bool-cases (r.metaid == "$prototype$" && not m.god)) [
        | inl e ↦ rw (e, create_object) h
        | inr e ↦ elim (Bool-cases (user_is_gone b m).0) [
          | inl g ↦ rw (e, g, create_object) (IsMirror-Frame f1 h)
          | inr g ↦ elim (Option-cases (check_field_list b cd r.members m1).0) [
            | inl c ↦ rw (e, g, c, create_object) (IsMirror-Frame f2 h)
            | inr (members, c) ↦
                elim (Option-cases (unique_context b cd classid (parent_id row) t)) [
                  | inl u ↦ rw (e, g, c, u, create_object) (IsMirror-Frame f3 h)
                  | inr (context, u) ↦
                      let v =
                        new_row uuid r classid context members row
                          (find_local_id m.useruuid t.objects) in
                      let k : IsMirror m3.tables = IsMirror-Frame f3 h in
                      rw (e, g, c, u, create_object)
                        (place-IsMirror fuel r cd row v m3 k (
                          check-IsMirror fuel r cd row v m3 n k (LoggedIn-Frame f3 l)
                            (λ x. rw (f3.tables, f3.useruuid, w x) refl)))
                ]
          ]
        ]
      ]
