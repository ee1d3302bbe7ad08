-- ===== src/Database/Frame.antt =====
-- The lookups of DBManager change nothing but the error code.
use openpanel_opencore.Prelude.{
  ℕ, String, ◌≡◌, refl, List, [], ◌∷◌, arith, ◌∙◌, inl, inr, Option-cases,
}
use openpanel_opencore.Database.Access.{
  Backend, ClassData, Manager, class_name_from_uuid, find_object, user_is_gone, check_field,
  check_field_list,
}
use openpanel_opencore.Database.Create.{check_parent}

pub record Frame (m m' : Manager) : Type 0 where
  pub tables : m'.tables ≡ m.tables
  pub god : m'.god ≡ m.god
  pub useruuid : m'.useruuid ≡ m.useruuid

pub Frame-refl : (m : Manager) → Frame m m
Frame-refl m = record { tables = refl; god = refl; useruuid = refl }

pub Frame-trans : {m m' m'' : Manager} → Frame m m' → Frame m' m'' → Frame m m''
Frame-trans f g = record {
  tables = g.tables ∙ f.tables;
  god = g.god ∙ f.god;
  useruuid = g.useruuid ∙ f.useruuid;
}

module _ (b : Backend) where
  pub Frame-user_is_gone : (m : Manager) → Frame m (user_is_gone b m).1
  unfolding user_is_gone
  Frame-user_is_gone m = ground arith

  pub Frame-class_name_from_uuid :
      (uuid : String) (m : Manager) → Frame m (class_name_from_uuid b uuid m).1
  unfolding class_name_from_uuid
  Frame-class_name_from_uuid uuid m = ground arith

  pub Frame-find_object :
      (parent ofclass withuuid withmetaid : String) (m : Manager)
      → Frame m (find_object b parent ofclass withuuid withmetaid m).1
  unfolding find_object
  Frame-find_object parent ofclass withuuid withmetaid m = ground arith

  pub Frame-check_field :
      (cd : ClassData) (fid val : String) (m : Manager) → Frame m (check_field b cd fid val m).1
  unfolding check_field
  Frame-check_field cd fid val m = ground arith

  pub Frame-check_field_list :
      (cd : ClassData) (members : List (String × String)) (m : Manager)
      → Frame m (check_field_list b cd members m).1
  unfolding check_field_list
  Frame-check_field_list cd [] m = Frame-refl m
  Frame-check_field_list cd ((fid, val) ∷ rest) m =
      let m' = (check_field b cd fid val m).1 in
      let f : Frame m m' = Frame-check_field cd fid val m in
      let g : Frame m (check_field_list b cd rest m').1 =
        Frame-trans f (Frame-check_field_list cd rest m') in
      elim (Option-cases (check_field b cd fid val m).0) [
        | inl e ↦ rw (e, check_field_list) f
        | inr (v, e) ↦ elim (Option-cases (check_field_list b cd rest m').0) [
          | inl h ↦ rw (e, h, check_field_list) g
          | inr (w, h) ↦ rw (e, h, check_field_list) g
        ]
      ]

  pub Frame-check_parent :
      (cd : ClassData) (metaid parent : String) (parentid : ℕ) (m : Manager)
      → Frame m (check_parent b cd metaid parent parentid m).1
  unfolding check_parent
  Frame-check_parent cd metaid parent parentid m =
      ground (arith, Frame-class_name_from_uuid parent m)
