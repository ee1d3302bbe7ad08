-- ===== src/Modules/Frame.antt =====
-- What the steps of ModuleDB::loadModule leave alone.
use openpanel_opencore.Prelude.{
  ℕ, String, Bool, true, false, ◌≡◌, refl, Option, none, some, List, [], ◌∷◌, ltb, find_key,
  put_key, has_name, find_key-put_fresh, Bool-cases, Option-cases, ⊎-cases, ◌⊎◌, inl, inr, OnBoth,
  and_then-OnBoth, if◌then◌else◌,
}
use openpanel_opencore.Modules.Loading.{
  ClassMeta, ModuleMeta, ModuleDb, Environment, Outcome, register_quotas, enter_class,
  register_in_database, register_each, add_dependency, set_cascades, mark, register_classes,
  configure, caught, note_version, upgrade, check_module_cache, create_staging_directory, register,
}

-- History and list stay, and a class that is registered stays with its module.
pub record IsFrame {D : Type 0} (s t : ModuleDb D) : Type 0 where
  pub history : s.history ≡ t.history
  pub linked : s.linked ≡ t.linked
  pub classes :
      (class owner : String)
      → find_key class s.byclass ≡ some owner
      → find_key class t.byclass ≡ some owner

module _ {D : Type 0} (env : Environment D) where
  abbrev pub S : Type 0
  S = ModuleDb D

  pub refl_IsFrame : (s : S) → IsFrame s s
  refl_IsFrame s = record { history = refl; linked = refl; classes = λ c o e. e }

  pub trans_IsFrame : (s t u : S) → IsFrame s t → IsFrame t u → IsFrame s u
  trans_IsFrame s t u a b = record {
    history = cc (a.history, b.history);
    linked = cc (a.linked, b.linked);
    classes = λ c o e. b.classes c o (a.classes c o e);
  }

  register_quotas-IsFrame :
      (mname : String) (qs : List String) (s : S) → IsFrame s (register_quotas env mname qs s)
  unfolding register_quotas
  register_quotas-IsFrame mname [] s = refl_IsFrame s
  register_quotas-IsFrame mname (q ∷ qs) s =
      let t = record s { byquota = put_key q mname s.byquota } in
      trans_IsFrame s t (register_quotas env mname qs t)
        (record { history = refl; linked = refl; classes = λ c o e. e })
        (register_quotas-IsFrame mname qs t)

  enter_class-IsFrame :
      (mname : String) (c : ClassMeta) (s : S)
      → find_key c.name s.byclass ≡ none
      → IsFrame s (enter_class env mname c s)
  unfolding enter_class
  enter_class-IsFrame mname c s e = record {
    history = refl;
    linked = refl;
    classes = λ k o f. find_key-put_fresh k c.name mname o s.byclass e f;
  }

  pub register_in_database-IsFrame :
      (mname : String) (c : ClassMeta) (s : S)
      → OnBoth (IsFrame s) (IsFrame s) (register_in_database env mname c s)
  unfolding register_in_database
  register_in_database-IsFrame mname c s = elim (Option-cases (env.register_class c s.database)) [
    | inl e ↦ rw (e, OnBoth) (record { history = refl; linked = refl; classes = λ k o f. f })
    | inr (d, e) ↦ rw (e, OnBoth) (record { history = refl; linked = refl; classes = λ k o f. f })
  ]

  widen :
      (s t : S) (r : Outcome env)
      → IsFrame s t
      → OnBoth (IsFrame t) (IsFrame t) r
      → OnBoth (IsFrame s) (IsFrame s) r
  widen s t (inl u) a b = trans_IsFrame s t u a b
  widen s t (inr u) a b = trans_IsFrame s t u a b

  -- The state of the first loop's result.
  abbrev pub After : S → S × List (String × String) → Type 0
  After s (t, deps) = IsFrame s t

  widen_each :
      (s t : S) (r : S ⊎ (S × List (String × String)))
      → IsFrame s t
      → OnBoth (IsFrame t) (After t) r
      → OnBoth (IsFrame s) (After s) r
  widen_each s t (inl u) a b = trans_IsFrame s t u a b
  widen_each s t (inr (u, deps)) a b = trans_IsFrame s t u a b

  pub register_each-IsFrame :
      (mname : String) (cs : List ClassMeta) (deps : List (String × String)) (s : S)
      → OnBoth (IsFrame s) (After s) (register_each env mname cs deps s)
  unfolding register_each
  register_each-IsFrame mname [] deps s = refl_IsFrame s
  register_each-IsFrame mname (c ∷ cs) deps s = elim (Option-cases (find_key c.name s.byclass)) [
    | inr (o, e) ↦ rw (e, OnBoth) (record { history = refl; linked = refl; classes = λ k o f. f })
    | inl e ↦
        let t = enter_class env mname c s in
        rw (e, OnBoth)
          (and_then-OnBoth (IsFrame s) (IsFrame s) (After s) (register_in_database env mname c t)
            (λ u. register_each env mname cs (add_dependency env c deps) u)
            (widen s t (register_in_database env mname c t) (enter_class-IsFrame mname c s e)
              (register_in_database-IsFrame mname c t))
            (λ u h.
              widen_each s u (register_each env mname cs (add_dependency env c deps) u) h
                (register_each-IsFrame mname cs (add_dependency env c deps) u)))
  ]

  mark-IsFrame : (o : Option String) (dep : String) (s : S) → IsFrame s (mark env o dep s)
  mark-IsFrame none dep s = refl_IsFrame s
  mark-IsFrame (some owner) dep s = record { history = refl; linked = refl; classes = λ k o f. f }

  pub set_cascades-IsFrame :
      (deps : List (String × String)) (s : S) → IsFrame s (set_cascades env deps s)
  unfolding set_cascades
  set_cascades-IsFrame [] s = refl_IsFrame s
  set_cascades-IsFrame ((class, dep) ∷ deps) s =
      let t = mark env (find_key dep s.byclass) dep s in
      trans_IsFrame s t (set_cascades env deps t) (mark-IsFrame (find_key dep s.byclass) dep s)
        (set_cascades-IsFrame deps t)

  pub register_classes-IsFrame :
      (mname : String) (cs : List ClassMeta) (s : S)
      → OnBoth (IsFrame s) (IsFrame s) (register_classes env mname cs s)
  unfolding register_classes
  register_classes-IsFrame mname cs s =
      and_then-OnBoth (IsFrame s) (After s) (IsFrame s) (register_each env mname cs [] s) _
        (register_each-IsFrame mname cs [] s)
        (λ r h.
          let (t, deps) = r in
          trans_IsFrame s t (set_cascades env deps t) h (set_cascades-IsFrame deps t))

  configure-IsFrame :
      (mname : String) (s : S) → OnBoth (IsFrame s) (IsFrame s) (configure env mname s)
  configure-IsFrame mname s = elim (⊎-cases (env.get_config mname s.database)) [
    | inl (d, e) ↦ rw (e, OnBoth) (record { history = refl; linked = refl; classes = λ k o f. f })
    | inr (d, e) ↦ rw (e, OnBoth) (record { history = refl; linked = refl; classes = λ k o f. f })
  ]

  note_version-IsFrame :
      (mname : String) (m : ModuleMeta) (s : S) → IsFrame s (note_version env mname m s)
  note_version-IsFrame mname m s = record { history = refl; linked = refl; classes = λ k o f. f }

  pub caught-IsFrame :
      (s : S) (r : Outcome env) → OnBoth (IsFrame s) (IsFrame s) r → IsFrame s (caught env r)
  caught-IsFrame s (inl t) h = h
  caught-IsFrame s (inr t) h = h

  upgrade-IsFrame :
      (mname : String) (m : ModuleMeta) (cached : ℕ) (s : S)
      → OnBoth (IsFrame s) (IsFrame s) (upgrade env mname m cached s)
  unfolding upgrade
  upgrade-IsFrame mname m cached s = elim (Bool-cases (env.update_ok mname cached)) [
    | inl e ↦
        let t = caught env (configure env mname s) in
        rw (e, OnBoth)
          (trans_IsFrame s t (note_version env mname m t)
            (caught-IsFrame s (configure env mname s) (configure-IsFrame mname s))
            (note_version-IsFrame mname m t))
    | inr e ↦ rw (e, OnBoth) (refl_IsFrame s)
  ]

  pub check_module_cache-IsFrame :
      (mname : String) (m : ModuleMeta) (s : S)
      → OnBoth (IsFrame s) (IsFrame s) (check_module_cache env mname m s)
  unfolding check_module_cache
  check_module_cache-IsFrame mname m s = elim (Option-cases (find_key mname s.cache)) [
    | inl e ↦ rw (e, OnBoth) (note_version-IsFrame mname m s)
    | inr (v, e) ↦ elim (Bool-cases (ltb m.version v)) [
      | inl f ↦ rw (e, f, OnBoth) (refl_IsFrame s)
      | inr f ↦ elim (Bool-cases (ltb v m.version)) [
        | inl g ↦ rw (e, f, g, OnBoth) (upgrade-IsFrame mname m v s)
        | inr g ↦ rw (e, f, g, OnBoth) (note_version-IsFrame mname m s)
      ]
    ]
  ]

  create_staging_directory-IsFrame :
      (mname : String) (s : S) → IsFrame s (create_staging_directory env mname s)
  unfolding create_staging_directory
  create_staging_directory-IsFrame mname s =
      elim (Bool-cases (has_name (env.cut_module mname) s.staging)) [
        | inl e ↦ rw e (refl_IsFrame s)
        | inr e ↦ rw e (record { history = refl; linked = refl; classes = λ k o f. f })
      ]

  stage-IsFrame :
      (mname : String) (firsttime : Bool) (s : S)
      → OnBoth (IsFrame s) (IsFrame s) (
          if firsttime
          then configure env mname (create_staging_directory env mname s)
          else inr (create_staging_directory env mname s))
  stage-IsFrame mname true s =
      let t = create_staging_directory env mname s in
      widen s t (configure env mname t) (create_staging_directory-IsFrame mname s)
        (configure-IsFrame mname t)
  stage-IsFrame mname false s = create_staging_directory-IsFrame mname s

  pub register-IsFrame :
      (mname : String) (m : ModuleMeta) (firsttime : Bool) (s : S)
      → OnBoth (IsFrame s) (IsFrame s) (register env mname m firsttime s)
  unfolding register
  register-IsFrame mname m firsttime s =
      let t = register_quotas env mname m.quotas s in
      and_then-OnBoth (IsFrame s) (IsFrame s) (IsFrame s) (register_classes env mname m.classes t) _
        (widen s t (register_classes env mname m.classes t)
          (register_quotas-IsFrame mname m.quotas s) (register_classes-IsFrame mname m.classes t))
        (λ u h. widen s u _ h (stage-IsFrame mname firsttime u))
