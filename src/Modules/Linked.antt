-- ===== src/Modules/Linked.antt =====
-- What ModuleDB::loadModule does to the list of modules, once the dependencies of a module are loaded.
use openpanel_opencore.Prelude.{
  suc, ◌≤◌, String, true, false, ◌==◌, ◌≡◌, ◌≢◌, some, [], ◌∷◌, ◌++◌, arith, eq_iff, find_key,
  has_name, count_name, count_name-append, Bool-cases, ◌⊎◌, inl, inr, OnBoth, and_then-OnBoth,
}
use openpanel_opencore.Modules.Loading.{
  ModuleMeta, ModuleDb, Environment, Outcome, check_module_cache, is_new, link,
}
use openpanel_opencore.Modules.Frame.{IsFrame, check_module_cache-IsFrame, register-IsFrame}

-- No module stands twice in the list, and one that is not in the history does not stand in it.
pub record IsOnce {D : Type 0} (s : ModuleDb D) : Type 0 where
  pub once : (x : String) → count_name x s.linked ≤ 1
  pub fresh : (x : String) → has_name x s.history ≡ false → count_name x s.linked ≡ 0

-- The history only grows, what was in it is not linked again, and a registered class keeps its module.
pub record IsGrown {D : Type 0} (s t : ModuleDb D) : Type 0 where
  pub history : (x : String) → has_name x s.history ≡ true → has_name x t.history ≡ true
  pub linked :
      (x : String) → has_name x s.history ≡ true → count_name x t.linked ≡ count_name x s.linked
  pub classes :
      (class owner : String)
      → find_key class s.byclass ≡ some owner
      → find_key class t.byclass ≡ some owner

module _ {D : Type 0} (env : Environment D) where
  abbrev pub S : Type 0
  S = ModuleDb D

  -- The module is linked, in the state of its dependencies.
  pub record IsLinked (mname : String) (u t : S) : Type 0 where
    pub history : u.history ≡ t.history
    pub linked : u.linked ++ mname ∷ [] ≡ t.linked
    pub classes :
        (class owner : String)
        → find_key class u.byclass ≡ some owner
        → find_key class t.byclass ≡ some owner

  pub of_frames :
      (mname : String) (u v t : S)
      → IsFrame (record u { linked = u.linked ++ mname ∷ [] }) v
      → IsFrame v t
      → IsLinked mname u t
  of_frames mname u v t a b = record {
    history = cc (a.history, b.history);
    linked = cc (a.linked, b.linked);
    classes = λ c o e. b.classes c o (a.classes c o e);
  }

  pub of_frame :
      (mname : String) (u t : S)
      → IsFrame (record u { linked = u.linked ++ mname ∷ [] }) t
      → IsLinked mname u t
  of_frame mname u t a = record { history = a.history; linked = a.linked; classes = a.classes }

  pub widen :
      (mname : String) (u v : S) (r : Outcome env)
      → IsFrame (record u { linked = u.linked ++ mname ∷ [] }) v
      → OnBoth (IsFrame v) (IsFrame v) r
      → OnBoth (IsLinked mname u) (IsLinked mname u) r
  widen mname u v (inl t) a b = of_frames mname u v t a b
  widen mname u v (inr t) a b = of_frames mname u v t a b

  pub narrow :
      (mname : String) (u : S) (r : Outcome env)
      → OnBoth
          (IsFrame (record u { linked = u.linked ++ mname ∷ [] }))
          (IsFrame (record u { linked = u.linked ++ mname ∷ [] }))
          r
      → OnBoth (IsLinked mname u) (IsFrame (record u { linked = u.linked ++ mname ∷ [] })) r
  narrow mname u (inl t) a = of_frame mname u t a
  narrow mname u (inr t) a = a

  pub link-IsLinked :
      (mname : String) (m : ModuleMeta) (u : S)
      → OnBoth (IsLinked mname u) (IsLinked mname u) (link env mname m u)
  unfolding link
  link-IsLinked mname m u =
      let v = record u { linked = u.linked ++ mname ∷ [] } in
      let r = check_module_cache env mname m v in
      and_then-OnBoth (IsLinked mname u) (IsFrame v) (IsLinked mname u) r _
        (narrow mname u r (check_module_cache-IsFrame env mname m v))
        (λ w h.
          widen mname u w _ h
            (register-IsFrame env mname m (is_new env (find_key mname u.cache)) w))

  -- How often a name stands in the list after the module is linked.
  pub linked_count :
      (mname : String) (u t : S) (x : String)
      → IsLinked mname u t
      → ((mname ≡ x) × (count_name x t.linked ≡ suc (count_name x u.linked)))
        ⊎ ((mname ≢ x) × (count_name x t.linked ≡ count_name x u.linked))
  unfolding count_name
  linked_count mname u t x l = elim (Bool-cases (mname == x)) [
    | inl e ↦ inl (
      grind (arith, eq_iff mname x),
      rw (← l.linked) (ground (arith, count_name-append x u.linked (mname ∷ []))),
    )
    | inr e ↦ inr (
      grind (arith, eq_iff mname x),
      rw (← l.linked) (ground (arith, count_name-append x u.linked (mname ∷ []))),
    )
  ]

  pub link_lem :
      (mname : String) (s u t : S)
      → IsOnce u
      → IsGrown s u
      → has_name mname s.history ≡ false
      → has_name mname u.history ≡ true
      → count_name mname u.linked ≡ 0
      → IsLinked mname u t
      → IsOnce t × IsGrown s t
  link_lem mname s u t o g a b c l = (
    record {
      once = λ x. elim (linked_count mname u t x l) [
        | inl (e, f) ↦ let z : count_name x u.linked ≡ 0 = rw (← e) c in omega (arith, f, z)
        | inr (e, f) ↦ omega (arith, f, o.once x)
      ];
      fresh = λ x e. elim (linked_count mname u t x l) [
        | inl (f, k) ↦ cc
        | inr (f, k) ↦ cc (k, o.fresh x (rw l.history e))
      ];
    },
    record {
      history = λ x e. rw (← l.history) (g.history x e);
      linked = λ x e. elim (linked_count mname u t x l) [
        | inl (f, k) ↦ cc
        | inr (f, k) ↦ cc (k, g.linked x e)
      ];
      classes = λ k w e. l.classes k w (g.classes k w e);
    },
  )
