-- ===== src/Modules/Classes.antt =====
-- What ModuleDB::registerClasses enters.
use openpanel_opencore.Prelude.{
  String, ◌≡◌, some, List, [], ◌∷◌, All, find_key, find_key-put, Option-cases, ⊎-cases, ◌⊎◌, inl,
  inr, OnBoth, arith,
}
use openpanel_opencore.Modules.Loading.{
  ClassMeta, ModuleDb, Environment, enter_class, register_in_database, register_each,
  add_dependency, set_cascades, register_classes,
}
use openpanel_opencore.Modules.Frame.{
  IsFrame, register_in_database-IsFrame, register_each-IsFrame, set_cascades-IsFrame,
  register_classes-IsFrame, After,
}

module _ {D : Type 0} (env : Environment D) where
  -- The class is the module's.
  abbrev pub IsOf : String → ModuleDb D → ClassMeta → Type 0
  IsOf mname t c = find_key c.name t.byclass ≡ some mname

  entered :
      (mname : String) (c : ClassMeta) (s : ModuleDb D) → IsOf mname (enter_class env mname c s) c
  unfolding enter_class
  entered mname c s = find_key-put c.name mname s.byclass

  right :
      {E A : Type 0} (P : E → Type 0) (Q : A → Type 0) (r : E ⊎ A) (a : A)
      → OnBoth P Q r
      → r ≡ inr a
      → Q a
  right P Q (inl x) a h e = let z : ⊥ = cc in absurd z
  right P Q (inr x) a h e = let f : a ≡ x = cc in rw f h

  after_each :
      (mname : String) (cs : List ClassMeta) (deps more : List (String × String)) (v t : ModuleDb D)
      → register_each env mname cs deps v ≡ inr (t, more)
      → IsFrame v t
  after_each mname cs deps more v t e =
      right (IsFrame v) (After env v) (register_each env mname cs deps v) (t, more)
        (register_each-IsFrame env mname cs deps v) e

  register_each_lem :
      (mname : String) (cs : List ClassMeta) (deps more : List (String × String)) (s t : ModuleDb D)
      → register_each env mname cs deps s ≡ inr (t, more)
      → All (IsOf mname t) cs
  unfolding register_each
  register_each_lem mname [] deps more s t e = tt
  register_each_lem mname (c ∷ cs) deps more s t e =
      elim (Option-cases (find_key c.name s.byclass)) [
        | inr (o, f) ↦ let z : ⊥ = ground arith in absurd z
        | inl f ↦
            let u = enter_class env mname c s in
            let a = register_in_database-IsFrame env mname c u in
            elim (⊎-cases (register_in_database env mname c u)) [
              | inl (v, g) ↦ let z : ⊥ = ground arith in absurd z
              | inr (v, g) ↦
                  let k : register_each env mname cs (add_dependency env c deps) v ≡ inr (t, more) =
                    ground arith in
                  let w : IsFrame v t =
                    after_each mname cs (add_dependency env c deps) more v t k in
                  let b : IsFrame u v =
                    right (IsFrame u) (IsFrame u) (register_in_database env mname c u) v a g in
                  (
                    w.classes c.name mname (b.classes c.name mname (entered mname c s)),
                    register_each_lem mname cs (add_dependency env c deps) more v t k,
                  )
            ]
      ]

  All-map :
      (mname : String) (s t : ModuleDb D) (cs : List ClassMeta)
      → IsFrame s t
      → All (IsOf mname s) cs
      → All (IsOf mname t) cs
  All-map mname s t [] h a = tt
  All-map mname s t (c ∷ cs) h (a, rest) = (h.classes c.name mname a, All-map mname s t cs h rest)

  -- Where registerClasses succeeds, each of the classes is the class of the module; and the classes that
  -- were registered before stay with their modules.
  pub register_classes-registers :
      (mname : String) (cs : List ClassMeta) (s t : ModuleDb D)
      → register_classes env mname cs s ≡ inr t
      → All (IsOf mname t) cs × IsFrame s t
  unfolding register_classes
  register_classes-registers mname cs s t e = elim (⊎-cases (register_each env mname cs [] s)) [
    | inl (x, f) ↦ let z : ⊥ = ground arith in absurd z
    | inr ((u, more), f) ↦
        let a : IsFrame u (set_cascades env more u) = set_cascades-IsFrame env more u in
        let k : t ≡ set_cascades env more u = ground arith in
        (
          rw k (
              All-map mname u (set_cascades env more u) cs a
                (register_each_lem mname cs [] more s u f)),
          right (IsFrame s) (IsFrame s) (register_classes env mname cs s) t
              (register_classes-IsFrame env mname cs s) e,
        )
  ]
