-- ===== src/Modules/Once.antt =====
-- ModuleDB::loadModule links no module twice and never hands a class to another module.
use openpanel_opencore.Prelude.{
  ℕ, zero, suc, String, true, false, ◌≡◌, refl, Option, none, some, ◌∷◌, arith, has_name,
  has_name-tail, has_name-head, has_name-cons, count_name, Bool-cases, Option-cases, inl, inr,
  OnBoth,
}
use openpanel_opencore.Modules.Loading.{
  ModuleMeta, Environment, Outcome, merge_languages, link, start, forget, usable, after_dependency,
  load_module,
}
use openpanel_opencore.Modules.Linked.{S, IsLinked, link-IsLinked, link_lem, IsOnce, IsGrown}

module _ {D : Type 0} (env : Environment D) where
  -- What loadModule guarantees of its result.
  pub record IsResult (mname : String) (s t : S env) : Type 0 where
    pub once : IsOnce t
    pub grown : IsGrown s t
    pub known : has_name mname t.history ≡ true

  -- A state that has the module in its history and is otherwise as before.
  started :
      (mname : String) (s t : S env)
      → IsOnce s
      → t.history ≡ mname ∷ s.history
      → t.linked ≡ s.linked
      → t.byclass ≡ s.byclass
      → IsResult mname s t
  started mname s t o h l c = record {
    once = record {
      once = λ x. rw l (o.once x);
      fresh = λ x e. rw l (o.fresh x (has_name-tail x mname s.history (rw (← h) e)));
    };
    grown = record {
      history = λ x e. rw h (has_name-cons x mname s.history e);
      linked = λ x e. rw l refl;
      classes = λ k w e. rw c e;
    };
    known = rw h (has_name-head mname s.history);
  }

  linked_result :
      (mname : String) (s u t : S env)
      → has_name mname s.history ≡ false
      → IsResult mname s u
      → count_name mname u.linked ≡ 0
      → IsLinked env mname u t
      → IsResult mname s t
  linked_result mname s u t e r z l =
      let (o, g) = link_lem env mname s u t r.once r.grown e r.known z l in
      record { once = o; grown = g; known = rw (← l.history) r.known }

  -- The statement holds of the state, returned or thrown.
  abbrev pub Holds : (S env → Type 0) → Outcome env → Type 0
  Holds P r = OnBoth P P r

  link-IsResult :
      (mname : String) (m : ModuleMeta) (s u : S env)
      → has_name mname s.history ≡ false
      → IsResult mname s u
      → count_name mname u.linked ≡ 0
      → Holds (IsResult mname s) (link env mname m u)
  link-IsResult mname m s u e r z = go (link env mname m u) (link-IsLinked env mname m u)
    where
      go :
          (o : Outcome env)
          → OnBoth (IsLinked env mname u) (IsLinked env mname u) o
          → Holds (IsResult mname s) o
      go (inl t) l = linked_result mname s u t e r z l
      go (inr t) l = linked_result mname s u t e r z l

  -- The result for the dependency, seen from the state before the module that requires it.
  dependency_result :
      (mname required : String) (s t u : S env)
      → IsResult mname s t
      → IsResult required t u
      → IsResult mname s u
  dependency_result mname required s t u a b = record {
    once = b.once;
    grown = record {
      history = λ x e. b.grown.history x (a.grown.history x e);
      linked = λ x e. cc (b.grown.linked x (a.grown.history x e), a.grown.linked x e);
      classes = λ k w e. b.grown.classes k w (a.grown.classes k w e);
    };
    known = b.grown.history mname a.known;
  }

  after_dependency-IsResult :
      (mname required : String) (m : ModuleMeta) (s t : S env) (r : Option (Outcome env))
      (o : Outcome env)
      → IsOnce s
      → has_name mname s.history ≡ false
      → t.linked ≡ s.linked
      → IsResult mname s t
      → ((d : Outcome env) → r ≡ some d → Holds (IsResult required t) d)
      → after_dependency env mname m r ≡ some o
      → Holds (IsResult mname s) o
  unfolding after_dependency
  after_dependency-IsResult mname required m s t none o h e l a f g = cc
  after_dependency-IsResult mname required m s t (some (inl u)) o h e l a f g =
      let k : o ≡ inl u = cc in rw k (dependency_result mname required s t u a (f (inl u) refl))
  after_dependency-IsResult mname required m s t (some (inr u)) o h e l a f g =
      let k : o ≡ link env mname m u = cc in
      let b = f (inr u) refl in
      rw (k, OnBoth)
        (link-IsResult mname m s u e (dependency_result mname required s t u a b)
          (cc (b.grown.linked mname a.known, l, h.fresh mname e)))

  same_result :
      (mname : String) (s : S env) → IsOnce s → has_name mname s.history ≡ true → IsResult mname s s
  same_result mname s h e = record {
    once = h;
    grown = record { history = λ x z. z; linked = λ x z. refl; classes = λ k w z. z };
    known = e;
  }

  -- From a list with no module twice, all of its modules in the history, loadModule arrives at such a
  -- list, whether it returns or throws. The history then has the module; what was in the history before is
  -- not linked again; and a class that was registered is still the class of its module.
  pub load_module-IsResult :
      (fuel : ℕ) (mname : String) (s : S env) (o : Outcome env)
      → IsOnce s
      → load_module env fuel mname s ≡ some o
      → Holds (IsResult mname s) o
  unfolding load_module
  load_module-IsResult zero mname s o h e = cc
  load_module-IsResult (suc fuel) mname s o h e = elim (Bool-cases (has_name mname s.history)) [
    | inl f ↦ let k : o ≡ inr s = ground arith in rw (k, OnBoth) (same_result mname s h f)
    | inr f ↦ elim (Bool-cases (env.exists_path mname)) [
      | inr g ↦
          let k : o ≡ inl (forget env mname (start env mname s)) = ground arith in
          rw (k, OnBoth) (started mname s (forget env mname (start env mname s)) h refl refl refl)
      | inl g ↦ elim (Option-cases (usable env mname)) [
        | inl i ↦
            let k : o ≡ inl (start env mname s) = ground arith in
            rw (k, OnBoth) (started mname s (start env mname s) h refl refl refl)
        | inr (m, i) ↦
            let t = record (start env mname s) {
              languages = merge_languages s.languages m.languages;
            } in
            elim (Option-cases m.requires) [
              | inl j ↦
                  let k : o ≡ link env mname m t = ground arith in
                  rw (k, OnBoth)
                    (link-IsResult mname m s t f (started mname s t h refl refl refl)
                      (h.fresh mname f))
              | inr (required, j) ↦
                  let a = started mname s t h refl refl refl in
                  after_dependency-IsResult mname required m s t (load_module env fuel required t) o
                    h f refl a (λ d w. load_module-IsResult fuel required t d a.once w)
                    (ground arith)
            ]
      ]
    ]
  ]
