-- ===== src/Modules/Termination.antt =====
-- ModuleDB::loadModule terminates: each module that it goes through enters the history.
use openpanel_opencore.Prelude.{
  ℕ, zero, suc, ◌≤◌, ◌<◌, String, true, false, ◌==◌, ◌≡◌, refl, Option, none, some, List, [], ◌∷◌,
  arith, eq_iff, eq_refl, has_name, length, Bool-cases, Option-cases, inl, inr, if◌then◌else◌,
}
use openpanel_opencore.Modules.Loading.{
  ModuleMeta, ModuleDb, Environment, Outcome, merge_languages, link, start, forget, usable,
  after_dependency, load_module,
}

-- How many of the known modules are not in the history.
abbrev pub fresh_count : List String → List String → ℕ
fresh_count [] history = 0
fresh_count (k ∷ known) history =
    if has_name k history then fresh_count known history else suc (fresh_count known history)

fresh_count-length : (known history : List String) → fresh_count known history ≤ length known
fresh_count-length [] history = omega arith
fresh_count-length (k ∷ known) history = ground (arith, fresh_count-length known history)

fresh_count-cons :
    (known history : List String) (x : String)
    → fresh_count known (x ∷ history) ≤ fresh_count known history
unfolding has_name
fresh_count-cons [] history x = omega arith
fresh_count-cons (k ∷ known) history x = ground (arith, fresh_count-cons known history x)

fresh_count-enters :
    (known history : List String) (x : String)
    → has_name x known ≡ true
    → has_name x history ≡ false
    → fresh_count known (x ∷ history) < fresh_count known history
unfolding has_name
fresh_count-enters [] history x e f = cc
fresh_count-enters (k ∷ known) history x e f = elim (Bool-cases (k == x)) [
  | inl g ↦
      let i : k ≡ x = grind (arith, eq_iff k x) in
      rw i (ground (arith, eq_refl x, fresh_count-cons known history x))
  | inr g ↦ ground (arith, fresh_count-enters known history x (ground arith) f)
]

module _ {D : Type 0} (env : Environment D) where
  after_dependency-returns :
      (mname : String) (m : ModuleMeta) (r : Option (Outcome env))
      → (d : Outcome env) × (r ≡ some d)
      → (o : Outcome env) × (after_dependency env mname m r ≡ some o)
  unfolding after_dependency
  after_dependency-returns mname m none (d, e) = cc
  after_dependency-returns mname m (some (inl t)) h = (inl t, refl)
  after_dependency-returns mname m (some (inr t)) h = (link env mname m t, refl)

  usable_lem :
      (mname : String) (m : ModuleMeta)
      → usable env mname ≡ some m
      → (n : ModuleMeta) × (env.open_module mname ≡ some n)
  unfolding usable
  usable_lem mname m e = elim (Option-cases (env.open_module mname)) [
    | inl f ↦ let z : ⊥ = ground arith in absurd z
    | inr (n, f) ↦ (n, f)
  ]

  load_module_on :
      (known : List String)
      → ((name : String) (m : ModuleMeta)
          → env.open_module name ≡ some m
          → has_name name known ≡ true)
      → (fuel : ℕ) (mname : String) (s : ModuleDb D) → fresh_count known s.history < fuel
      → (o : Outcome env) × (load_module env fuel mname s ≡ some o)
  unfolding load_module
  load_module_on known h zero mname s l = let z : ⊥ = omega (arith, l) in absurd z
  load_module_on known h (suc fuel) mname s l = elim (Bool-cases (has_name mname s.history)) [
    | inl f ↦ (inr s, ground arith)
    | inr f ↦ elim (Bool-cases (env.exists_path mname)) [
      | inr g ↦ (inl (forget env mname (start env mname s)), ground arith)
      | inl g ↦ elim (Option-cases (usable env mname)) [
        | inl i ↦ (inl (start env mname s), ground arith)
        | inr (m, i) ↦
            let t = record (start env mname s) {
              languages = merge_languages s.languages m.languages;
            } in
            elim (Option-cases m.requires) [
              | inl j ↦ (link env mname m t, ground arith)
              | inr (required, j) ↦
                  let (n, k) = usable_lem mname m i in
                  let c = fresh_count-enters known s.history mname (h mname n k) f in
                  let (o, e) =
                    after_dependency-returns mname m (load_module env fuel required t)
                      (load_module_on known h fuel required t (omega (arith, c, l))) in
                  (o, ground arith)
            ]
      ]
    ]
  ]

  -- Where the modules that can be opened are among a list of names, loadModule returns or throws, whatever
  -- the modules require of each other, on any fuel that exceeds the length of the list.
  pub load_module-terminates :
      (known : List String)
      → ((name : String) (m : ModuleMeta)
          → env.open_module name ≡ some m
          → has_name name known ≡ true)
      → (fuel : ℕ) (mname : String) (s : ModuleDb D) → length known < fuel
      → (o : Outcome env) × (load_module env fuel mname s ≡ some o)
  load_module-terminates known h fuel mname s l =
      load_module_on known h fuel mname s (omega (arith, fresh_count-length known s.history, l))
