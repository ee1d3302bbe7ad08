-- ===== src/Modules/Types.antt =====
-- The types of the data, through the first loop of CoreClass::normalize of module.cpp.
use openpanel_opencore.Prelude.{
  String, Bool, true, ◌&&◌, ◌==◌, ◌≡◌, ◌⊎◌, inl, inr, some, List, [], ◌∷◌, ℤ, arith, eq_iff,
  put_key, All, ⊎-cases, Bool-cases, Option-cases, if◌then◌else◌,
}
use openpanel_opencore.Modules.Normalize.{
  Datum, integer, flag, Conversions, Param, CoreClass, Data, find_param, check_enum, convert,
  fits_regexp, normalize_known, normalize_node, normalize_nodes,
}

-- The parameter is one of the list.
abbrev pub IsParam : Param → List Param → Type 0
IsParam p [] = ⊥
IsParam p (q ∷ qs) = (p ≡ q) ⊎ IsParam p qs

module _ (c : Conversions) (cls : CoreClass) where
  -- The value has the type that the parameter declares.
  abbrev pub HasType : Param → Datum → Type 0
  HasType p v =
      if p.kind == "enum"
      then check_enum cls.enums p.id (c.sval v) ≡ true
      else if p.kind == "integer"
      then ((z : ℤ) × (v ≡ integer z))
      else if p.kind == "bool"
      then ((b : Bool) × (v ≡ flag b))
      else Unit

  -- The entry is the owner, or a parameter of the class declares it with its type.
  abbrev pub IsTyped : String × Datum → Type 0
  IsTyped (id, v) =
      (id ≡ "owner-metaid") ⊎ ((p : Param) × IsParam p cls.param × (p.id ≡ id) × HasType p v)

  pub convert-HasType : (p : Param) (v w : Datum) → convert c cls p v ≡ inr w → HasType p w
  unfolding convert
  convert-HasType p v w e = elim (Bool-cases (p.kind == "enum")) [
    | inl a ↦ rw a (elim (Bool-cases (check_enum cls.enums p.id (c.sval v))) [
      | inl f ↦ ground arith
      | inr f ↦ ground arith
    ])
    | inr a ↦ elim (Bool-cases (p.kind == "integer")) [
      | inl b ↦ rw (a, b) (c.ival v, ground arith)
      | inr b ↦ elim (Bool-cases (p.kind == "bool")) [
        | inl d ↦ rw (a, b, d) (c.bval v, ground arith)
        | inr d ↦ rw (a, b, d) tt
      ]
    ]
  ]

  pub find_param_lem :
      (id : String) (ps : List Param) (p : Param)
      → find_param id ps ≡ some p
      → IsParam p ps × (p.id ≡ id)
  unfolding find_param
  find_param_lem id [] p e = cc
  find_param_lem id (q ∷ qs) p e = elim (Bool-cases (q.id == id)) [
    | inl f ↦ (inl (ground arith), ground (arith, eq_iff q.id id))
    | inr f ↦ let (m, g) = find_param_lem id qs p (ground arith) in (inr m, g)
  ]

  pub normalize_known-HasType :
      (p : Param) (id : String) (v w : Datum)
      → normalize_known c cls (some p) id v ≡ inr w
      → HasType p w
  unfolding normalize_known
  normalize_known-HasType p id v w e = elim (Bool-cases (p.kind == "password" && c.sval v == "")) [
    | inl f ↦ let g : p.kind ≡ "password" = grind (arith, eq_iff p.kind "password") in rw g tt
    | inr f ↦ elim (Bool-cases (fits_regexp c cls p v)) [
      | inl g ↦ convert-HasType p v w (ground arith)
      | inr g ↦ ground arith
    ]
  ]

  pub normalize_node-IsTyped :
      (id : String) (v w : Datum) → normalize_node c cls id v ≡ inr w → IsTyped (id, w)
  unfolding normalize_node normalize_known
  normalize_node-IsTyped id v w e = elim (Bool-cases (id == "owner-metaid")) [
    | inl f ↦ inl (grind (arith, eq_iff id "owner-metaid"))
    | inr f ↦ elim (Option-cases (find_param id cls.param)) [
      | inl g ↦ ground arith
      | inr (p, g) ↦
          let (m, i) = find_param_lem id cls.param p g in
          inr (p, m, i, normalize_known-HasType p id v w (ground arith))
    ]
  ]

  pub nodes-IsTyped :
      (mdata next : Data) → normalize_nodes c cls mdata ≡ inr next → All IsTyped next
  unfolding normalize_nodes
  nodes-IsTyped [] next e = let f : next ≡ [] = cc in rw f tt
  nodes-IsTyped ((id, v) ∷ rest) next e = elim (⊎-cases (normalize_node c cls id v)) [
    | inl (x, f) ↦ ground arith
    | inr (w, f) ↦ elim (⊎-cases (normalize_nodes c cls rest)) [
      | inl (x, g) ↦ ground arith
      | inr (done, g) ↦
          let k : next ≡ (id, w) ∷ done = ground arith in
          rw k (normalize_node-IsTyped id v w f, nodes-IsTyped rest done g)
    ]
  ]

  pub put_key-IsTyped :
      (id : String) (v : Datum) (mdata : Data)
      → All IsTyped mdata
      → IsTyped (id, v)
      → All IsTyped (put_key id v mdata)
  unfolding put_key
  put_key-IsTyped id v [] h t = (t, tt)
  put_key-IsTyped id v ((k, w) ∷ rest) (a, h) t = elim (Bool-cases (k == id)) [
    | inl f ↦ let g : k ≡ id = grind (arith, eq_iff k id) in rw (f, g) (t, h)
    | inr f ↦ rw f (a, put_key-IsTyped id v rest h t)
  ]
