-- ===== src/Modules/Typing.antt =====
-- What CoreClass::normalize of module.cpp guarantees of the data that it passes.
use openpanel_opencore.Prelude.{
  String, false, ◌==◌, ◌≡◌, refl, ◌⊎◌, inl, inr, some, List, [], ◌∷◌, arith, eq_iff, find_key,
  put_key, find_key-put, put_key-keeps, All, ⊎-cases, Bool-cases, Option-cases,
}
use openpanel_opencore.Modules.Normalize.{
  Datum, text, Conversions, Param, CoreClass, Data, check_enum, normalize_nodes, default_datum,
  has_text, fill, normalize_layout_node, normalize_layout, normalize,
}
use openpanel_opencore.Modules.Types.{HasType, IsTyped, nodes-IsTyped, put_key-IsTyped, IsParam}

module _ (c : Conversions) (cls : CoreClass) where
  -- A required parameter that is no password is in the data.
  abbrev pub IsPresent : Data → Param → Type 0
  IsPresent mdata p =
      (p.id ≡ "id")
      ⊎ (p.required ≡ false)
      ⊎ (p.kind ≡ "password")
      ⊎ ((v : Datum) × (find_key p.id mdata ≡ some v))

  default_datum-HasType :
      ((t : String) → c.sval (text t) ≡ t)
      → (p : Param) (v : Datum) → default_datum c cls p ≡ inr v
      → HasType c cls p v
  unfolding default_datum
  default_datum-HasType law p v e = elim (Bool-cases (p.kind == "string")) [
    | inl f ↦ let g : p.kind ≡ "string" = grind (arith, eq_iff p.kind "string") in rw g tt
    | inr f ↦ elim (Bool-cases (p.kind == "integer")) [
      | inl b ↦
          let g : p.kind ≡ "integer" = grind (arith, eq_iff p.kind "integer") in
          rw g (c.ival p.default, ground arith)
      | inr b ↦ elim (Bool-cases (p.kind == "bool")) [
        | inl d ↦
            let g : p.kind ≡ "bool" = grind (arith, eq_iff p.kind "bool") in
            rw g (c.bval p.default, ground arith)
        | inr d ↦ elim (Bool-cases (p.kind == "enum")) [
          | inl a ↦ rw a (elim (Bool-cases (check_enum cls.enums p.id (c.sval p.default))) [
            | inl i ↦ ground (arith, law (c.sval p.default))
            | inr i ↦ ground arith
          ])
          | inr a ↦ ground arith
        ]
      ]
    ]
  ]

  fill_lem :
      ((t : String) → c.sval (text t) ≡ t)
      → (p : Param) (mdata next : Data) → fill c cls p mdata ≡ inr next
      → ((p.kind ≡ "password") × (next ≡ mdata))
        ⊎ ((v : Datum) × HasType c cls p v × (next ≡ put_key p.id v mdata))
  unfolding fill
  fill_lem law p mdata next e = elim (Bool-cases (c.sval p.default == "")) [
    | inl f ↦ elim (Bool-cases (p.kind == "password")) [
      | inl g ↦ inl (grind (arith, eq_iff p.kind "password"), ground arith)
      | inr g ↦ ground arith
    ]
    | inr f ↦ elim (⊎-cases (default_datum c cls p)) [
      | inl (x, g) ↦ ground arith
      | inr (v, g) ↦ inr (v, default_datum-HasType law p v g, ground arith)
    ]
  ]

  put_key-IsPresent :
      (id : String) (v : Datum) (mdata : Data) (q : Param)
      → IsPresent mdata q
      → IsPresent (put_key id v mdata) q
  put_key-IsPresent id v mdata q (inl e) = inl e
  put_key-IsPresent id v mdata q (inr (inl e)) = inr (inl e)
  put_key-IsPresent id v mdata q (inr (inr (inl e))) = inr (inr (inl e))
  put_key-IsPresent id v mdata q (inr (inr (inr (w, e)))) =
      inr (inr (inr (put_key-keeps q.id id v w mdata e)))

  -- What a step of the loop over `param` does with the data.
  record IsStep (p : Param) (mdata next : Data) : Type 0 where
    typed : All (IsTyped c cls) mdata → All (IsTyped c cls) next
    present : IsPresent next p
    keeps : (q : Param) → IsPresent mdata q → IsPresent next q

  same-IsStep :
      (p : Param) (mdata next : Data) → next ≡ mdata → IsPresent mdata p → IsStep p mdata next
  same-IsStep p mdata next e h = rw e (record { typed = λ z. z; present = h; keeps = λ q z. z })

  fill-IsStep :
      ((t : String) → c.sval (text t) ≡ t)
      → (p : Param) (mdata next : Data) → IsParam p cls.param
      → fill c cls p mdata ≡ inr next
      → IsStep p mdata next
  fill-IsStep law p mdata next m e = elim (fill_lem law p mdata next e) [
    | inl (f, g) ↦ same-IsStep p mdata next g (inr (inr (inl f)))
    | inr (v, t, g) ↦ rw g (record {
      typed = λ h. put_key-IsTyped c cls p.id v mdata h (inr (p, m, refl, t));
      present = inr (inr (inr (v, find_key-put p.id v mdata)));
      keeps = put_key-IsPresent p.id v mdata;
    })
  ]

  normalize_layout_node-IsStep :
      ((t : String) → c.sval (text t) ≡ t)
      → (p : Param) (mdata next : Data) → IsParam p cls.param
      → normalize_layout_node c cls p mdata ≡ inr next
      → IsStep p mdata next
  unfolding normalize_layout_node has_text
  normalize_layout_node-IsStep law p mdata next m e = elim (Bool-cases (p.id == "id")) [
    | inl f ↦ same-IsStep p mdata next (ground arith) (inl (grind (arith, eq_iff p.id "id")))
    | inr f ↦ elim (Bool-cases p.required) [
      | inr g ↦ same-IsStep p mdata next (ground arith) (inr (inl g))
      | inl g ↦ elim (Bool-cases (has_text c cls (find_key p.id mdata))) [
        | inl i ↦ elim (Option-cases (find_key p.id mdata)) [
          | inl j ↦ ground arith
          | inr (v, j) ↦ same-IsStep p mdata next (ground arith) (inr (inr (inr (v, j))))
        ]
        | inr i ↦ fill-IsStep law p mdata next m (ground arith)
      ]
    ]
  ]

  -- All entries are typed, and all parameters of the list are present.
  pub record IsNormal (ps : List Param) (mdata : Data) : Type 0 where
    pub typed : All (IsTyped c cls) mdata
    pub present : (q : Param) → IsParam q ps → IsPresent mdata q

  normalize_layout_lem :
      ((t : String) → c.sval (text t) ≡ t)
      → (ps : List Param) (mdata next : Data) → ((q : Param) → IsParam q ps → IsParam q cls.param)
      → All (IsTyped c cls) mdata
      → normalize_layout c cls ps mdata ≡ inr next
      → IsNormal ps next × ((q : Param) → IsPresent mdata q → IsPresent next q)
  unfolding normalize_layout
  normalize_layout_lem law [] mdata next m h e =
      let f : next ≡ mdata = cc in rw f (record { typed = h; present = λ q z. absurd z }, λ q z. z)
  normalize_layout_lem law (p ∷ ps) mdata next m h e =
      elim (⊎-cases (normalize_layout_node c cls p mdata)) [
        | inl (x, f) ↦ ground arith
        | inr (mid, f) ↦
            let s = normalize_layout_node-IsStep law p mdata mid (m p (inl refl)) f in
            let (n, k) =
              normalize_layout_lem law ps mid next (λ q z. m q (inr z)) (s.typed h)
                (ground arith) in
            (
              record {
                typed = n.typed;
                present = λ q z. elim z [ inl i ↦ rw i (k p s.present) | inr i ↦ n.present q i ];
              },
              λ q z. k q (s.keeps q z),
            )
      ]

  -- Where the text of a text value is the text: what CoreClass::normalize passes holds only parameters of
  -- the class, each with the type that it declares, and the owner; and each parameter of the class that is
  -- required, is not called "id" and is no password stands in it.
  pub normalize-IsNormal :
      ((t : String) → c.sval (text t) ≡ t)
      → (mdata next : Data) → normalize c cls mdata ≡ inr next
      → IsNormal cls.param next
  unfolding normalize
  normalize-IsNormal law mdata next e = elim (⊎-cases (normalize_nodes c cls mdata)) [
    | inl (x, f) ↦ ground arith
    | inr (nodes, f) ↦
        let (n, k) =
          normalize_layout_lem law cls.param nodes next (λ q z. z)
            (nodes-IsTyped c cls mdata nodes f) (ground arith) in
        n
  ]
