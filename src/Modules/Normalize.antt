-- ===== src/Modules/Normalize.antt =====
-- The parameter checks of CoreClass in module.cpp: normalize, checkEnum and normalizeLayoutNode. Lookups of
-- regular expressions by name (CORE->regexp), their matching (pcregexp) and the conversions of a Grace
-- value are parameters.
use openpanel_opencore.Prelude.{
  String, Bool, true, false, not, ◌&&◌, ◌==◌, Option, none, some, List, [], ◌∷◌, ℤ, find_key,
  put_key, has_name, ◌⊎◌, inl, inr, and_then, if◌then◌else◌,
}

-- A Grace value with its type.
pub data Datum : Type 0 where
  text : String → Datum
  integer : ℤ → Datum
  flag : Bool → Datum

pub record Conversions : Type 0 where
  pub sval : Datum → String
  pub ival : Datum → ℤ
  pub bval : Datum → Bool
  -- `CORE->regexp (name)`
  pub regexp : String → String
  -- `pcregexp (re).match (text)`
  pub matches : String → String → Bool

-- A node of the class's `param`, with its attributes; an attribute that is not there reads as "".
pub record Param : Type 0 where
  pub id : String
  pub kind : String
  pub regexp : String
  pub default : Datum
  pub required : Bool

pub record CoreClass : Type 0 where
  pub name : String
  pub param : List Param
  -- The ids of the values of each enum.
  pub enums : List (String × List String)

pub data NormalizeError : Type 0 where
  unknown_parameter : String → NormalizeError
  no_regexp_match : String → NormalizeError
  invalid_enum_value : String → String → NormalizeError
  required_without_default : String → NormalizeError
  invalid_default : String → NormalizeError
  unknown_type : String → NormalizeError

abbrev pub Data : Type 0
Data = List (String × Datum)

unfoldable pub find_param : String → List Param → Option Param
find_param id [] = none
find_param id (p ∷ ps) = if p.id == id then some p else find_param id ps

-- CoreClass::checkEnum
unfoldable pub check_enum : List (String × List String) → String → String → Bool
unfolding has_name
check_enum [] id val = false
check_enum ((k, nums) ∷ rest) id val = if k == id then has_name val nums else check_enum rest id val

module _ (c : Conversions) (cls : CoreClass) where
  -- The conversion of a value by the type of its parameter.
  unfoldable pub convert : Param → Datum → NormalizeError ⊎ Datum
  unfolding check_enum
  convert p v =
      if p.kind == "enum"
      then if check_enum cls.enums p.id (c.sval v)
        then inr v
        else inl (invalid_enum_value (c.sval v) p.id)
      else if p.kind == "integer"
      then inr (integer (c.ival v))
      else if p.kind == "bool"
      then inr (flag (c.bval v))
      else inr v

  -- The test of a value against the regular expression of its parameter.
  unfoldable pub fits_regexp : Param → Datum → Bool
  fits_regexp p v =
      if not (p.regexp == "") && not (c.sval v == "")
      then c.matches (c.regexp p.regexp) (c.sval v)
      else true

  -- The body of the loop over the data, for a node other than "owner-metaid".
  unfoldable pub normalize_known : Option Param → String → Datum → NormalizeError ⊎ Datum
  unfolding convert fits_regexp
  normalize_known none id v = inl (unknown_parameter id)
  normalize_known (some p) id v =
      if p.kind == "password" && c.sval v == ""
      then inr v
      else if fits_regexp p v
      then convert p v
      else inl (no_regexp_match id)

  unfoldable pub normalize_node : String → Datum → NormalizeError ⊎ Datum
  unfolding normalize_known find_param
  normalize_node id v =
      if id == "owner-metaid" then inr v else normalize_known (find_param id cls.param) id v

  -- The first loop of CoreClass::normalize. The ids of the data differ, so `mdata[p.id()]` is the node.
  unfoldable pub normalize_nodes : Data → NormalizeError ⊎ Data
  unfolding normalize_node
  normalize_nodes [] = inr []
  normalize_nodes ((id, v) ∷ rest) =
      and_then (normalize_node id v)
        λ w. and_then (normalize_nodes rest) λ done. inr ((id, w) ∷ done)

  -- The default of a parameter, in the parameter's type.
  unfoldable pub default_datum : Param → NormalizeError ⊎ Datum
  unfolding check_enum
  default_datum p =
      if p.kind == "string"
      then inr (text (c.sval p.default))
      else if p.kind == "integer"
      then inr (integer (c.ival p.default))
      else if p.kind == "bool"
      then inr (flag (c.bval p.default))
      else if p.kind == "enum"
      then if check_enum cls.enums p.id (c.sval p.default)
        then inr (text (c.sval p.default))
        else inl (invalid_default (c.sval p.default))
      else inl (unknown_type p.kind)

  -- `mdata.exists (id) && mdata[id].sval()`
  unfoldable pub has_text : Option Datum → Bool
  has_text none = false
  has_text (some v) = not (c.sval v == "")

  -- The part of normalizeLayoutNode for a required parameter that the data do not hold.
  unfoldable pub fill : Param → Data → NormalizeError ⊎ Data
  unfolding default_datum put_key
  fill p mdata =
      if c.sval p.default == ""
      then if p.kind == "password" then inr mdata else inl (required_without_default p.id)
      else and_then (default_datum p) λ v. inr (put_key p.id v mdata)

  -- CoreClass::normalizeLayoutNode, for a node of `param`
  unfoldable pub normalize_layout_node : Param → Data → NormalizeError ⊎ Data
  unfolding fill has_text find_key
  normalize_layout_node p mdata =
      if p.id == "id"
      then inr mdata
      else if not p.required
      then inr mdata
      else if has_text (find_key p.id mdata)
      then inr mdata
      else fill p mdata

  unfoldable pub normalize_layout : List Param → Data → NormalizeError ⊎ Data
  unfolding normalize_layout_node
  normalize_layout [] mdata = inr mdata
  normalize_layout (p ∷ ps) mdata =
      and_then (normalize_layout_node p mdata) λ next. normalize_layout ps next

  -- CoreClass::normalize
  unfoldable pub normalize : Data → NormalizeError ⊎ Data
  unfolding normalize_nodes normalize_layout
  normalize mdata = and_then (normalize_nodes mdata) λ nodes. normalize_layout cls.param nodes
