-- ===== src/Modules/Loading.antt =====
-- The loading of modules in moduledb.cpp: loadModule, loadDependencies, checkModuleCache, registerQuotas,
-- registerClasses and createStagingDirectory. The file system, the programs of the modules and what DBManager
-- does with a class are an environment.
use openpanel_opencore.Prelude.{
  ℕ, zero, suc, String, Bool, true, false, not, Option, none, some, List, [], ◌∷◌, ◌++◌, ltb,
  find_key, put_key, remove_key, has_name, ◌⊎◌, inl, inr, and_then, if◌then◌else◌,
}

-- What ModuleDB reads of a CoreClass.
pub record ClassMeta : Type 0 where
  pub name : String
  pub uuid : String
  pub requires : Option String
  pub childrendep : Option String

-- What ModuleDB reads of a CoreModule: its `meta`, languages and classes.
pub record ModuleMeta : Type 0 where
  pub version : ℕ
  pub requires : Option String
  pub quotas : List String
  pub languages : List String
  pub classes : List ClassMeta

-- The static history of loadModule, the cache, and the members of ModuleDB; a module is known by its name.
pub record ModuleDb (D : Type 0) : Type 0 where
  pub history : List String
  -- `cache["modules"]`: the version of each module
  pub cache : List (String × ℕ)
  pub languages : List String
  -- the list from `first` to `last`
  pub linked : List String
  pub byname : List String
  pub byquota : List (String × String)
  pub byclass : List (String × String)
  pub byclassuuid : List (String × String)
  pub classlist : List (String × String)
  pub byparent : List (String × String)
  pub cascades : List String
  pub staging : List String
  pub database : D

pub record Environment (D : Type 0) : Type 0 where
  -- `fs.exists` of the module's path
  pub exists_path : String → Bool
  -- the constructor of CoreModule, which throws on a module.xml that it cannot use
  pub open_module : String → Option ModuleMeta
  pub verify : String → Bool
  pub update_ok : String → ℕ → Bool
  -- `mname.cutat (".module")`
  pub cut_module : String → String
  -- DBManager::registerClass
  pub register_class : ClassMeta → D → Option D
  -- handleGetConfig; the left is the moduleInitException
  pub get_config : String → D → D ⊎ D

-- `languages << m->languages`
unfoldable pub merge_languages : List String → List String → List String
merge_languages known [] = known
merge_languages known (l ∷ ls) =
    merge_languages (if has_name l known then known else known ++ l ∷ []) ls

module _ {D : Type 0} (env : Environment D) where
  abbrev pub State : Type 0
  State = ModuleDb D

  -- The left is the state where an exception was thrown.
  abbrev pub Outcome : Type 0
  Outcome = State ⊎ State

  abbrev pub forget : String → State → State
  forget mname s = record s { cache = remove_key mname s.cache }

  -- ModuleDB::registerQuotas
  unfoldable pub register_quotas : String → List String → State → State
  unfolding put_key
  register_quotas mname [] s = s
  register_quotas mname (q ∷ qs) s =
      register_quotas mname qs (record s { byquota = put_key q mname s.byquota })

  abbrev pub parent_name : Option String → String
  parent_name (some class) = class
  parent_name none = "ROOT"

  -- The maps that registerClasses fills for a class, before it calls DBManager.
  unfoldable pub enter_class : String → ClassMeta → State → State
  unfolding put_key
  enter_class mname c s = record s {
    byclass = put_key c.name mname s.byclass;
    byclassuuid = put_key c.uuid mname s.byclassuuid;
    classlist = put_key c.name mname s.classlist;
    byparent = s.byparent ++ (parent_name c.requires, c.name) ∷ [];
  }

  abbrev pub add_dependency : ClassMeta → List (String × String) → List (String × String)
  add_dependency c deps = elim c.childrendep [ none ↦ deps | some d ↦ put_key c.name d deps ]

  -- `db.registerClass`, where it fails the cache loses the module
  unfoldable pub register_in_database : String → ClassMeta → State → Outcome
  unfolding remove_key
  register_in_database mname c s = elim (env.register_class c s.database) [
    | none ↦ inl (forget mname s)
    | some d ↦ inr (record s { database = d })
  ]

  -- The first loop of ModuleDB::registerClasses, with its childrendeps.
  unfoldable pub register_each :
      String
      → List ClassMeta
      → List (String × String)
      → State
      → State ⊎ (State × List (String × String))
  unfolding find_key enter_class register_in_database
  register_each mname [] deps s = inr (s, deps)
  register_each mname (c ∷ cs) deps s = elim (find_key c.name s.byclass) [
    | some owner ↦ inl (forget mname s)
    | none ↦
        and_then (register_in_database mname c (enter_class mname c s))
          λ t. register_each mname cs (add_dependency c deps) t
  ]

  abbrev pub mark : Option String → String → State → State
  mark none class s = s
  mark (some owner) class s = record s { cascades = class ∷ s.cascades }

  -- The second loop: a class that exists is set to cascade.
  unfoldable pub set_cascades : List (String × String) → State → State
  unfolding find_key
  set_cascades [] s = s
  set_cascades ((class, dep) ∷ deps) s = set_cascades deps (mark (find_key dep s.byclass) dep s)

  -- ModuleDB::registerClasses
  unfoldable pub register_classes : String → List ClassMeta → State → Outcome
  unfolding register_each set_cascades
  register_classes mname cs s =
      and_then (register_each mname cs [] s) λ r. let (t, deps) = r in inr (set_cascades deps t)

  abbrev pub with_database : D → State → State
  with_database d s = record s { database = d }

  -- handleGetConfig on the database of the state; the cache loses the module where it throws
  abbrev pub configure : String → State → Outcome
  configure mname s = elim (env.get_config mname s.database) [
    | inl d ↦ inl (forget mname (with_database d s))
    | inr d ↦ inr (with_database d s)
  ]

  abbrev pub caught : Outcome → State
  caught (inl s) = s
  caught (inr s) = s

  abbrev pub note_version : String → ModuleMeta → State → State
  note_version mname m s = record s {
    cache = put_key mname m.version s.cache;
    byname = mname ∷ s.byname;
  }

  -- The cached version is older; a rejected configuration is only logged.
  unfoldable pub upgrade : String → ModuleMeta → ℕ → State → Outcome
  unfolding put_key
  upgrade mname m cached s =
      if env.update_ok mname cached
      then inr (note_version mname m (caught (configure mname s)))
      else inl s

  -- ModuleDB::checkModuleCache: whether the module is new is told by the cache.
  unfoldable pub check_module_cache : String → ModuleMeta → State → Outcome
  unfolding find_key upgrade put_key
  check_module_cache mname m s = elim (find_key mname s.cache) [
    | none ↦ inr (note_version mname m s)
    | some cached ↦
        if ltb m.version cached
        then inl s
        else if ltb cached m.version
        then upgrade mname m cached s
        else inr (note_version mname m s)
  ]

  abbrev pub is_new : Option ℕ → Bool
  is_new none = true
  is_new (some v) = false

  -- ModuleDB::createStagingDirectory
  unfoldable pub create_staging_directory : String → State → State
  unfolding has_name
  create_staging_directory mname s =
      if has_name (env.cut_module mname) s.staging
      then s
      else record s { staging = env.cut_module mname ∷ s.staging }

  -- What loadModule does after checkModuleCache.
  unfoldable pub register : String → ModuleMeta → Bool → State → Outcome
  unfolding register_quotas register_classes create_staging_directory
  register mname m firsttime s =
      and_then (register_classes mname m.classes (register_quotas mname m.quotas s)) λ t.
        if firsttime
        then configure mname (create_staging_directory mname t)
        else inr (create_staging_directory mname t)

  -- What loadModule does after loadDependencies.
  unfoldable pub link : String → ModuleMeta → State → Outcome
  unfolding register check_module_cache find_key
  link mname m s =
      let t = record s { linked = s.linked ++ mname ∷ [] } in
      and_then (check_module_cache mname m t)
        λ u. register mname m (is_new (find_key mname s.cache)) u

  -- How loadModule goes on when its dependency is loaded or not; none is a lack of fuel.
  unfoldable pub after_dependency : String → ModuleMeta → Option Outcome → Option Outcome
  unfolding link
  after_dependency mname m none = none
  after_dependency mname m (some (inl t)) = some (inl t)
  after_dependency mname m (some (inr t)) = some (link mname m t)

  abbrev pub start : String → State → State
  start mname s = record s { history = mname ∷ s.history }

  -- The module as far as loadModule has it before loadDependencies, or none where it throws.
  unfoldable pub usable : String → Option ModuleMeta
  usable mname = elim (env.open_module mname) [
    | none ↦ none
    | some m ↦ if env.verify mname then some m else none
  ]

  -- ModuleDB::loadModule, on fuel
  unfoldable pub load_module : ℕ → String → State → Option Outcome
  unfolding has_name after_dependency usable merge_languages remove_key
  load_module zero mname s = none
  load_module (suc fuel) mname s =
      if has_name mname s.history
      then some (inr s)
      else if not (env.exists_path mname)
      then some (inl (forget mname (start mname s)))
      else elim (usable mname) [
        | none ↦ some (inl (start mname s))
        | some m ↦
            let t = record (start mname s) {
              languages = merge_languages s.languages m.languages;
            } in
            elim m.requires [
              | none ↦ some (link mname m t)
              | some required ↦ after_dependency mname m (load_module fuel required t)
            ]
      ]
