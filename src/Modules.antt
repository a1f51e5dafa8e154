-- ===== src/Modules.antt =====
-- The registry of modules: reader_module/reader_module.go. A module is any value; what it does is in
-- Mysql and Kafka.
use log_reader.Prelude.{
  String, Bool, true, false, ◌||◌, List, [], ◌∷◌, ◌++◌, Option, none, some, Result, ok, err, ◌≡◌,
  refl, ◌∙◌, arith, str_eq, if◌then◌else◌, lookup, insert, lookup-insert, eq_iff, Bool-cases, inl,
  inr,
}
use log_reader.Fields.Names.{contains}

-- The package's variables `moduleMap` and `workModuleNames`.
pub record Registry (M : Type 0) : Type 0 where
  pub module_map : List (String × M)
  pub work_module_names : List String

contains-last : (k : String) (names : List String) → contains k (names ++ (k ∷ [])) ≡ true
contains-last k [] = rw ((eq_iff k k).1 refl) refl
contains-last k (name ∷ names) = rw (contains-last k names) (ground arith)

module _ {M : Type 0} where
  unfoldable pub add_module : String → M → Registry M → Registry M
  add_module name m r = record r { module_map = insert name m r.module_map }

  -- `RegisterModule` on the modules of one reader, `ReaderModules`, after the map was read.
  unfoldable pub register_found :
      String
      → Option M
      → Registry M × List (String × M)
      → Result String (Registry M × List (String × M))
  register_found name none s = err name
  register_found name (some m) (r, modules) =
      ok
        (record r { work_module_names = r.work_module_names ++ (name ∷ []) }, insert name m modules)

  unfoldable pub register_module :
      String → Registry M × List (String × M) → Result String (Registry M × List (String × M))
  unfolding register_found
  register_module name (r, modules) = register_found name (lookup name r.module_map) (r, modules)

  -- if module, ok := moduleMap[name]; ok { modules[name] = module }
  abbrev pub add_found : String → Option M → List (String × M) → List (String × M)
  add_found name none modules = modules
  add_found name (some m) modules = insert name m modules

  unfoldable pub work_modules :
      List (String × M) → List String → List (String × M) → List (String × M)
  work_modules all [] modules = modules
  work_modules all (name ∷ names) modules =
      work_modules all names (add_found name (lookup name all) modules)

  unfoldable pub get_work_modules : Registry M → List (String × M)
  unfolding work_modules
  get_work_modules r = work_modules r.module_map r.work_module_names []

  abbrev or_else : Option M → Option M → Option M
  or_else none b = b
  or_else (some a) b = some a

  or_else-same : (a b : Option M) → or_else a (or_else a b) ≡ or_else a b
  or_else-same none b = refl
  or_else-same (some x) b = refl

  lookup-add_found :
      (name k : String) (all modules : List (String × M))
      → lookup k (add_found name (lookup name all) modules)
        ≡ (if str_eq name k then or_else (lookup k all) (lookup k modules) else lookup k modules)
  lookup-add_found name k all modules = elim (Bool-cases (str_eq name k)) [
    | inl e ↦ rw (e, (eq_iff name k).0 e) (found k (lookup k all))
    | inr e ↦ rw e (other (lookup name all) e)
  ]
    where
      found :
          (j : String) (o : Option M)
          → lookup j (add_found j o modules) ≡ or_else o (lookup j modules)
      found j none = refl
      found j (some m) = lookup-insert j j m modules ∙ rw ((eq_iff j j).1 refl) refl

      other :
          (o : Option M)
          → str_eq name k ≡ false
          → lookup k (add_found name o modules) ≡ lookup k modules
      other none e = refl
      other (some m) e = lookup-insert name k m modules ∙ rw e refl

  lookup-work_modules :
      (k : String) (all : List (String × M)) (names : List String) (modules : List (String × M))
      → lookup k (work_modules all names modules)
        ≡ (if contains k names then or_else (lookup k all) (lookup k modules) else lookup k modules)
  unfolding work_modules
  lookup-work_modules k all [] modules = refl
  lookup-work_modules k all (name ∷ names) modules =
      lookup-work_modules k all names (add_found name (lookup name all) modules)
      ∙ rw (lookup-add_found name k all modules) (join (contains k names) (str_eq name k))
    where
      a : Option M
      a = lookup k all

      b : Option M
      b = lookup k modules

      join :
          (c e : Bool)
          → (if c then or_else a (if e then or_else a b else b) else (if e then or_else a b else b))
            ≡ (if e || c then or_else a b else b)
      join true true = or_else-same a b
      join true false = refl
      join false true = refl
      join false false = refl

  -- `GetWorkModules` has a module for a name if and only if the name was registered for work and a
  -- module of that name was added; it is then that module.
  pub lookup-get_work_modules :
      (k : String) (r : Registry M)
      → lookup k (get_work_modules r)
        ≡ (if contains k r.work_module_names then lookup k r.module_map else none)
  unfolding get_work_modules
  lookup-get_work_modules k r =
      lookup-work_modules k r.module_map r.work_module_names []
      ∙ same (contains k r.work_module_names) (lookup k r.module_map)
    where
      same :
          (c : Bool) (o : Option M) → (if c then or_else o none else none) ≡ (if c then o else none)
      same true none = refl
      same true (some m) = refl
      same false o = refl

  -- What each outcome of a registration says of the modules of the reader and of all work modules.
  abbrev pub Registered :
      String → Registry M → Result String (Registry M × List (String × M)) → Type 0
  Registered name r (err e) = lookup name r.module_map ≡ none
  Registered name r (ok (r', modules)) =
      (m : M) × (lookup name r.module_map ≡ some m)
      × (lookup name modules ≡ some m)
      × (lookup name (get_work_modules r') ≡ some m)

  -- A registration fails only if no module of that name was added; else the module that was added
  -- under the name is then among the modules of the reader and among the work modules.
  pub register_module-Registered :
      (name : String) (r : Registry M) (modules : List (String × M))
      → Registered name r (register_module name (r, modules))
  unfolding register_module register_found
  register_module-Registered name r modules = go (lookup name r.module_map) refl
    where
      go :
          (o : Option M)
          → lookup name r.module_map ≡ o
          → Registered name r (register_found name o (r, modules))
      go none n = n
      go (some m) s =
          let r' : Registry M = record r {
            work_module_names = r.work_module_names ++ (name ∷ []);
          } in
          (
            m,
            s,
            lookup-insert name name m modules ∙ rw ((eq_iff name name).1 refl) refl,
            lookup-get_work_modules name r' ∙ rw (contains-last name r.work_module_names) s,
          )
