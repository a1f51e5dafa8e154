-- ===== src/App/Bound.antt =====
-- Which modules the start binds to the readers, and which are the work modules.
use log_reader.Prelude.{
  String, true, false, ◌||◌, List, [], ◌∷◌, ◌++◌, append-nil, append_assoc, Option, none, some,
  Result, ok, err, ◌≡◌, refl, ap, ◌∙◌, subst, arith, str_eq, if◌then◌else◌, lookup, insert,
  lookup-insert, eq_iff, Bool-cases, inl, inr, if_elim, ok_inj, ◌⊎◌, All,
}
use log_reader.Fields.Names.{contains}
use log_reader.Conf.Modules.{parse_module, modules_support}
use log_reader.Conf.AccessLog.{
  PbAccessLogConf, AccessLogError, AccessLogVerdict, enabled, Supported, pb_access_log_conf_check,
  pb_access_log_conf_check-AccessLogVerdict,
}
use log_reader.Conf.Basic.{ConfBasic, BasicError, basic_conf_check}
use log_reader.Conf.Load.{ReaderConfig, reader_config_load, with_basic, with_access_log}
use log_reader.Modules.{
  Registry, add_module, register_module, register_found, get_work_modules, lookup-get_work_modules,
}
use log_reader.App.{
  Bindings, no_modules, set_modules, new_log_reader, register_modules, bind_readers,
}

module _ {M : Type 0} where
  abbrev pub Known : List (String × M) → String → Type 0
  Known all name = (m : M) × (lookup name all ≡ some m)

  -- What a registration of known names leaves.
  abbrev AllRegistered :
      List String
      → Registry M × List (String × M)
      → (Registry M × List (String × M)) × List String
      → Type 0
  AllRegistered names (r, modules) ((r', modules'), failed) =
      (failed ≡ [])
      × (r' ≡ record r { work_module_names = r.work_module_names ++ names })
      × ((k : String)
          → lookup k modules'
            ≡ (if contains k names then lookup k r.module_map else lookup k modules))

  register_modules-AllRegistered :
      (names : List String) (r : Registry M) (modules : List (String × M))
      → All (Known r.module_map) names
      → AllRegistered names (r, modules) (register_modules names (r, modules))
  unfolding register_modules register_module register_found
  register_modules-AllRegistered [] r modules known =
      (refl, rw (append-nil r.work_module_names) refl, λ k. refl)
  register_modules-AllRegistered (name ∷ names) r modules ((m, e), known) =
      let r' : Registry M = record r { work_module_names = r.work_module_names ++ (name ∷ []) } in
      let (f, s, l) = register_modules-AllRegistered names r' (insert name m modules) known in
      rw e (
        f,
        s
            ∙ ap (λ ns. record r { work_module_names = ns })
                (append_assoc r.work_module_names (name ∷ []) names),
        λ k. l k ∙ look k (Bool-cases (str_eq name k)),
      )
    where
      look :
          (k : String)
          → (str_eq name k ≡ true) ⊎ (str_eq name k ≡ false)
          → (if contains k names then lookup k r.module_map else lookup k (insert name m modules))
            ≡ (if str_eq name k || contains k names
                then lookup k r.module_map
                else lookup k modules)
      look k (inl t) =
          let there : lookup k r.module_map ≡ some m =
            subst (λ n. lookup n r.module_map ≡ some m) ((eq_iff name k).0 t) e in
          rw (lookup-insert name k m modules, t, there)
            (if_elim (λ o. o ≡ some m) (contains k names) (some m) (some m) refl refl)
      look k (inr t) = rw (lookup-insert name k m modules, t) refl

enabled-All :
    (P : String → Type 0) (ms : List String)
    → ((m : String) → Supported m → P (parse_module m).0)
    → All Supported ms
    → All P (enabled ms)
enabled-All P [] f a = tt
enabled-All P (m ∷ ms) f (s, a) =
    if_elim (All P) (parse_module m).1 ((parse_module m).0 ∷ enabled ms) (enabled ms)
      (f m s, enabled-All P ms f a) (enabled-All P ms f a)

-- What a configuration is that was loaded.
load-ok :
    (cfg c : ReaderConfig)
    → reader_config_load (ok cfg) ≡ ok c
    → pb_access_log_conf_check cfg.pb_access_log_conf ≡ ok c.pb_access_log_conf
unfolding reader_config_load
load-ok cfg c e = basic (basic_conf_check cfg.main) e
  where
    access :
        (main : ConfBasic) (r : Result AccessLogError PbAccessLogConf)
        → with_access_log cfg main r ≡ ok c
        → r ≡ ok c.pb_access_log_conf
    access main (err e) h = cc
    access main (ok a) h = ap ok (ap (λ (d : ReaderConfig). d.pb_access_log_conf) (ok_inj h))

    basic :
        (r : Result BasicError ConfBasic)
        → with_basic cfg r ≡ ok c
        → pb_access_log_conf_check cfg.pb_access_log_conf ≡ ok c.pb_access_log_conf
    basic (err e) h = cc
    basic (ok main) h = access main (pb_access_log_conf_check cfg.pb_access_log_conf) h

module _ {M : Type 0} (kafka mysql : M) where
  modules_support-Known :
      (name : String)
      → contains name modules_support ≡ true
      → Known (set_modules kafka mysql no_modules).module_map name
  unfolding set_modules add_module
  modules_support-Known name s = elim (Bool-cases (str_eq "mod_kafka" name)) [
    | inl e ↦ (kafka, rw e refl)
    | inr n ↦ elim (Bool-cases (str_eq "mod_log_mysql" name)) [
      | inl e ↦ (mysql, rw (n, e) refl)
      | inr k ↦ absurd (ground arith)
    ]
  ]

  -- For any configuration that was loaded, that names a log file, and for which none of the modules to load was set
  -- in the file: no registration fails, there is one reader, of that file, and for every name: the
  -- reader has a module of that name if and only if the name is listed and not disabled, it is the
  -- one that `SetModules` added, and the same holds for the work modules.
  pub bind_readers-load :
      (cfg c : ReaderConfig)
      → reader_config_load (ok cfg) ≡ ok c
      → cfg.pb_access_log_conf.final_modules ≡ []
      → str_eq c.pb_access_log_conf.log_file "" ≡ false
      → (name : String)
      → let a : PbAccessLogConf = c.pb_access_log_conf in
        let r : Registry M = set_modules kafka mysql no_modules in
        let b : Bindings M = bind_readers a.final_modules (new_log_reader a) r in
        let wanted : Option M =
          if contains name (enabled cfg.pb_access_log_conf.modules)
          then lookup name r.module_map
          else none in
        (b.failed ≡ [])
        × ((modules : List (String × M)) × (b.log_readers
              ≡ (record {
                log_path = a.log_file;
                max_size_per_batch = a.max_size_per_batch;
                modules = some modules;
              })
                ∷ [])
            × (lookup name modules ≡ wanted))
        × (lookup name (get_work_modules b.registry) ≡ wanted)
  unfolding bind_readers new_log_reader set_modules add_module
  bind_readers-load cfg c loaded fresh file name =
      let ms : List String = cfg.pb_access_log_conf.modules in
      let r : Registry M = set_modules kafka mysql no_modules in
      let verdict : AccessLogVerdict cfg.pb_access_log_conf (ok c.pb_access_log_conf) =
        subst (AccessLogVerdict cfg.pb_access_log_conf) (load-ok cfg c loaded)
          (pb_access_log_conf_check-AccessLogVerdict cfg.pb_access_log_conf) in
      let (same, listed, supported, size) = verdict in
      let final : c.pb_access_log_conf.final_modules ≡ enabled ms =
        listed ∙ ap (λ names. names ++ enabled ms) fresh in
      let known : All (Known r.module_map) (enabled ms) =
        enabled-All (Known r.module_map) ms (λ m s. modules_support-Known (parse_module m).0 s)
          supported in
      let (none_failed, registry, bound) = register_modules-AllRegistered (enabled ms) r [] known in
      rw (file, final)
        (
          append-nil _ ∙ none_failed,
          ((register_modules (enabled ms) (r, [])).0.1, refl, bound name),
          lookup-get_work_modules name _ ∙ rw registry refl,
        )
