-- ===== src/App.antt =====
-- The start and the end of the process: main/log_reader.go, bfe_log_reader/bfe_log_reader.go,
-- bfe_log_reader/register_modulers.go and reader_modules/all_modules.go. A module is any value:
-- whether its `Init` succeeds is an argument, as is the order in which Go ranges over the map of the
-- work modules.
pub mod Bound
pub mod Orderly
use log_reader.Prelude.{
  ℕ, String, Bool, true, false, List, [], ◌∷◌, ◌++◌, Option, none, some, Result, ok, err, ℤ, map,
  str_eq, if◌then◌else◌,
}
use log_reader.Conf.AccessLog.{PbAccessLogConf}
use log_reader.Conf.Load.{ReaderConfig, LoadError, reader_config_load}
use log_reader.Modules.{Registry, add_module, register_module, get_work_modules}

-- A reader of a log file, with the modules that are bound to it.
pub record LogReader (M : Type 0) : Type 0 where
  pub log_path : String
  pub max_size_per_batch : ℤ
  pub modules : Option (List (String × M))

-- The packages' variables and the readers once the modules are registered, and the names for which
-- an error was logged.
pub record Bindings (M : Type 0) : Type 0 where
  pub registry : Registry M
  pub log_readers : List (LogReader M)
  pub failed : List String

-- What the process has done when it ends: the exit code, if it is by `Exit`, the modules and readers
-- started, and the modules on which `Close` was called.
pub record Process (M : Type 0) : Type 0 where
  pub code : Option ℕ
  pub started : List String
  pub reading : List (LogReader M)
  pub closed : List String

-- What a process was given: the flag -h, whether `log.Init` succeeds, what is read of the
-- configuration file, whether the web handlers can be set up, whether the `Init` of a module succeeds,
-- and the orders of the two loops over the work modules. `sigterm` is what `signal_table.TermHandler`
-- leaves of the process, where a SIGTERM reaches it after `InitSignalTable`.
pub record Input (M : Type 0) : Type 0 where
  pub help : Bool
  pub log_init : Bool
  pub read : Result LoadError ReaderConfig
  pub handlers_init : Bool
  pub init : String → M → Bool
  pub start_order : List (String × M) → List (String × M)
  pub sigterm : Option (Process M → Process M)
  pub close_order : List (String × M) → List (String × M)

module _ {M : Type 0} where
  abbrev pub no_modules : Registry M
  no_modules = record { module_map = []; work_module_names = [] }

  -- `SetModules`.
  unfoldable pub set_modules : M → M → Registry M → Registry M
  unfolding add_module
  set_modules kafka mysql r = add_module "mod_log_mysql" mysql (add_module "mod_kafka" kafka r)

  -- `newLogReader`.
  unfoldable pub new_log_reader : PbAccessLogConf → List (LogReader M)
  new_log_reader c =
      if str_eq c.log_file ""
      then []
      else (record {
        log_path = c.log_file;
        max_size_per_batch = c.max_size_per_batch;
        modules = none;
      })
        ∷ []

  abbrev pub kept :
      Registry M × List (String × M)
      → Result String (Registry M × List (String × M))
      → Registry M × List (String × M)
  kept s (ok s') = s'
  kept s (err e) = s

  abbrev pub failure : Result String (Registry M × List (String × M)) → List String
  failure (ok s) = []
  failure (err name) = name ∷ []

  -- `registerModules`: an error is logged, and the loop goes on.
  unfoldable pub register_modules :
      List String → Registry M × List (String × M) → (Registry M × List (String × M)) × List String
  unfolding register_module
  register_modules [] s = (s, [])
  register_modules (name ∷ names) s =
      let r : Result String (Registry M × List (String × M)) = register_module name s in
      let rest : (Registry M × List (String × M)) × List String =
        register_modules names (kept s r) in
      (rest.0, failure r ++ rest.1)

  -- `RegisterModules`, the loop over the readers.
  unfoldable pub bind_readers : List String → List (LogReader M) → Registry M → Bindings M
  unfolding register_modules
  bind_readers names [] r = record { registry = r; log_readers = []; failed = [] }
  bind_readers names (lr ∷ lrs) r =
      let one : (Registry M × List (String × M)) × List String = register_modules names (r, []) in
      let rest : Bindings M = bind_readers names lrs one.0.0 in
      record {
        registry = rest.registry;
        log_readers = (record lr { modules = some one.0.1 }) ∷ rest.log_readers;
        failed = one.1 ++ rest.failed;
      }

  -- The first loop of `Start`: the names of the modules started, and whether every `Init` succeeded.
  unfoldable pub start_modules : (String → M → Bool) → List (String × M) → List String × Bool
  start_modules init [] = ([], true)
  start_modules init ((name, m) ∷ ms) =
      let rest : List String × Bool = start_modules init ms in
      if init name m then (name ∷ rest.0, rest.1) else ([], false)

  abbrev pub names : List (String × M) → List String
  names ms = map (λ (m : String × M). m.0) ms

  -- `Exit`: an error of `Close` is logged, and the loop goes on.
  unfoldable pub exit : ℕ → Input M → Registry M → List String → List (LogReader M) → Process M
  unfolding get_work_modules
  exit code i r started reading = record {
    code = some code;
    started = started;
    reading = reading;
    closed = names (i.close_order (get_work_modules r));
  }

  -- From `Start` on. The process then waits for a signal.
  unfoldable pub start_all : Input M → Bindings M → Process M
  unfolding start_modules exit
  start_all i b =
      let s : List String × Bool =
        start_modules i.init (i.start_order (get_work_modules b.registry)) in
      if s.1 then exit 0 i b.registry s.0 b.log_readers else exit 1 i b.registry s.0 []

  -- `InitSignalTable` with `RegisterSignalHandlers`: a SIGTERM goes to `TermHandler`, also while the
  -- process goes on to start and to wait.
  unfoldable pub signalled : Input M → Process M → Process M
  signalled i p = elim i.sigterm [ none ↦ p | some cut ↦ cut p ]

  -- From the configuration on.
  unfoldable pub with_config : M → M → Input M → Result LoadError ReaderConfig → Process M
  unfolding start_all bind_readers set_modules new_log_reader exit signalled
  with_config kafka mysql i (err e) = exit 1 i no_modules [] []
  with_config kafka mysql i (ok c) =
      let r : Registry M = set_modules kafka mysql no_modules in
      let a : PbAccessLogConf = c.pb_access_log_conf in
      if i.handlers_init
      then signalled i (start_all i (bind_readers a.final_modules (new_log_reader a) r))
      else exit 1 i r [] []

  -- `main`.
  unfoldable pub main : M → M → Input M → Process M
  unfolding with_config reader_config_load exit
  main kafka mysql i =
      if i.help
      then record { code = none; started = []; reading = []; closed = [] }
      else if i.log_init
      then with_config kafka mysql i (reader_config_load i.read)
      else exit 1 i no_modules [] []
