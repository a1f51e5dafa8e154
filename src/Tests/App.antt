-- ===== src/Tests/App.antt =====
-- The theorems on the start and the end of the process, with numbers for modules.
use log_reader.Prelude.{
  ℕ, String, ◌≡◌, refl, List, [], ◌∷◌, true, false, none, some, ok, pos, negsuc, lookup,
}
use log_reader.Conf.Basic.{ConfBasic, basic_conf_check}
use log_reader.Conf.AccessLog.{pb_access_log_conf_check}
use log_reader.Conf.Load.{ReaderConfig, reader_config_load}
use log_reader.Modules.{get_work_modules}
use log_reader.App.{Bindings, Input, no_modules, set_modules, new_log_reader, bind_readers, main}
use log_reader.App.Bound.{bind_readers-load}

abbrev basic : ℕ → ConfBasic
basic interval = record {
  max_cpus = pos 4;
  http_port = pos 8080;
  http_addr = "";
  monitor_interval = pos interval;
  program_name = "";
}

abbrev written : ReaderConfig
written = record {
  main = basic 0;
  pb_access_log_conf = record {
    log_file = "access.log";
    modules = "mod_kafka:false" ∷ "mod_log_mysql" ∷ [];
    max_size_per_batch = pos 0;
    final_modules = [];
  };
}

abbrev loaded : ReaderConfig
loaded = record {
  main = basic 20;
  pb_access_log_conf = record {
    log_file = "access.log";
    modules = "mod_kafka:false" ∷ "mod_log_mysql" ∷ [];
    max_size_per_batch = negsuc 0;
    final_modules = "mod_log_mysql" ∷ [];
  };
}

abbrev bindings : Bindings ℕ
bindings =
    bind_readers loaded.pb_access_log_conf.final_modules (new_log_reader loaded.pb_access_log_conf)
      (set_modules 1 2 no_modules)

bind_readers-load_example :
    (bindings.failed ≡ [])
    × ((modules : List (String × ℕ)) × (bindings.log_readers
          ≡ (record {
            log_path = "access.log";
            max_size_per_batch = negsuc 0;
            modules = some modules;
          })
            ∷ [])
        × (lookup "mod_log_mysql" modules ≡ some 2))
    × (lookup "mod_log_mysql" (get_work_modules bindings.registry) ≡ some 2)
unfolding set_modules reader_config_load basic_conf_check pb_access_log_conf_check
bind_readers-load_example = bind_readers-load 1 2 written loaded refl refl refl "mod_log_mysql"

-- The second module cannot be initialised.
abbrev input : Input ℕ
input = record {
  help = false;
  log_init = true;
  read = ok written;
  handlers_init = true;
  init = λ name m. false;
  start_order = λ ms. ms;
  close_order = λ ms. ms;
  sigterm = none;
}
