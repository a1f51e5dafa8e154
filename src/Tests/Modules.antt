-- ===== src/Tests/Modules.antt =====
-- The theorems on the registry of modules, with numbers for modules.
use log_reader.Prelude.{ℕ, [], ◌∷◌}
use log_reader.Modules.{Registry, register_module, Registered, register_module-Registered}

abbrev registry : Registry ℕ
registry = record {
  module_map = ("mod_kafka", 1) ∷ ("mod_log_mysql", 2) ∷ [];
  work_module_names = "mod_kafka" ∷ [];
}

register_module_test :
    Registered "mod_log_mysql" registry (register_module "mod_log_mysql" (registry, []))
register_module_test = register_module-Registered "mod_log_mysql" registry []
