-- ===== src/Conf/Load.antt =====
-- `ReaderConfigLoad` of reader_conf/conf_load.go. What the library gcfg reads is an argument.
use log_reader.Prelude.{Result, ok, err}
use log_reader.Conf.Basic.{ConfBasic, BasicError, basic_conf_check}
use log_reader.Conf.AccessLog.{PbAccessLogConf, AccessLogError, pb_access_log_conf_check}

pub record ReaderConfig : Type 0 where
  pub main : ConfBasic
  pub pb_access_log_conf : PbAccessLogConf

pub data LoadError : Type 0 where
  read_error : LoadError
  basic_error : BasicError → LoadError
  access_log_error : AccessLogError → LoadError

abbrev pub with_access_log :
    ReaderConfig → ConfBasic → Result AccessLogError PbAccessLogConf → Result LoadError ReaderConfig
with_access_log cfg main (err e) = err (access_log_error e)
with_access_log cfg main (ok a) = ok (record { main = main; pb_access_log_conf = a })

abbrev pub with_basic : ReaderConfig → Result BasicError ConfBasic → Result LoadError ReaderConfig
with_basic cfg (err e) = err (basic_error e)
with_basic cfg (ok main) =
    with_access_log cfg main (pb_access_log_conf_check cfg.pb_access_log_conf)

-- The configuration that was read, or why it could not be.
unfoldable pub reader_config_load : Result LoadError ReaderConfig → Result LoadError ReaderConfig
reader_config_load (err e) = err e
reader_config_load (ok cfg) = with_basic cfg (basic_conf_check cfg.main)
