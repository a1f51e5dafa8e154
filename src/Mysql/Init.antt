-- ===== src/Mysql/Init.antt =====
-- `Init` of reader_modules/mod_log_mysql/mod_log_mysql.go with `LoadConfig`. What gcfg reads and the
-- outcomes of `sql.Open`, `Ping` and the registration of the monitor handlers are arguments, as are
-- the sizes for which Go's `make` does not panic.
pub mod Outcomes
use log_reader.Prelude.{
  to_int64, ℕ, ◌*◌, ◌+◌, ◌-◌, ◌^◌, ◌%◌, zero, suc, String, Bool, true, false, ◌&&◌, List, [], ◌∷◌,
  Option, none, some, Result, ok, err, ℤ, pos, negsuc, texts, if◌then◌else◌,
}
use log_reader.Mysql.Columns.{columns}
use log_reader.Mysql.Conf.{ConfModLogMysql, ConfError, conf_mod_log_mysql_check}
use log_reader.Mysql.Writer.{WriterConf}
use log_reader.Mysql.Writer.Statement.{new_stmt}
use log_reader.Mysql.Writer.Loop.{Writer, new_writer, lost_writer}

pub record InitAnswers : Type 0 where
  pub read : Option ConfModLogMysql
  pub open_ok : Bool
  pub ping_ok : Bool
  pub handlers_ok : Bool
  pub makes_channel : ℤ → Bool
  pub makes_batch : ℤ → Bool

-- `channel_panics` is no error that `Init` returns: `make` in `NewRecordWriter` panics.
pub data InitError : Type 0 where
  conf_unreadable open_error ping_error channel_panics handlers_error : InitError
  conf_invalid : ConfError → InitError

-- The pool of connections: its data source name, whether it is closed, and its two limits.
pub record Db : Type 0 where
  pub dsn : String
  pub is_closed : Bool
  pub max_open_conns : Option ℤ
  pub max_idle_conns : Option ℤ

-- The pool that was opened, if one was, and the writer once it is started, with its settings.
pub record ModuleLogMysql : Type 0 where
  pub db : Option Db
  pub writer : Option (WriterConf × Writer)

-- fmt.Sprintf("%s:%s@tcp(%s)/%s?charset=utf8mb4", …)
abbrev pub dsn_of : ConfModLogMysql → String
dsn_of c =
    texts
      (c.user ∷ ":" ∷ c.password ∷ "@tcp(" ∷ c.addr ∷ ")/" ∷ c.db_name ∷ "?charset=utf8mb4" ∷ [])

-- A setting that the check has made positive.
abbrev pub size : ℤ → ℕ
size (pos n) = n
size (negsuc n) = 0

-- `NewRecordWriter`
unfoldable pub new_record_writer : ConfModLogMysql → WriterConf
unfolding new_stmt columns
new_record_writer c = record {
  stmt = new_stmt c.table columns;
  queue_size = size c.queue_size;
  batch_size = size c.batch_size;
  max_retries = size c.max_retries;
}

-- `time.Duration(n) * time.Millisecond` of a setting, wrapped to 64 bits.
unfoldable pub flush_interval : ℤ → ℤ
flush_interval (pos n) = to_int64 ((n * 1000000) % 2 ^ 64)
flush_interval (negsuc n) = to_int64 ((2 ^ 64 - ((n + 1) * 1000000) % 2 ^ 64) % 2 ^ 64)

abbrev pub is_positive : ℤ → Bool
is_positive (pos zero) = false
is_positive (pos (suc n)) = true
is_positive (negsuc n) = false

-- Whether `writeLoop` comes to its loop: `time.NewTicker` panics unless the interval is positive.
unfoldable pub write_loop_starts : InitAnswers → ConfModLogMysql → Bool
unfolding flush_interval
write_loop_starts a c =
    is_positive (flush_interval c.flush_interval_ms) && a.makes_batch c.batch_size

-- `RecordWriter.Start`, with what `writeLoop` does before its loop.
unfoldable pub start_writer : InitAnswers → ConfModLogMysql → Writer
unfolding write_loop_starts
start_writer a c = if write_loop_starts a c then new_writer else lost_writer

-- `LoadConfig`, of what gcfg reads.
abbrev pub checked_conf : Result ConfError ConfModLogMysql → Result InitError ConfModLogMysql
checked_conf (err e) = err (conf_invalid e)
checked_conf (ok c) = ok c

unfoldable pub load_config : Option ConfModLogMysql → Result InitError ConfModLogMysql
unfolding conf_mod_log_mysql_check
load_config none = err conf_unreadable
load_config (some c) = checked_conf (conf_mod_log_mysql_check c)

-- `Init` once the configuration is loaded.
unfoldable pub init_db :
    InitAnswers
    → Result InitError ConfModLogMysql
    → ModuleLogMysql
    → Result InitError Unit × ModuleLogMysql
unfolding new_record_writer start_writer
init_db a (err e) m = (err e, m)
init_db a (ok c) m =
    let db : Db = record {
      dsn = dsn_of c;
      is_closed = false;
      max_open_conns = none;
      max_idle_conns = none;
    } in
    if a.open_ok
    then if a.ping_ok
      then (let limited : ModuleLogMysql = record m {
        db = some (record db {
          max_open_conns = some c.max_open_conns;
          max_idle_conns = some c.max_idle_conns;
        });
      } in
          if a.makes_channel c.queue_size
          then (
            if a.handlers_ok then ok tt else err handlers_error,
            record limited { writer = some (new_record_writer c, start_writer a c) },
          )
          else (err channel_panics, limited))
      else (err ping_error, record m { db = some (record db { is_closed = true }) })
    else (err open_error, m)

-- `Init`: its error, if any, and the module after it.
unfoldable pub mysql_init : InitAnswers → ModuleLogMysql → Result InitError Unit × ModuleLogMysql
unfolding load_config init_db
mysql_init a m = init_db a (load_config a.read) m
