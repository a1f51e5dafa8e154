-- ===== src/Mysql/Conf.antt =====
-- The settings of reader_modules/mod_log_mysql/conf_mod_log_mysql.go and their check.
use log_reader.Prelude.{
  String, true, false, ◌≡◌, refl, arith, Result, ok, err, str_eq, if◌then◌else◌, if_elim_eq, ℤ,
  default_to, IsPositive, default_to-IsPositive, default_to-default_to,
}

-- `ConfMysql` and `ConfLogMysqlWriter`.
pub record ConfModLogMysql : Type 0 where
  pub addr : String
  pub user : String
  pub password : String
  pub db_name : String
  pub table : String
  pub queue_size : ℤ
  pub batch_size : ℤ
  pub flush_interval_ms : ℤ
  pub max_retries : ℤ
  pub max_open_conns : ℤ
  pub max_idle_conns : ℤ

pub data ConfError : Type 0 where
  addr_is_empty user_is_empty db_name_is_empty table_is_empty : ConfError

-- The assignments of the default values.
unfoldable pub with_defaults : ConfModLogMysql → ConfModLogMysql
with_defaults c = record c {
  queue_size = default_to 2000 c.queue_size;
  batch_size = default_to 200 c.batch_size;
  flush_interval_ms = default_to 2000 c.flush_interval_ms;
  max_retries = default_to 3 c.max_retries;
  max_open_conns = default_to 10 c.max_open_conns;
  max_idle_conns = default_to 5 c.max_idle_conns;
}

-- `ConfModLogMysqlCheck`: the settings after it, or why it fails.
unfoldable pub conf_mod_log_mysql_check : ConfModLogMysql → Result ConfError ConfModLogMysql
unfolding with_defaults
conf_mod_log_mysql_check c =
    if str_eq c.addr ""
    then err addr_is_empty
    else if str_eq c.user ""
    then err user_is_empty
    else if str_eq c.db_name ""
    then err db_name_is_empty
    else if str_eq c.table ""
    then err table_is_empty
    else ok (with_defaults c)

-- What each outcome of the check says.
abbrev pub Verdict : ConfModLogMysql → Result ConfError ConfModLogMysql → Type 0
Verdict c (err addr_is_empty) = str_eq c.addr "" ≡ true
Verdict c (err user_is_empty) = str_eq c.user "" ≡ true
Verdict c (err db_name_is_empty) = str_eq c.db_name "" ≡ true
Verdict c (err table_is_empty) = str_eq c.table "" ≡ true
Verdict c (ok d) =
    IsPositive d.queue_size
    × IsPositive d.batch_size
    × IsPositive d.flush_interval_ms
    × IsPositive d.max_retries
    × IsPositive d.max_open_conns
    × IsPositive d.max_idle_conns
    × (conf_mod_log_mysql_check d ≡ ok d)

with_defaults-with_defaults :
    (c : ConfModLogMysql) → with_defaults (with_defaults c) ≡ with_defaults c
unfolding with_defaults
with_defaults-with_defaults c =
    rw
      (
        default_to-default_to 2000 c.queue_size (omega arith),
        default_to-default_to 200 c.batch_size (omega arith),
        default_to-default_to 2000 c.flush_interval_ms (omega arith),
        default_to-default_to 3 c.max_retries (omega arith),
        default_to-default_to 10 c.max_open_conns (omega arith),
        default_to-default_to 5 c.max_idle_conns (omega arith),
      )
      refl

-- For any settings: each error of the check names a setting that is empty; if the check succeeds, the
-- six sizes and times are then positive, so the writer's queue and batches have room, and a second
-- check of the result changes nothing.
pub conf_mod_log_mysql_check-Verdict :
    (c : ConfModLogMysql) → Verdict c (conf_mod_log_mysql_check c)
unfolding conf_mod_log_mysql_check
conf_mod_log_mysql_check-Verdict c =
    if_elim_eq (Verdict c) (str_eq c.addr "") _ _ (λ e. e)
      (λ a.
        if_elim_eq (Verdict c) (str_eq c.user "") _ _ (λ e. e)
          (λ u.
            if_elim_eq (Verdict c) (str_eq c.db_name "") _ _ (λ e. e)
              (λ d.
                if_elim_eq (Verdict c) (str_eq c.table "") _ _ (λ e. e) (λ t. checked a u d t))))
  where
    checked :
        str_eq c.addr "" ≡ false
        → str_eq c.user "" ≡ false
        → str_eq c.db_name "" ≡ false
        → str_eq c.table "" ≡ false
        → Verdict c (ok (with_defaults c))
    checked a u d t = (
      default_to-IsPositive 2000 c.queue_size (omega arith),
      default_to-IsPositive 200 c.batch_size (omega arith),
      default_to-IsPositive 2000 c.flush_interval_ms (omega arith),
      default_to-IsPositive 3 c.max_retries (omega arith),
      default_to-IsPositive 10 c.max_open_conns (omega arith),
      default_to-IsPositive 5 c.max_idle_conns (omega arith),
      rw (a, u, d, t, with_defaults-with_defaults c) refl,
    )
