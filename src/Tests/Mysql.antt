-- ===== src/Tests/Mysql.antt =====
-- The theorems on reader_modules/mod_log_mysql at concrete records and database outcomes.
use log_reader.Prelude.{
  ℕ, String, true, pos, negsuc, ◌≡◌, refl, ◌⊎◌, List, [], ◌∷◌, ◌++◌, some, none, ok, ◌≢◌, Option,
  arith, leb, ◌==◌, if◌then◌else◌, length,
}
use log_reader.Fields.Value.{Value, string, nil}
use log_reader.Fields.Extractors.{ai_apikeytags}
use log_reader.Fields.Registry.{register_all_fields}
use log_reader.Mysql.Init.{InitAnswers, ModuleLogMysql, flush_interval, mysql_init}
use log_reader.Mysql.Init.Outcomes.{InitVerdict, mysql_init-InitVerdict}
use log_reader.Mysql.Close.{mysql_close, close_db, IsDrained, mysql_close-IsDrained}
use log_reader.Mysql.Columns.{column_defs, columns}
use log_reader.Mysql.Mapper.{to_row, flatten_tag, tags_of}
use log_reader.Mysql.Mapper.Row.{Rowwise, Place, to_row-Rowwise}
use log_reader.Mysql.Mapper.Errors.{to_row-total}
use log_reader.Mysql.Mapper.Tags.{flatten_tag-last}
use log_reader.Mysql.Writer.{
  Row, WriterConf, TxnOutcome, begin_fails, exec_fails, commits, panicked, write_batch_with_retry,
}
use log_reader.Mysql.Writer.Statement.{new_stmt, build_stmt}
use log_reader.Mysql.Writer.Placeholders.{marks, marks-build_stmt-rows}
use log_reader.Mysql.Writer.Loop.{
  Writer, Event, enqueue, receive, tick, stop, step, run, new_writer, empty_sink, running, closed,
  crashed,
}
use log_reader.Mysql.Writer.Retries.{failures, write_batch_with_retry-verdict}
use log_reader.Mysql.Writer.Delivery.{held, accepted, held-run, rows_of}
use log_reader.Mysql.Writer.Bounds.{Inv, run-new_writer-Inv}
use log_reader.Mysql.Writer.Shutdown.{stop-drains}
use log_reader.Tests.Samples.{sample_log, session_log}
use log_reader.Fields.Log.{BfeLog}
use log_reader.Mysql.Update.{
  Turn, receives, ticks, Accounted, update, new_module_log_mysql,
  update-new_module_log_mysql-Accounted,
}

-- A table of two columns, batches of two rows.
abbrev conf : WriterConf
conf = record {
  stmt = new_stmt "t" ("a" ∷ "b" ∷ []);
  queue_size = 3;
  batch_size = 2;
  max_retries = 4;
}

-- The first four transactions fail.
abbrev env : ℕ → TxnOutcome
env n = if leb 4 n then commits else if n == 2 then begin_fails else exec_fails

abbrev row : ℕ → Row
row n = string "a" ∷ nil ∷ []

abbrev events : List Event
events = enqueue (row 1) ∷ receive ∷ enqueue (row 2) ∷ tick ∷ enqueue (row 3) ∷ []

abbrev marshal : Value → Option String
marshal v = some "{}"

write_batch_with_retry-verdict_example :
    (write_batch_with_retry env conf (row 1 ∷ []) empty_sink).0 ≡ panicked
unfolding failures
write_batch_with_retry-verdict_example =
    write_batch_with_retry-verdict env conf (row 1 ∷ []) empty_sink

held-run_example :
    held (run env conf new_writer events) ≡ held new_writer ++ accepted env conf new_writer events
held-run_example = held-run env conf new_writer events

run-new_writer-Inv_example : Inv conf (run env conf new_writer events)
run-new_writer-Inv_example = run-new_writer-Inv env conf (omega arith) events

flatten_tag-last_example :
    flatten_tag (tags_of (ai_apikeytags sample_log)) 1 ≡ (string "team", string "ads")
flatten_tag-last_example = flatten_tag-last sample_log 1 (omega arith) (omega arith)

abbrev loaded : Writer
loaded = record {
  queue = row 1 ∷ row 2 ∷ [];
  batch = [];
  status = running;
  sink = empty_sink;
  handed = [];
}

stop-drains_example :
    (((step env conf loaded stop).status ≡ closed)
      × ((step env conf loaded stop).queue ≡ [])
      × ((step env conf loaded stop).batch ≡ [])
      × (rows_of (step env conf loaded stop).handed ≡ held loaded))
    ⊎ ((step env conf loaded stop).status ≡ crashed)
stop-drains_example = stop-drains env conf loaded refl

-- A `json.Marshal` that never fails.
never_fails : (v : Value) → marshal v ≢ none
never_fails v e = cc

abbrev sample_row : Row
sample_row = (to_row-total marshal (register_all_fields "h1") sample_log never_fails).0

to_row-total_test : (row : Row) × (to_row marshal (register_all_fields "h1") sample_log ≡ ok row)
to_row-total_test = to_row-total marshal (register_all_fields "h1") sample_log never_fails

to_row-Rowwise_example : Rowwise (Place marshal "h1" sample_log) column_defs sample_row
to_row-Rowwise_example =
    to_row-Rowwise marshal "h1" sample_log sample_row
      (to_row-total marshal (register_all_fields "h1") sample_log never_fails).1

abbrev logs : List (List Turn × BfeLog)
logs = ([], sample_log) ∷ (receives ∷ [], session_log) ∷ (ticks ∷ [], sample_log) ∷ []

update-new_module_log_mysql-Accounted_test :
    Accounted marshal
      (register_all_fields "h1")
      env
      conf
      (update marshal (register_all_fields "h1") env conf logs new_module_log_mysql)
update-new_module_log_mysql-Accounted_test =
    update-new_module_log_mysql-Accounted marshal (register_all_fields "h1") env conf logs

unmarked : marks "bfe_log" ≡ 0
unfolding marks
unmarked = refl

made : to_row marshal (register_all_fields "h1") sample_log ≡ ok sample_row
made = (to_row-total marshal (register_all_fields "h1") sample_log never_fails).1

marks-build_stmt-rows_example :
    marks (build_stmt (new_stmt "bfe_log" columns) 2) ≡ length (sample_row ++ (sample_row ++ []))
marks-build_stmt-rows_example =
    marks-build_stmt-rows marshal (register_all_fields "h1") "bfe_log"
      (sample_row ∷ sample_row ∷ []) unmarked ((sample_log, made), ((sample_log, made), tt))

-- Settings without a batch size, and a database that answers.
abbrev answers : InitAnswers
answers = record {
  read = some (record {
    addr = "127.0.0.1:3306";
    user = "u";
    password = "p";
    db_name = "d";
    table = "t";
    queue_size = pos 10;
    batch_size = negsuc 4;
    flush_interval_ms = pos 0;
    max_retries = pos 9;
    max_open_conns = pos 0;
    max_idle_conns = pos 0;
  });
  open_ok = true;
  ping_ok = true;
  handlers_ok = true;
  makes_channel = λ n. true;
  makes_batch = λ n. true;
}

abbrev fresh : ModuleLogMysql
fresh = record { db = none; writer = none }

mysql_init-InitVerdict_example :
    InitVerdict answers fresh (mysql_init answers fresh).0 (mysql_init answers fresh).1
mysql_init-InitVerdict_example = mysql_init-InitVerdict answers fresh

-- The longest interval that a `time.Duration` holds, and the next one.
flush_interval_test :
    (flush_interval (pos 9223372036854) ≡ pos 9223372036854000000)
    × (flush_interval (pos 9223372036855) ≡ negsuc 9223372036854551615)
unfolding flush_interval
flush_interval_test = (refl, refl)

abbrev served : ModuleLogMysql
served = (mysql_init answers fresh).1

mysql_close-IsDrained_example :
    (conf : WriterConf) × (w : Writer) × ((mysql_close env events served).writer ≡ some (conf, w))
    × ((mysql_close env events served).db ≡ close_db served.db)
    × IsDrained env conf (accepted env conf new_writer events) w
unfolding mysql_init
mysql_close-IsDrained_example =
    mysql_close-IsDrained env answers fresh served events refl
      (refl, (refl, (refl, (refl, (refl, tt)))))
