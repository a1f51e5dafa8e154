-- ===== src/Tests/Pipeline.antt =====
-- The theorems from the log file to the modules, at the files and modules of Tests.Reader.
use log_reader.Prelude.{
  ℕ, ◌+◌, String, Bool, true, false, ◌≡◌, refl, List, [], ◌∷◌, ◌++◌, Option, some, length, map,
  concat, ltb,
}
use log_reader.Fields.Log.{BfeLog}
use log_reader.Fields.Registry.{FieldRegistry, register_all_fields}
use log_reader.Fields.Value.{Value}
use log_reader.Kafka.Pipeline as KafkaPipeline
use log_reader.Kafka.Pipeline.Conserved.{Conserved, start-updates-Conserved}
use log_reader.Kafka.Producer.{ProducerConf}
use log_reader.Kafka.Update.{receives, ticks}
use log_reader.Kafka.Update as KafkaUpdate
use log_reader.Mysql.Pipeline as MysqlPipeline
use log_reader.Mysql.Pipeline.Conserved.{ConservedRows, start-updates-ConservedRows}
use log_reader.Mysql.Update as MysqlUpdate
use log_reader.Mysql.Writer.{WriterConf, TxnOutcome, commits}
use log_reader.Mysql.Writer.Statement.{new_stmt}
use log_reader.Reader.Dispatch.{calls_of}
use log_reader.Reader.Goroutines.{Turn, takes, meanwhile}
use log_reader.Reader.Start.{PbLogReader, Calls, start_loop}
use log_reader.Reader.Start.Counts.{log_run}
use log_reader.Reader.Start.Turns.{turn_io, rotations_io}
use log_reader.Reader.{Io}
use log_reader.Tests.Reader.{codec, reader, started, modules, first_turns, rotated}

abbrev pub reg : FieldRegistry
reg = register_all_fields "h1"

abbrev pub marshal : List (String × Value) → Option String
marshal o = some "{}"

abbrev pub env : ℕ → Bool → Bool
env n true = false
env n false = ltb 0 n

abbrev pub dlq_env : ℕ → Bool
dlq_env n = true

abbrev pub conf : ProducerConf
conf = record { queue_size = 1; batch_size = 2; has_dlq = true }

-- A file, and its successor.
abbrev ios : List Io
ios = map (turn_io 5) first_turns ++ rotations_io rotated

abbrev read : Calls ℕ × PbLogReader ℕ
read = start_loop codec false ios started

-- The second goroutine begins before the first, one has nothing left, and one is not begun.
abbrev pub kafka_turns : List (Turn KafkaUpdate.Turn)
kafka_turns = takes 1 ∷ takes 0 ∷ meanwhile receives ∷ takes 0 ∷ meanwhile ticks ∷ []

abbrev kafka_done : List (List BfeLog) × KafkaUpdate.ModuleKafka
kafka_done =
    KafkaPipeline.updates marshal reg [] env dlq_env conf kafka_turns (calls_of "mod_kafka" read.0)

start-updates-Conserved_example :
    Conserved marshal reg [] env dlq_env conf
      (log_run codec false ios reader).0
      (concat kafka_done.0)
      kafka_done.1
    × (read.1.file.state.sum_pb_record
        ≡ 0 + kafka_done.1.received_logs + length (concat kafka_done.0))
start-updates-Conserved_example =
    start-updates-Conserved marshal reg [] env dlq_env conf "mod_kafka" modules codec false ios
      started kafka_turns refl refl refl

abbrev pub commits_all : ℕ → TxnOutcome
commits_all n = commits

abbrev pub json : Value → Option String
json v = some "{}"

abbrev pub writer_conf : WriterConf
writer_conf = record {
  stmt = new_stmt "t" ("a" ∷ "b" ∷ []);
  queue_size = 1;
  batch_size = 2;
  max_retries = 0;
}

abbrev pub mysql_turns : List (Turn MysqlUpdate.Turn)
mysql_turns =
    takes 0 ∷ takes 1 ∷ meanwhile MysqlUpdate.receives ∷ takes 5 ∷ meanwhile MysqlUpdate.closes ∷ []

abbrev mysql_done : List (List BfeLog) × MysqlUpdate.ModuleLogMysql
mysql_done =
    MysqlPipeline.updates json reg commits_all writer_conf mysql_turns
      (calls_of "mod_log_mysql" read.0)

start-updates-ConservedRows_example :
    ConservedRows json reg commits_all writer_conf
      (log_run codec false ios reader).0
      (concat mysql_done.0)
      mysql_done.1
    × (read.1.file.state.sum_pb_record
        ≡ 0 + mysql_done.1.received_logs + length (concat mysql_done.0))
start-updates-ConservedRows_example =
    start-updates-ConservedRows json reg commits_all writer_conf "mod_log_mysql" modules codec false
      ios started mysql_turns refl refl refl
