-- ===== src/Generator/Accounted.antt =====
-- From the log generator to the counters and the queues of the two modules.
use log_reader.Prelude.{ℕ, true, String, Bool, List, [], ◌∷◌, Option, ◌≡◌, refl, ℤ, subst, concat}
use log_reader.Fields.Registry.{FieldRegistry}
use log_reader.Fields.Value.{Value}
use log_reader.Generator.FromStart.{ios_from_start, new_pb_log_reader-must_write_all}
use log_reader.Generator.Frames.{Wire}
use log_reader.Generator.RoundTrip.{WriteCalls, rotations, all_logs, Holds, AllRestored}
use log_reader.Generator.{Encoder}
use log_reader.Kafka.Fields.{OutputFields}
use log_reader.Kafka.Pipeline
use log_reader.Kafka.Pipeline.Conserved.{Conserved, updates-Conserved}
use log_reader.Kafka.Producer.{ProducerConf}
use log_reader.Kafka.Update.{Turn}
use log_reader.Mysql.Pipeline as Rows
use log_reader.Mysql.Pipeline.Conserved.{ConservedRows, updates-ConservedRows}
use log_reader.Mysql.Update.{Turn as WriterTurn}
use log_reader.Mysql.Writer.{WriterConf, TxnOutcome}
use log_reader.Reader.Dispatch.{ModuleMap, calls_of}
use log_reader.Reader.Framing.{Framing}
use log_reader.Reader.Goroutines.{Turn as Interleaving}
use log_reader.Reader.Parse.{Codec}
use log_reader.Reader.Start.Opening.{Attempt, new_pb_log_reader, set_max_size_per_batch, bind}
use log_reader.Reader.Start.Turns.{FileTurn, Rotation, Rotates, turn_bytes}
use log_reader.Reader.Start.{Calls, start_loop}
use log_reader.Reader.{Counters, Io}

abbrev both : {M : Type 0} → M → M → ModuleMap M
both kafka mysql = ("mod_kafka", kafka) ∷ ("mod_log_mysql", mysql) ∷ []

-- The calls of `Update` in the loop of a new reader that is bound to both modules.
abbrev pub calls_from_start : {M : Type 0} → Codec → M → M → ℤ → ℕ → Counters → List Io → Calls M
calls_from_start codec kafka mysql max_size info cs ios =
    (start_loop codec true ios
      (bind (both kafka mysql) (set_max_size_per_batch max_size (new_pb_log_reader info cs)))).0

-- Under the conditions that b2log finds again the frames whose headers it can write, whatever follows
-- them and however the reads cut the stream, finds nothing in no bytes, and proto gives back the
-- records that are marshalled: let a new reader be bound to mod_kafka and mod_log_mysql and read new
-- files from their beginning, at first perhaps none, and then a log that is rotated any number of
-- times to files other than the one before, each holding what calls of `MustWriteBfeLog` that did not
-- end the test have written to an empty file, all of it read, at its rotation at the latest. However
-- the goroutines of the `Update` calls of each module, and that of its queue, take their turns, and
-- whatever Kafka and the database answer, both modules account for the records that were written: each
-- is counted in RECEIVED_LOGS, unless no goroutine has taken it yet, and a request also in
-- RECEIVED_REQ; a request is counted in CONVERT_FAILED, or it is a message or a row that is in the
-- module's queue, in its batch, given on, or counted as dropped by the full queue. No request that was
-- written is given on twice.
pub must_write_all-Conserved :
    (codec : Codec) (enc : Encoder) (wire : Wire codec enc) (law : Framing codec)
    → codec.buff_parse [] ≡ ([], [])
    → {M : Type 0} (kafka mysql : M) (max_size : ℤ) (info : ℕ) (cs : Counters)
    → (calls : WriteCalls) (tries : List Attempt) (t : FileTurn) (ts : List FileTurn)
    → (more : List (Rotation × WriteCalls)) (id : ℕ) → Rotates id (rotations more)
    → AllRestored codec enc wire calls more
    → Holds enc calls (turn_bytes (t ∷ ts)) more
    → (marshal : List (String × Value) → Option String) (reg : FieldRegistry)
      (fields : OutputFields)
    → (env : ℕ → Bool → Bool) (dlq_env : ℕ → Bool) (conf : ProducerConf)
    → (turns : List (Interleaving Turn))
    → (marshal' : Value → Option String) (txn_env : ℕ → TxnOutcome) (writer_conf : WriterConf)
    → (writer_turns : List (Interleaving WriterTurn))
    → let q : Calls M =
        calls_from_start codec kafka mysql max_size info cs (ios_from_start tries id t ts more) in
      let (left, m) =
        Pipeline.updates marshal reg fields env dlq_env conf turns (calls_of "mod_kafka" q) in
      let (left', m') =
        Rows.updates marshal' reg txn_env writer_conf writer_turns (calls_of "mod_log_mysql" q) in
      Conserved marshal reg fields env dlq_env conf (all_logs calls more) (concat left) m
      × ConservedRows marshal' reg txn_env writer_conf (all_logs calls more) (concat left') m'
must_write_all-Conserved codec enc wire law nothing kafka mysql max_size info cs calls tries t ts
      more id differs back holds marshal reg fields env dlq_env conf turns marshal' txn_env
      writer_conf writer_turns =
    let q =
      calls_from_start codec kafka mysql max_size info cs (ios_from_start tries id t ts more) in
    let (left, m) =
      Pipeline.updates marshal reg fields env dlq_env conf turns (calls_of "mod_kafka" q) in
    let (left', m') =
      Rows.updates marshal' reg txn_env writer_conf writer_turns (calls_of "mod_log_mysql" q) in
    (
      subst (λ logs. Conserved marshal reg fields env dlq_env conf logs (concat left) m)
          (new_pb_log_reader-must_write_all codec enc wire law nothing "mod_kafka"
            (both kafka mysql) max_size info cs calls tries t ts more id refl refl differs back
            holds).0
          (updates-Conserved marshal reg fields env dlq_env conf turns (calls_of "mod_kafka" q)),
      subst (λ logs. ConservedRows marshal' reg txn_env writer_conf logs (concat left') m')
          (new_pb_log_reader-must_write_all codec enc wire law nothing "mod_log_mysql"
            (both kafka mysql) max_size info cs calls tries t ts more id refl refl differs back
            holds).0
          (updates-ConservedRows marshal' reg txn_env writer_conf writer_turns
            (calls_of "mod_log_mysql" q)),
    )
