-- ===== src/Kafka/Pipeline/Conserved.antt =====
-- What becomes of the records of the log file in mod_kafka.
use log_reader.Prelude.{
  ℕ, ◌+◌, ◌≤◌, String, Bool, true, List, Option, some, ◌≡◌, refl, ap, arith, length, concat, subst,
}
use log_reader.Fields.Log.{BfeLog}
use log_reader.Fields.Names.{contains, distinct}
use log_reader.Fields.Registry.{FieldRegistry}
use log_reader.Fields.Value.{Value}
use log_reader.Kafka.Fields.{OutputFields}
use log_reader.Kafka.Producer.{Message, ProducerConf}
use log_reader.Kafka.Update.{ModuleKafka, new_module_kafka, Turn, Accounted, update_log-Accounted}
use log_reader.Reader.Dispatch.{ModuleMap, module_names, calls_of}
use log_reader.Reader.Goroutines.{
  Turn as Interleaving, goroutines-keeps, goroutines-adds, goroutines-bounds, holds, total,
  total-ones,
}
use log_reader.Reader.Parse.{Codec}
use log_reader.Reader.Start.{PbLogReader, Calls, start_loop}
use log_reader.Reader.Start.Counts.{log_run}
use log_reader.Reader.Start.Delivery.{start_loop-Delivers}
use log_reader.Reader.{Io}
use log_reader.Kafka.Pipeline
use log_reader.Kafka.Pipeline.{is_req, is_failed, is_message}

module _ (marshal : List (String × Value) → Option String) (reg : FieldRegistry)
    (fields : OutputFields) (env : ℕ → Bool → Bool) (dlq_env : ℕ → Bool) (conf : ProducerConf) where
  -- What has become of some records, where `rest` are those that no goroutine has taken.
  abbrev pub Conserved : List BfeLog → List BfeLog → ModuleKafka → Type 0
  Conserved records rest m =
      Accounted marshal reg fields env dlq_env conf m
      × (m.received_logs + length rest ≡ length records)
      × (m.received_req + total (is_req marshal reg fields) rest
          ≡ total (is_req marshal reg fields) records)
      × (m.convert_failed + total (is_failed marshal reg fields) rest
          ≡ total (is_failed marshal reg fields) records)
      × ((p : Message → Bool)
          → Pipeline.in_producer marshal reg fields env dlq_env conf p m
              + total (is_message marshal reg fields p) rest
            ≤ total (is_message marshal reg fields p) records)

  pub updates-Conserved :
      (ts : List (Interleaving Turn)) (batches : List (List BfeLog))
      → let (rest, m) = Pipeline.updates marshal reg fields env dlq_env conf ts batches in
        Conserved (concat batches) (concat rest) m
  updates-Conserved ts batches =
      let one : BfeLog → ModuleKafka → ModuleKafka =
        Pipeline.one marshal reg fields env dlq_env conf in
      let beside : Turn → ModuleKafka → ModuleKafka =
        Pipeline.beside marshal reg fields env dlq_env conf in
      let m : ModuleKafka = new_module_kafka in
      let (rest, m') = Pipeline.updates marshal reg fields env dlq_env conf ts batches in
      (
        goroutines-keeps one beside (Accounted marshal reg fields env dlq_env conf)
            (update_log-Accounted marshal reg fields env dlq_env conf)
            (Pipeline.beside-Accounted marshal reg fields env dlq_env conf) ts batches m
            (omega arith, omega arith, omega arith),
        omega (
          arith,
          goroutines-adds (λ _. 1) one beside (λ m. m.received_logs) (λ t m. refl)
              (Pipeline.logs-one marshal reg fields env dlq_env conf) ts batches m,
          total-ones (concat rest),
          total-ones (concat batches),
        ),
        omega (
          arith,
          goroutines-adds (is_req marshal reg fields) one beside (λ m. m.received_req) (λ t m. refl)
              (Pipeline.req-one marshal reg fields env dlq_env conf) ts batches m,
        ),
        omega (
          arith,
          goroutines-adds (is_failed marshal reg fields) one beside (λ m. m.convert_failed)
              (λ t m. refl) (Pipeline.failed-one marshal reg fields env dlq_env conf) ts batches m,
        ),
        λ p. omega (
          arith,
          goroutines-bounds (is_message marshal reg fields p) one beside
              (Pipeline.in_producer marshal reg fields env dlq_env conf p)
              (λ t m.
                ap (total (holds p))
                  (Pipeline.all_messages-beside marshal reg fields env dlq_env conf t m))
              (Pipeline.in_producer-one marshal reg fields env dlq_env conf p) ts batches m,
        ),
      )

  -- For every answer of the operating system in each turn of `Start`, modules with distinct names that
  -- are bound to the reader, and mod_kafka in the place of one of them: however the goroutines of its
  -- `Update` calls, that of the producer and a call of `Close` take their turns, and whatever the
  -- writers answer, SUM_PB_RECORD has gone up by RECEIVED_LOGS plus the records that no goroutine has
  -- taken yet, and of the records that `logRead` returned: the requests are counted in RECEIVED_REQ,
  -- those that cannot be converted in CONVERT_FAILED, and the others are messages that are in the
  -- channel, in the batch, in a call of `WriteMessages`, or counted in SENT_KAFKA_CHN_FULL. There are
  -- no more messages with any property than requests that are converted to one: no record is sent twice.
  pub start-updates-Conserved :
      {M : Type 0} (name : String) (ms : ModuleMap M) (codec : Codec) (from_begin : Bool)
      (ios : List Io) (s : PbLogReader M) (ts : List (Interleaving Turn))
      → distinct (module_names ms) ≡ true
      → contains name (module_names ms) ≡ true
      → s.modules ≡ some ms
      → let q : Calls M × PbLogReader M = start_loop codec from_begin ios s in
        let (rest, m) =
          Pipeline.updates marshal reg fields env dlq_env conf ts (calls_of name q.0) in
        Conserved (log_run codec from_begin ios s.file).0 (concat rest) m
        × (q.1.file.state.sum_pb_record
            ≡ s.file.state.sum_pb_record + m.received_logs + length (concat rest))
  start-updates-Conserved name ms codec from_begin ios s ts d listed b =
      let q = start_loop codec from_begin ios s in
      let (rest, m) = Pipeline.updates marshal reg fields env dlq_env conf ts (calls_of name q.0) in
      let ((whole, fits), n, summed) =
        start_loop-Delivers name ms d listed codec from_begin ios s b in
      let kept = updates-Conserved ts (calls_of name q.0) in
      (
        subst (λ records. Conserved records (concat rest) m) whole kept,
        omega (arith, kept.1, summed),
      )
