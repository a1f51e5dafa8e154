-- ===== src/Mysql/Pipeline/Conserved.antt =====
-- What becomes of the records of the log file in mod_log_mysql.
use log_reader.Prelude.{
  ℕ, ◌+◌, ◌≤◌, String, Bool, true, List, Option, some, ◌≡◌, refl, ap, arith, length, concat, subst,
}
use log_reader.Fields.Log.{BfeLog}
use log_reader.Fields.Names.{contains, distinct}
use log_reader.Fields.Registry.{FieldRegistry}
use log_reader.Fields.Value.{Value}
use log_reader.Mysql.Writer.{Row, WriterConf, TxnOutcome}
use log_reader.Mysql.Update.{
  ModuleLogMysql, new_module_log_mysql, Turn, Accounted, update_log-Accounted,
}
use log_reader.Reader.Dispatch.{ModuleMap, module_names, calls_of}
use log_reader.Reader.Goroutines.{
  Turn as Interleaving, goroutines-keeps, goroutines-adds, goroutines-bounds, holds, total,
  total-ones,
}
use log_reader.Reader.Parse.{Codec}
use log_reader.Reader.Start.{PbLogReader, Calls, start_loop}
use log_reader.Reader.Start.Counts.{log_run}
use log_reader.Reader.Start.Delivery.{start_loop-Delivers}
use log_reader.Reader.{Io}
use log_reader.Mysql.Pipeline
use log_reader.Mysql.Pipeline.{is_req, is_failed, is_row}

module _ (marshal : Value → Option String) (reg : FieldRegistry) (env : ℕ → TxnOutcome)
    (conf : WriterConf) where
  -- What has become of some records, where `rest` are those that no goroutine has taken.
  abbrev pub ConservedRows : List BfeLog → List BfeLog → ModuleLogMysql → Type 0
  ConservedRows records rest m =
      Accounted marshal reg env conf m
      × (m.received_logs + length rest ≡ length records)
      × (m.received_req + total (is_req marshal reg) rest ≡ total (is_req marshal reg) records)
      × (m.convert_failed + total (is_failed marshal reg) rest
          ≡ total (is_failed marshal reg) records)
      × ((p : Row → Bool)
          → Pipeline.in_writer marshal reg env conf p m + total (is_row marshal reg p) rest
            ≤ total (is_row marshal reg p) records)

  pub updates-ConservedRows :
      (ts : List (Interleaving Turn)) (batches : List (List BfeLog))
      → let (rest, m) = Pipeline.updates marshal reg env conf ts batches in
        ConservedRows (concat batches) (concat rest) m
  updates-ConservedRows ts batches =
      let one : BfeLog → ModuleLogMysql → ModuleLogMysql = Pipeline.one marshal reg env conf in
      let beside : Turn → ModuleLogMysql → ModuleLogMysql = Pipeline.beside marshal reg env conf in
      let m : ModuleLogMysql = new_module_log_mysql in
      let (rest, m') = Pipeline.updates marshal reg env conf ts batches in
      (
        goroutines-keeps one beside (Accounted marshal reg env conf)
            (update_log-Accounted marshal reg env conf)
            (Pipeline.beside-Accounted marshal reg env conf) ts batches m
            (omega arith, omega arith, omega arith),
        omega (
          arith,
          goroutines-adds (λ _. 1) one beside (λ m. m.received_logs) (λ t m. refl)
              (Pipeline.logs-one marshal reg env conf) ts batches m,
          total-ones (concat rest),
          total-ones (concat batches),
        ),
        omega (
          arith,
          goroutines-adds (is_req marshal reg) one beside (λ m. m.received_req) (λ t m. refl)
              (Pipeline.req-one marshal reg env conf) ts batches m,
        ),
        omega (
          arith,
          goroutines-adds (is_failed marshal reg) one beside (λ m. m.convert_failed) (λ t m. refl)
              (Pipeline.failed-one marshal reg env conf) ts batches m,
        ),
        λ p. omega (
          arith,
          goroutines-bounds (is_row marshal reg p) one beside
              (Pipeline.in_writer marshal reg env conf p)
              (λ t m. ap (total (holds p)) (Pipeline.held-beside marshal reg env conf t m))
              (Pipeline.in_writer-one marshal reg env conf p) ts batches m,
        ),
      )

  -- For every answer of the operating system in each turn of `Start`, modules with distinct names that
  -- are bound to the reader, and mod_log_mysql in the place of one of them: however the goroutines of
  -- its `Update` calls and that of the writer take their turns, up to and after the case of `stopCh`,
  -- and whatever the database answers, SUM_PB_RECORD has gone up by RECEIVED_LOGS plus the records that
  -- no goroutine has taken yet, and of the records that `logRead` returned: the requests are counted
  -- in RECEIVED_REQ, those that cannot be converted in CONVERT_FAILED, those that find the queue full in
  -- SENT_MYSQL_CHN_FULL, and the others are rows in the queue, in the batch, or handed to the database.
  -- There are no more rows with any property than requests that are converted to one: no record is
  -- handed to the database twice.
  pub start-updates-ConservedRows :
      {M : Type 0} (name : String) (ms : ModuleMap M) (codec : Codec) (from_begin : Bool)
      (ios : List Io) (s : PbLogReader M) (ts : List (Interleaving Turn))
      → distinct (module_names ms) ≡ true
      → contains name (module_names ms) ≡ true
      → s.modules ≡ some ms
      → let q : Calls M × PbLogReader M = start_loop codec from_begin ios s in
        let (rest, m) = Pipeline.updates marshal reg env conf ts (calls_of name q.0) in
        ConservedRows (log_run codec from_begin ios s.file).0 (concat rest) m
        × (q.1.file.state.sum_pb_record
            ≡ s.file.state.sum_pb_record + m.received_logs + length (concat rest))
  start-updates-ConservedRows name ms codec from_begin ios s ts d listed b =
      let q = start_loop codec from_begin ios s in
      let (rest, m) = Pipeline.updates marshal reg env conf ts (calls_of name q.0) in
      let ((whole, fits), n, summed) =
        start_loop-Delivers name ms d listed codec from_begin ios s b in
      let kept = updates-ConservedRows ts (calls_of name q.0) in
      (
        subst (λ records. ConservedRows records (concat rest) m) whole kept,
        omega (arith, kept.1, summed),
      )
