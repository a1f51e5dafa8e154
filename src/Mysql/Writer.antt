-- ===== src/Mysql/Writer.antt =====
-- `RecordWriter` of reader_modules/mod_log_mysql/record_writer.go. The queue is the channel `ch`; the
-- goroutine `writeLoop` is a step for each case that its `select` may take, in any order. The
-- database is not part of the repository: `env` says how its n-th transaction goes.
use log_reader.Prelude.{
  ℕ, zero, suc, ◌+◌, ◌-◌, String, Bool, true, false, List, [], ◌∷◌, ◌++◌, Option, none, some, ltb,
  leb, ◌==◌, if◌then◌else◌, length, concat, get_elem?,
}
use log_reader.Fields.Value.{Value}
use log_reader.Mysql.Writer.Statement.{Stmt, build_stmt}
pub mod Statement
pub mod Loop
pub mod Retries
pub mod Delivery
pub mod Losses
pub mod Bounds
pub mod Shutdown
pub mod Placeholders

abbrev pub Row : Type 0
Row = List Value

-- The settings that the writer reads. `ConfModLogMysqlCheck` has made them positive.
pub record WriterConf : Type 0 where
  pub stmt : Stmt
  pub queue_size : ℕ
  pub batch_size : ℕ
  pub max_retries : ℕ

-- How a transaction goes: `Begin`, `Exec` or `Commit` returns an error, or none does.
pub data TxnOutcome : Type 0 where
  begin_fails exec_fails commit_fails commits : TxnOutcome

pub data DbCall : Type 0 where
  begin rollback commit : DbCall
  exec : String → List Value → DbCall

-- What the writing of batches has done: the calls of the database, the sleeps in milliseconds, and
-- the sums of the increments of two counters.
pub record Sink : Type 0 where
  pub txns : ℕ
  pub calls : List DbCall
  pub slept : List ℕ
  pub send_mysql_failed : ℕ
  pub write_batch_size : ℕ

abbrev pub retry_backoff_ms : List ℕ
retry_backoff_ms = 200 ∷ 400 ∷ 800 ∷ []

-- One transaction; the calls depend on how far it gets.
unfoldable pub txn_calls : TxnOutcome → String → List Value → List DbCall
txn_calls begin_fails stmt args = begin ∷ []
txn_calls exec_fails stmt args = begin ∷ exec stmt args ∷ rollback ∷ []
txn_calls commit_fails stmt args = begin ∷ exec stmt args ∷ commit ∷ []
txn_calls commits stmt args = begin ∷ exec stmt args ∷ commit ∷ []

abbrev pub is_commits : TxnOutcome → Bool
is_commits o = elim o [ commits ↦ true | _ ↦ false ]

-- How a call of `writeBatchWithRetry` ends.
pub data Retry : Type 0 where
  written dropped panicked : Retry

module _ (env : ℕ → TxnOutcome) (conf : WriterConf) where
  -- Whether the transaction has committed, and the calls that it made.
  unfoldable pub write_batch : List Row → Sink → Bool × Sink
  unfolding txn_calls build_stmt
  write_batch batch s = (
    is_commits (env s.txns),
    record s {
      txns = suc s.txns;
      calls =
          s.calls ++ txn_calls (env s.txns) (build_stmt conf.stmt (length batch)) (concat batch);
    },
  )

  -- The sleep before an attempt: `none` is the panic of `retryBackoffMs[attempt-1]` out of range,
  -- which the source evaluates before it compares `attempt-1` with the length.
  unfoldable pub sleep_before : ℕ → Sink → Option Sink
  sleep_before zero s = some s
  sleep_before (suc i) s = elim (get_elem? retry_backoff_ms i) [
    | none ↦ none
    | some backoff ↦
        let b : ℕ = if leb (length retry_backoff_ms) i then 800 else backoff in
        some (record s { slept = s.slept ++ (b ∷ []) })
  ]

  give_up : Sink → Retry × Sink
  give_up s = (dropped, record s { send_mysql_failed = s.send_mysql_failed + 1 })

  -- The loop of `writeBatchWithRetry` with `rounds` attempts left.
  unfoldable pub attempts : ℕ → ℕ → List Row → Sink → Retry × Sink
  unfolding give_up
  attempts zero attempt batch s = give_up s
  attempts (suc rounds) attempt batch s = elim (sleep_before attempt s) [
    | none ↦ (panicked, s)
    | some s' ↦
        let (committed, s'') = write_batch batch s' in
        elim committed [
          | true ↦ (written, record s'' { write_batch_size = s''.write_batch_size + length batch })
          | false ↦ attempts rounds (attempt + 1) batch s''
        ]
  ]

  unfoldable pub write_batch_with_retry : List Row → Sink → Retry × Sink
  unfolding attempts
  write_batch_with_retry batch s = attempts (suc conf.max_retries) 0 batch s
