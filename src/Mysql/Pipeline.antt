-- ===== src/Mysql/Pipeline.antt =====
-- From the log file to the writer: the batches that `Start` gives to mod_log_mysql, each handled by
-- its own goroutine, with the goroutine of the writer beside them.
pub mod Conserved
use log_reader.Prelude.{
  ℕ, suc, ◌+◌, ◌≤◌, String, Bool, true, false, List, [], ◌∷◌, ◌++◌, append-nil, Option, some,
  Result, ok, err, ◌≡◌, refl, ap, ◌∙◌, arith, if◌then◌else◌, length, concat, subst,
}
use log_reader.Fields.Log.{BfeLog}
use log_reader.Fields.Names.{contains, distinct}
use log_reader.Fields.Registry.{FieldRegistry}
use log_reader.Fields.Value.{Value}
use log_reader.Mysql.Mapper.{to_row}
use log_reader.Mysql.Writer.{Row, WriterConf, TxnOutcome}
use log_reader.Mysql.Writer.Loop.{Writer, enqueue_row, step, run}
use log_reader.Mysql.Writer.Delivery.{held, held-run, held-enqueue_row}
use log_reader.Mysql.Update.{
  ModuleLogMysql, new_module_log_mysql, Turn, receives, ticks, closes, event_of, count_enqueue,
  enqueue_converted, update_log, Accounted, turns-Accounted, turns-accepted, update_log-Accounted,
}
use log_reader.Reader.Dispatch.{ModuleMap, module_names, calls_of}
use log_reader.Reader.Goroutines.{
  Turn as Interleaving, goroutines, goroutines-keeps, goroutines-adds, goroutines-bounds, holds,
  total, total-append, total-ones,
}
use log_reader.Reader.Parse.{Codec}
use log_reader.Reader.Start.{PbLogReader, Calls, start_loop}
use log_reader.Reader.Start.Counts.{log_run}
use log_reader.Reader.Start.Delivery.{start_loop-Delivers}
use log_reader.Reader.{Io}

module _ (marshal : Value → Option String) (reg : FieldRegistry) where
  -- What a record counts for if it is a request: one number if it is not converted, another if it is.
  abbrev weigh : ℕ → (Row → ℕ) → Result String Row → ℕ
  weigh failed sent (err e) = failed
  weigh failed sent (ok row) = sent row

  abbrev weight : ℕ → (Row → ℕ) → BfeLog → ℕ
  weight failed sent log = if log.is_request then weigh failed sent (to_row marshal reg log) else 0

  abbrev pub is_req : BfeLog → ℕ
  is_req = weight 1 (λ _. 1)

  abbrev pub is_failed : BfeLog → ℕ
  is_failed = weight 1 (λ _. 0)

  abbrev pub is_row : (Row → Bool) → BfeLog → ℕ
  is_row p = weight 0 (holds p)

module _ (marshal : Value → Option String) (reg : FieldRegistry) (env : ℕ → TxnOutcome)
    (conf : WriterConf) where
  -- What the goroutine of the writer does between two turns.
  abbrev pub beside : Turn → ModuleLogMysql → ModuleLogMysql
  beside t m = record m { writer = step env conf m.writer (event_of t) }

  abbrev pub one : BfeLog → ModuleLogMysql → ModuleLogMysql
  one = update_log marshal reg env conf

  -- The calls of `Update` for some batches, after some turns: the records that are left to them, and
  -- the module.
  abbrev pub updates :
      List (Interleaving Turn) → List (List BfeLog) → List (List BfeLog) × ModuleLogMysql
  updates ts batches = goroutines one beside ts (batches, new_module_log_mysql)

  counted : ModuleLogMysql → ModuleLogMysql
  counted m = record m { received_logs = suc m.received_logs; received_req = suc m.received_req }

  -- To prove something of a record's turn: of a request, by what it is converted to and whether there
  -- is room in the queue, and of another record.
  one-elim :
      (P : ℕ → ModuleLogMysql → Type 0) (failed : ℕ) (sent : Row → ℕ) (log : BfeLog)
      (m : ModuleLogMysql)
      → P failed (record (counted m) { convert_failed = suc m.convert_failed })
      → ((row : Row) (r : Bool × Writer)
          → held r.1 ≡ held m.writer ++ (if r.0 then row ∷ [] else [])
          → P (sent row) (count_enqueue marshal reg env conf r (counted m)))
      → P 0 (record m { received_logs = suc m.received_logs })
      → P (weight marshal reg failed sent log) (one log m)
  unfolding update_log counted enqueue_converted
  one-elim P failed sent log m not_converted enqueued other =
      go log.is_request (to_row marshal reg log)
    where
      go :
          (b : Bool) (o : Result String Row)
          → P (if b then weigh marshal reg failed sent o else 0) (
              if b
              then enqueue_converted marshal reg env conf o (counted m)
              else record m { received_logs = suc m.received_logs })
      go true (err e) = not_converted
      go true (ok row) =
          enqueued row (enqueue_row env conf row m.writer) (held-enqueue_row env conf row m.writer)
      go false o = other

  pub logs-one :
      (log : BfeLog) (m : ModuleLogMysql) → (one log m).received_logs ≡ m.received_logs + 1
  unfolding counted count_enqueue
  logs-one log m =
      one-elim (λ w m'. m'.received_logs ≡ m.received_logs + 1) 1 (λ _. 1) log m (omega arith) go
        (omega arith)
    where
      go :
          (row : Row) (r : Bool × Writer)
          → held r.1 ≡ held m.writer ++ (if r.0 then row ∷ [] else [])
          → (count_enqueue marshal reg env conf r (counted m)).received_logs ≡ m.received_logs + 1
      go row (true, w) h = omega arith
      go row (false, w) h = omega arith

  pub req-one :
      (log : BfeLog) (m : ModuleLogMysql)
      → (one log m).received_req ≡ m.received_req + is_req marshal reg log
  unfolding counted count_enqueue
  req-one log m =
      one-elim (λ w m'. m'.received_req ≡ m.received_req + w) 1 (λ _. 1) log m (omega arith) go
        (omega arith)
    where
      go :
          (row : Row) (r : Bool × Writer)
          → held r.1 ≡ held m.writer ++ (if r.0 then row ∷ [] else [])
          → (count_enqueue marshal reg env conf r (counted m)).received_req ≡ m.received_req + 1
      go row (true, w) h = omega arith
      go row (false, w) h = omega arith

  pub failed-one :
      (log : BfeLog) (m : ModuleLogMysql)
      → (one log m).convert_failed ≡ m.convert_failed + is_failed marshal reg log
  unfolding counted count_enqueue
  failed-one log m =
      one-elim (λ w m'. m'.convert_failed ≡ m.convert_failed + w) 1 (λ _. 0) log m (omega arith) go
        (omega arith)
    where
      go :
          (row : Row) (r : Bool × Writer)
          → held r.1 ≡ held m.writer ++ (if r.0 then row ∷ [] else [])
          → (count_enqueue marshal reg env conf r (counted m)).convert_failed ≡ m.convert_failed + 0
      go row (true, w) h = omega arith
      go row (false, w) h = omega arith

  module _ (p : Row → Bool) where
    -- The rows with the property that the writer has, or has handed to the database.
    abbrev pub in_writer : ModuleLogMysql → ℕ
    in_writer m = total (holds p) (held m.writer)

    pub in_writer-one :
        (log : BfeLog) (m : ModuleLogMysql)
        → in_writer (one log m) ≤ in_writer m + is_row marshal reg p log
    unfolding counted count_enqueue
    in_writer-one log m =
        one-elim (λ w m'. in_writer m' ≤ in_writer m + w) 0 (holds p) log m (omega arith) go
          (omega arith)
      where
        go :
            (row : Row) (r : Bool × Writer)
            → held r.1 ≡ held m.writer ++ (if r.0 then row ∷ [] else [])
            → in_writer (count_enqueue marshal reg env conf r (counted m))
              ≤ in_writer m + holds p row
        go row (true, w) h = rw h (omega (arith, total-append (holds p) (held m.writer) (row ∷ [])))
        go row (false, w) h = rw (h, append-nil) (omega arith)

  pub held-beside : (t : Turn) (m : ModuleLogMysql) → held (beside t m).writer ≡ held m.writer
  unfolding run
  held-beside t m =
      held-run env conf m.writer (event_of t ∷ [])
      ∙ (ap (◌++◌ (held m.writer)) (turns-accepted marshal reg env conf (t ∷ []) m.writer)
          ∙ append-nil (held m.writer))

  pub beside-Accounted :
      (t : Turn) (m : ModuleLogMysql)
      → Accounted marshal reg env conf m
      → Accounted marshal reg env conf (beside t m)
  unfolding run
  beside-Accounted t m a = turns-Accounted marshal reg env conf (t ∷ []) m a
