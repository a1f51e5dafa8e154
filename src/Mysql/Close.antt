-- ===== src/Mysql/Close.antt =====
-- `Close` of reader_modules/mod_log_mysql/mod_log_mysql.go and record_writer.go, for a module that
-- `Init` has started: the goroutine takes any turns, and then the case of `stopCh`.
use log_reader.Prelude.{
  ℕ, Bool, true, false, List, [], ◌∷◌, ◌++◌, Option, none, some, Result, ok, ◌≡◌, refl, sym, subst,
  ◌⊎◌, inl, inr, ltb, leb, if_elim, length, All,
}
use log_reader.Mysql.Writer.{
  Row, WriterConf, TxnOutcome, Sink, Retry, written, dropped, panicked, write_batch_with_retry,
}
use log_reader.Mysql.Writer.Loop.{
  Writer, Event, enqueue, receive, tick, stop, running, crashed, closed, is_running, after_write,
  flush_batch, flush, take_row, receive_row, react, enqueue_row, step, run, new_writer,
}
use log_reader.Mysql.Writer.Delivery.{rows_of, taken, accepted, held-run}
use log_reader.Mysql.Writer.Shutdown.{stop-drains}
use log_reader.Mysql.Conf.{ConfModLogMysql}
use log_reader.Mysql.Init.{InitAnswers, InitError, Db, ModuleLogMysql, mysql_init}
use log_reader.Mysql.Init.Outcomes.{Runs, InitVerdict, mysql_init-InitVerdict}

-- w.db.Close(), if there is a pool.
abbrev pub close_db : Option Db → Option Db
close_db none = none
close_db (some db) = some (record db { is_closed = true })

module _ (env : ℕ → TxnOutcome) where
  -- `RecordWriter.Close` once the goroutine has taken the given turns.
  unfoldable pub close_writer :
      List Event → Option (WriterConf × Writer) → Option Db → ModuleLogMysql
  unfolding run step
  close_writer es none db = record { db = db; writer = none }
  close_writer es (some (conf, w)) db = record {
    db = close_db db;
    writer = some (conf, step env conf (run env conf w es) stop);
  }

  -- `ModuleLogMysql.Close`
  unfoldable pub mysql_close : List Event → ModuleLogMysql → ModuleLogMysql
  unfolding close_writer
  mysql_close es m = close_writer es m.writer m.db

abbrev pub is_stop : Event → Bool
is_stop e = elim e [ stop ↦ true | _ ↦ false ]

-- A goroutine that has not been stopped.
abbrev IsUnstopped : Writer → Type 0
IsUnstopped w = (w.status ≡ running) ⊎ (w.status ≡ crashed)

module _ (env : ℕ → TxnOutcome) (conf : WriterConf) where
  flush-IsUnstopped : (w : Writer) → IsUnstopped w → IsUnstopped (flush env conf w)
  unfolding flush flush_batch after_write
  flush-IsUnstopped w u = go w.batch
    where
      after : (r : Retry) (s : Sink) → IsUnstopped (after_write env conf w (r, s))
      after written s = u
      after dropped s = u
      after panicked s = inr refl

      go : (b : List Row) → IsUnstopped (flush_batch env conf b w)
      go [] = u
      go (row ∷ rows) = let (r, s) = write_batch_with_retry env conf w.batch w.sink in after r s

  react-IsUnstopped :
      (e : Event) (w : Writer)
      → is_stop e ≡ false
      → IsUnstopped w
      → IsUnstopped (react env conf e w)
  unfolding react receive_row take_row
  react-IsUnstopped (enqueue row) w n u = u
  react-IsUnstopped tick w n u = flush-IsUnstopped w u
  react-IsUnstopped stop w n u = cc
  react-IsUnstopped receive w n u = go w.queue
    where
      go : (q : List Row) → IsUnstopped (receive_row env conf q w)
      go [] = u
      go (row ∷ rest) =
          if_elim IsUnstopped (leb conf.batch_size (length (taken env conf row rest w).batch))
            (flush env conf (taken env conf row rest w)) (taken env conf row rest w)
            (flush-IsUnstopped (taken env conf row rest w) u) u

  step-IsUnstopped :
      (w : Writer) (e : Event) → is_stop e ≡ false → IsUnstopped w → IsUnstopped (step env conf w e)
  unfolding step enqueue_row
  step-IsUnstopped w (enqueue row) n u =
      if_elim (λ (r : Bool × Writer). IsUnstopped r.1) (ltb (length w.queue) conf.queue_size)
        (true, record w { queue = w.queue ++ (row ∷ []) }) (false, w) u u
  step-IsUnstopped w receive n u =
      if_elim IsUnstopped (is_running w.status) (react env conf receive w) w
        (react-IsUnstopped receive w n u) u
  step-IsUnstopped w tick n u =
      if_elim IsUnstopped (is_running w.status) (react env conf tick w) w
        (react-IsUnstopped tick w n u) u
  step-IsUnstopped w stop n u = cc

  run-IsUnstopped :
      (es : List Event) (w : Writer)
      → All (λ e. is_stop e ≡ false) es
      → IsUnstopped w
      → IsUnstopped (run env conf w es)
  unfolding run
  run-IsUnstopped [] w n u = u
  run-IsUnstopped (e ∷ es) w n u =
      run-IsUnstopped es (step env conf w e) n.1 (step-IsUnstopped w e n.0 u)

  -- What the writer is after `Close`: empty, with all rows handed over, or crashed.
  abbrev pub IsDrained : List Row → Writer → Type 0
  IsDrained rows w =
      ((w.status ≡ closed) × (w.queue ≡ []) × (w.batch ≡ []) × (rows_of w.handed ≡ rows))
      ⊎ (w.status ≡ crashed)

  stop-IsDrained :
      (es : List Event)
      → All (λ e. is_stop e ≡ false) es
      → IsDrained
          (accepted env conf new_writer es)
          (step env conf (run env conf new_writer es) stop)
  unfolding step
  stop-IsDrained es n =
      let w : Writer = run env conf new_writer es in
      elim (run-IsUnstopped es new_writer n (inl refl)) [
        | inl r ↦
            subst (λ rows. IsDrained rows (step env conf w stop)) (held-run env conf new_writer es)
              (stop-drains env conf w r)
        | inr c ↦ rw c (inr refl)
      ]

-- The writer as it was started, whether its goroutine comes to its loop or is lost.
started-IsDrained :
    (env : ℕ → TxnOutcome) (a : InitAnswers) (d : ConfModLogMysql) (conf : WriterConf) (v : Writer)
    (es : List Event)
    → All (λ e. is_stop e ≡ false) es
    → Runs a d conf v
    → IsDrained env conf (accepted env conf new_writer es) (step env conf (run env conf v es) stop)
unfolding step
started-IsDrained env a d conf v es n (inl (s, e, b)) =
    subst
      (λ u.
        IsDrained env conf (accepted env conf new_writer es)
          (step env conf (run env conf u es) stop))
      (sym e) (stop-IsDrained env conf es n)
started-IsDrained env a d conf v es n (inr (s, l)) = rw (l env es).0 (inr refl)

-- A module that `Init` has started without an error, and any turns of its goroutine and calls of
-- `Enqueue`, until it takes the case of `stopCh`: after `Close` the pool of connections is closed
-- and, unless the goroutine has crashed, every row for which `Enqueue` returned true since the start
-- has been handed to the database, in order and once, and the queue and the batch are empty.
pub mysql_close-IsDrained :
    (env : ℕ → TxnOutcome) (a : InitAnswers) (m m' : ModuleLogMysql) (es : List Event)
    → mysql_init a m ≡ (ok tt, m')
    → All (λ e. is_stop e ≡ false) es
    → (conf : WriterConf) × (w : Writer) × ((mysql_close env es m').writer ≡ some (conf, w))
      × ((mysql_close env es m').db ≡ close_db m'.db)
      × IsDrained env conf (accepted env conf new_writer es) w
unfolding mysql_close close_writer
mysql_close-IsDrained env a m m' es started n =
    let verdict : InitVerdict a m (ok tt) m' =
      subst (λ (r : Result InitError Unit × ModuleLogMysql). InitVerdict a m r.0 r.1) started
        (mysql_init-InitVerdict a m) in
    let (c, read, handlers, serves) = verdict in
    let (d, conf, v, checked, writer, runs) = serves in
    let w : Writer = step env conf (run env conf v es) stop in
    rw writer (conf, w, refl, refl, started-IsDrained env a d conf v es n runs)
