-- ===== src/Mysql/Writer/Bounds.antt =====
-- Sizes and counters of the writer of reader_modules/mod_log_mysql/record_writer.go.
use log_reader.Prelude.{
  if_elim, ℕ, ◌+◌, ◌≤◌, ◌<◌, ◌≡◌, refl, ap, Bool, true, false, List, [], ◌∷◌, ◌++◌, arith, ltb, leb,
  if◌then◌else◌, Bool-cases, inl, inr, length, length-append, All, All-append, tests, ltb→lt,
}
use log_reader.Mysql.Writer.{
  Row, WriterConf, TxnOutcome, Sink, Retry, written, dropped, panicked, write_batch_with_retry,
}
use log_reader.Mysql.Writer.Loop.{
  Writer, closed, Event, enqueue, receive, tick, stop, after_write, flush_batch, flush, take_row,
  is_running, finish, drain, receive_row, react, enqueue_row, step, run, new_writer,
}
use log_reader.Mysql.Writer.Delivery.{queue-take_row, taken}
use log_reader.Mysql.Writer.Retries.{drops, rows_written, write_batch_with_retry-counters}
use log_reader.Mysql.Writer.Losses.{losses, losses-append, written_rows, written_rows-append}

-- A batch that is handed over is not empty and not larger than `BatchSize`.
abbrev pub Fits : WriterConf → List Row × Retry → Type 0
Fits conf (b, r) = (1 ≤ length b) × (length b ≤ conf.batch_size)

pub record Inv (conf : WriterConf) (w : Writer) : Type 0 where
  pub queue_fits : length w.queue ≤ conf.queue_size
  pub batch_fits : length w.batch < conf.batch_size
  pub handed_fit : All (Fits conf) w.handed
  pub failed : w.sink.send_mysql_failed ≡ losses w.handed
  pub rows : w.sink.write_batch_size ≡ written_rows w.handed

-- The same with a batch that may just be full.
record Loaded (conf : WriterConf) (w : Writer) : Type 0 where
  queue_fits : length w.queue ≤ conf.queue_size
  batch_fits : length w.batch ≤ conf.batch_size
  handed_fit : All (Fits conf) w.handed
  failed : w.sink.send_mysql_failed ≡ losses w.handed
  rows : w.sink.write_batch_size ≡ written_rows w.handed

module _ (env : ℕ → TxnOutcome) (conf : WriterConf) (room : 0 < conf.batch_size) where
  after_write-Inv :
      (w : Writer) (r : Retry) (s : Sink)
      → Loaded conf w
      → 1 ≤ length w.batch
      → s.send_mysql_failed ≡ w.sink.send_mysql_failed + drops r
      → s.write_batch_size ≡ w.sink.write_batch_size + rows_written r (length w.batch)
      → Inv conf (after_write env conf w (r, s))
  unfolding after_write
  after_write-Inv w written s v some_rows f g = record {
    queue_fits = v.queue_fits;
    batch_fits = room;
    handed_fit = All-append (Fits conf) w.handed _ v.handed_fit ((some_rows, v.batch_fits), tt);
    failed = omega (arith, losses-append w.handed ((w.batch, written) ∷ []));
    rows = omega (arith, written_rows-append w.handed ((w.batch, written) ∷ []));
  }
  after_write-Inv w dropped s v some_rows f g = record {
    queue_fits = v.queue_fits;
    batch_fits = room;
    handed_fit = All-append (Fits conf) w.handed _ v.handed_fit ((some_rows, v.batch_fits), tt);
    failed = omega (arith, losses-append w.handed ((w.batch, dropped) ∷ []));
    rows = omega (arith, written_rows-append w.handed ((w.batch, dropped) ∷ []));
  }
  after_write-Inv w panicked s v some_rows f g = record {
    queue_fits = v.queue_fits;
    batch_fits = room;
    handed_fit = All-append (Fits conf) w.handed _ v.handed_fit ((some_rows, v.batch_fits), tt);
    failed = omega (arith, losses-append w.handed ((w.batch, panicked) ∷ []));
    rows = omega (arith, written_rows-append w.handed ((w.batch, panicked) ∷ []));
  }

  flush-Inv : (w : Writer) → Loaded conf w → Inv conf (flush env conf w)
  unfolding flush
  flush-Inv w v = go w.batch refl
    where
      go : (b : List Row) → w.batch ≡ b → Inv conf (flush_batch env conf b w)
      go [] e = record {
        queue_fits = v.queue_fits;
        batch_fits = omega (arith, ap length e);
        handed_fit = v.handed_fit;
        failed = v.failed;
        rows = v.rows;
      }
      go (row ∷ rest) e =
          let (r, s) = write_batch_with_retry env conf w.batch w.sink in
          let c : (s.send_mysql_failed ≡ w.sink.send_mysql_failed + drops r)
              × (s.write_batch_size ≡ w.sink.write_batch_size + rows_written r (length w.batch)) =
            write_batch_with_retry-counters env conf w.batch w.sink in
          after_write-Inv w r s v (omega (arith, ap length e)) c.0 c.1

  Inv-Loaded : (w : Writer) → Inv conf w → Loaded conf w
  Inv-Loaded w v = record {
    queue_fits = v.queue_fits;
    batch_fits = omega arith;
    handed_fit = v.handed_fit;
    failed = v.failed;
    rows = v.rows;
  }

  take_row-Inv :
      (row : Row) (rest : List Row) (w : Writer)
      → w.queue ≡ row ∷ rest
      → Inv conf w
      → Inv conf (take_row env conf row rest w)
  unfolding take_row
  take_row-Inv row rest w e v =
      elim (Bool-cases (leb conf.batch_size (length (w.batch ++ (row ∷ []))))) [
        | inl full ↦ rw full (
            flush-Inv (taken env conf row rest w) (record {
              queue_fits = omega (arith, ap length e);
              batch_fits = omega (arith, length-append w.batch (row ∷ []));
              handed_fit = v.handed_fit;
              failed = v.failed;
              rows = v.rows;
            }))
        | inr partial ↦ rw partial (record {
          queue_fits = omega (arith, ap length e);
          batch_fits = ground arith;
          handed_fit = v.handed_fit;
          failed = v.failed;
          rows = v.rows;
        })
      ]

  finish-Inv : (w : Writer) → Inv conf w → Inv conf (finish env conf w)
  unfolding finish
  finish-Inv w v = go (is_running (flush env conf w).status) (flush-Inv w (Inv-Loaded w v))
    where
      go :
          (b : Bool) {u : Writer}
          → Inv conf u
          → Inv conf (if b then record u { status = closed } else u)
      go true i = record {
        queue_fits = i.queue_fits;
        batch_fits = i.batch_fits;
        handed_fit = i.handed_fit;
        failed = i.failed;
        rows = i.rows;
      }
      go false i = i

  drain-Inv : (q : List Row) (w : Writer) → w.queue ≡ q → Inv conf w → Inv conf (drain env conf q w)
  unfolding drain
  drain-Inv [] w e v = finish-Inv w v
  drain-Inv (row ∷ rest) w e v =
      let i : Inv conf (take_row env conf row rest w) = take_row-Inv row rest w e v in
      go (is_running (take_row env conf row rest w).status) _ (take_row env conf row rest w)
        (drain-Inv rest (take_row env conf row rest w) (queue-take_row env conf row rest w) i) i
    where
      go :
          (b : Bool) (x y : Writer)
          → Inv conf x
          → Inv conf y
          → Inv conf (elim b [ true ↦ x | false ↦ y ])
      go true x y i j = i
      go false x y i j = j

  receive_row-Inv :
      (q : List Row) (w : Writer) → w.queue ≡ q → Inv conf w → Inv conf (receive_row env conf q w)
  unfolding receive_row
  receive_row-Inv [] w e v = v
  receive_row-Inv (row ∷ rest) w e v = take_row-Inv row rest w e v

  react-Inv : (e : Event) (w : Writer) → Inv conf w → Inv conf (react env conf e w)
  unfolding react
  react-Inv (enqueue row) w v = v
  react-Inv receive w v = receive_row-Inv w.queue w refl v
  react-Inv tick w v = flush-Inv w (Inv-Loaded w v)
  react-Inv stop w v = drain-Inv w.queue w refl v

  enqueue_row-Inv : (row : Row) (w : Writer) → Inv conf w → Inv conf (enqueue_row env conf row w).1
  unfolding enqueue_row
  enqueue_row-Inv row w v = elim (Bool-cases (ltb (length w.queue) conf.queue_size)) [
    | inl free ↦ rw free (record {
      queue_fits = omega (tests, length-append w.queue (row ∷ []), ltb→lt _ _ free);
      batch_fits = v.batch_fits;
      handed_fit = v.handed_fit;
      failed = v.failed;
      rows = v.rows;
    })
    | inr full ↦ rw full v
  ]

  reacts-Inv :
      (w : Writer) (e : Event)
      → Inv conf w
      → Inv conf (if is_running w.status then react env conf e w else w)
  reacts-Inv w e v =
      if_elim (Inv conf) (is_running w.status) (react env conf e w) w (react-Inv e w v) v

  step-Inv : (w : Writer) (e : Event) → Inv conf w → Inv conf (step env conf w e)
  unfolding step
  step-Inv w (enqueue row) v = enqueue_row-Inv row w v
  step-Inv w receive v = reacts-Inv w receive v
  step-Inv w tick v = reacts-Inv w tick v
  step-Inv w stop v = reacts-Inv w stop v

  run-Inv : (w : Writer) (es : List Event) → Inv conf w → Inv conf (run env conf w es)
  unfolding run
  run-Inv w [] v = v
  run-Inv w (e ∷ es) v = run-Inv (step env conf w e) es (step-Inv w e v)

  -- If `BatchSize` is positive, then after any sequence of events and outcomes of the database: the
  -- queue holds at most `QueueSize` rows and the batch fewer than `BatchSize`; each batch handed over
  -- had between 1 and `BatchSize` rows; `SEND_MYSQL_FAILED` is the number of batches handed over and
  -- not written, dropped or lost in a panic; and `WRITE_BATCH_SIZE` is the number of rows written.
  pub run-new_writer-Inv : (es : List Event) → Inv conf (run env conf new_writer es)
  run-new_writer-Inv es = run-Inv new_writer es (record {
    queue_fits = omega arith;
    batch_fits = room;
    handed_fit = tt;
    failed = refl;
    rows = refl;
  })
