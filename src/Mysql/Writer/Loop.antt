-- ===== src/Mysql/Writer/Loop.antt =====
-- `Enqueue` and `writeLoop` of reader_modules/mod_log_mysql/record_writer.go as one step function
-- over the events that the callers and the `select` of the goroutine produce, in any order. What
-- `writeLoop` does before its loop, where it may panic, is in Mysql/Init.
use log_reader.Prelude.{
  ℕ, ◌+◌, Bool, true, false, List, [], ◌∷◌, ◌++◌, ltb, leb, if◌then◌else◌, length,
}
use log_reader.Mysql.Writer.{
  Row, WriterConf, TxnOutcome, Sink, Retry, panicked, write_batch_with_retry,
}

-- Whether the goroutine runs, has returned after `Close`, or has ended by a panic.
pub data Status : Type 0 where
  running closed crashed : Status

-- `handed` lists the batches that `writeBatchWithRetry` was called with, and how each call ended.
pub record Writer : Type 0 where
  pub queue : List Row
  pub batch : List Row
  pub status : Status
  pub sink : Sink
  pub handed : List (List Row × Retry)

-- `enqueue` is a call of `Enqueue`; `receive`, `tick` and `stop` are the cases of the `select`.
pub data Event : Type 0 where
  enqueue : Row → Event
  receive tick stop : Event

abbrev pub empty_sink : Sink
empty_sink = record {
  txns = 0;
  calls = [];
  slept = [];
  send_mysql_failed = 0;
  write_batch_size = 0;
}

abbrev pub new_writer : Writer
new_writer = record { queue = []; batch = []; status = running; sink = empty_sink; handed = [] }

-- `writeLoop` has panicked before its loop: the deferred function has counted it.
abbrev pub lost_writer : Writer
lost_writer = record new_writer {
  status = crashed;
  sink = record empty_sink { send_mysql_failed = 1 };
}

abbrev pub is_running : Status → Bool
is_running s = elim s [ running ↦ true | _ ↦ false ]

module _ (env : ℕ → TxnOutcome) (conf : WriterConf) where
  -- What is left of the writer once `writeBatchWithRetry` has been called with the batch. On a panic
  -- the deferred function counts a failure and the goroutine ends.
  unfoldable pub after_write : Writer → Retry × Sink → Writer
  after_write w (r, s) =
      let h : List (List Row × Retry) = w.handed ++ ((w.batch, r) ∷ []) in
      elim r [
        | panicked ↦ record w {
          batch = [];
          status = crashed;
          sink = record s { send_mysql_failed = s.send_mysql_failed + 1 };
          handed = h;
        }
        | _ ↦ record w { batch = []; sink = s; handed = h }
      ]

  unfoldable pub flush_batch : List Row → Writer → Writer
  unfolding after_write
  flush_batch [] w = w
  flush_batch (row ∷ rows) w = after_write w (write_batch_with_retry env conf w.batch w.sink)

  unfoldable pub flush : Writer → Writer
  unfolding flush_batch
  flush w = flush_batch w.batch w

  -- A row from the channel, here and in the drain: append it, and flush a full batch.
  unfoldable pub take_row : Row → List Row → Writer → Writer
  unfolding flush
  take_row row rest w =
      let w' : Writer = record w { queue = rest; batch = w.batch ++ (row ∷ []) } in
      if leb conf.batch_size (length w'.batch) then flush w' else w'

  -- `default: flush("close"); return`
  unfoldable pub finish : Writer → Writer
  unfolding flush
  finish w =
      let w' : Writer = flush w in
      if is_running w'.status then record w' { status = closed } else w'

  -- The loop of the case `<-w.stopCh` over the rows that are still in the channel.
  unfoldable pub drain : List Row → Writer → Writer
  unfolding take_row finish
  drain [] w = finish w
  drain (row ∷ rest) w =
      let w' : Writer = take_row row rest w in
      elim (is_running w'.status) [ true ↦ drain rest w' | false ↦ w' ]

  unfoldable pub receive_row : List Row → Writer → Writer
  unfolding take_row
  receive_row [] w = w
  receive_row (row ∷ rest) w = take_row row rest w

  -- The select of a goroutine that runs. `receive` is taken only if the channel holds a row.
  unfoldable pub react : Event → Writer → Writer
  unfolding receive_row drain
  react (enqueue row) w = w
  react receive w = receive_row w.queue w
  react tick w = flush w
  react stop w = drain w.queue w

  -- `Enqueue`: whether the row went into the queue, and the writer after.
  unfoldable pub enqueue_row : Row → Writer → Bool × Writer
  enqueue_row row w =
      if ltb (length w.queue) conf.queue_size
      then (true, record w { queue = w.queue ++ (row ∷ []) })
      else (false, w)

  unfoldable pub step : Writer → Event → Writer
  unfolding react enqueue_row
  step w (enqueue row) = (enqueue_row row w).1
  step w e = if is_running w.status then react e w else w

  unfoldable pub run : Writer → List Event → Writer
  unfolding step
  run w [] = w
  run w (e ∷ es) = run (step w e) es
