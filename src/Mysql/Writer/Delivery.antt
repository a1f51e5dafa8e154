-- ===== src/Mysql/Writer/Delivery.antt =====
-- Where the rows go that `Enqueue` of reader_modules/mod_log_mysql/record_writer.go accepts.
use log_reader.Prelude.{
  if_elim, ℕ, ◌≡◌, refl, sym, ap, ◌∙◌, Bool, true, false, List, [], ◌∷◌, ◌++◌, append-nil,
  append_assoc, ltb, leb, if◌then◌else◌, length,
}
use log_reader.Mysql.Writer.{
  Row, WriterConf, TxnOutcome, Sink, Retry, written, dropped, panicked, write_batch_with_retry,
}
use log_reader.Mysql.Writer.Loop.{
  Writer, Event, enqueue, receive, tick, stop, after_write, flush_batch, flush, take_row,
  is_running, finish, drain, receive_row, react, enqueue_row, step, run,
}

abbrev pub rows_of : List (List Row × Retry) → List Row
rows_of [] = []
rows_of ((b, r) ∷ h) = b ++ rows_of h

-- The rows that the writer has taken, in order: handed to the database, in the batch, in the queue.
abbrev pub held : Writer → List Row
held w = rows_of w.handed ++ (w.batch ++ w.queue)

pub rows_of-snoc :
    (h : List (List Row × Retry)) (b : List Row) (r : Retry)
    → rows_of (h ++ ((b, r) ∷ [])) ≡ rows_of h ++ b
rows_of-snoc [] b r = append-nil b
rows_of-snoc ((c, q) ∷ h) b r = rw (rows_of-snoc h b r) (sym (append_assoc c (rows_of h) b))

module _ (env : ℕ → TxnOutcome) (conf : WriterConf) where
  held-after_write :
      (w : Writer) (r : Retry) (s : Sink) → held (after_write env conf w (r, s)) ≡ held w
  unfolding after_write
  held-after_write w written s = rw rows_of-snoc (append_assoc _ w.batch w.queue)
  held-after_write w dropped s = rw rows_of-snoc (append_assoc _ w.batch w.queue)
  held-after_write w panicked s = rw rows_of-snoc (append_assoc _ w.batch w.queue)

  held-flush : (w : Writer) → held (flush env conf w) ≡ held w
  unfolding flush
  held-flush w = go w.batch
    where
      go : (b : List Row) → held (flush_batch env conf b w) ≡ held w
      go [] = refl
      go (row ∷ rows) =
          let (r, s) = write_batch_with_retry env conf w.batch w.sink in held-after_write w r s

  pub queue-after_write :
      (w : Writer) (r : Retry) (s : Sink) → (after_write env conf w (r, s)).queue ≡ w.queue
  unfolding after_write
  queue-after_write w written s = refl
  queue-after_write w dropped s = refl
  queue-after_write w panicked s = refl

  pub queue-flush : (w : Writer) → (flush env conf w).queue ≡ w.queue
  unfolding flush
  queue-flush w = go w.batch
    where
      go : (b : List Row) → (flush_batch env conf b w).queue ≡ w.queue
      go [] = refl
      go (row ∷ rows) =
          let (r, s) = write_batch_with_retry env conf w.batch w.sink in queue-after_write w r s

  -- The writer before the test of a full batch.
  abbrev pub taken : Row → List Row → Writer → Writer
  taken row rest w = record w { queue = rest; batch = w.batch ++ (row ∷ []) }

  pub queue-take_row :
      (row : Row) (rest : List Row) (w : Writer) → (take_row env conf row rest w).queue ≡ rest
  unfolding take_row
  queue-take_row row rest w =
      if_elim (λ (v : Writer). v.queue ≡ rest)
        (leb conf.batch_size (length (taken row rest w).batch)) (flush env conf (taken row rest w))
        (taken row rest w) (queue-flush (taken row rest w)) refl

  held-take_row :
      (row : Row) (rest : List Row) (w : Writer)
      → held (take_row env conf row rest w) ≡ rows_of w.handed ++ (w.batch ++ (row ∷ rest))
  unfolding take_row
  held-take_row row rest w =
      if_elim (λ (v : Writer). held v ≡ rows_of w.handed ++ (w.batch ++ (row ∷ rest)))
        (leb conf.batch_size (length (taken row rest w).batch)) (flush env conf (taken row rest w))
        (taken row rest w) (held-flush (taken row rest w) ∙ same) same
    where
      same : held (taken row rest w) ≡ rows_of w.handed ++ (w.batch ++ (row ∷ rest))
      same = ap (◌++◌ (rows_of w.handed)) (append_assoc w.batch (row ∷ []) rest)

  held-finish : (w : Writer) → held (finish env conf w) ≡ held w
  unfolding finish
  held-finish w =
      if_elim (λ (v : Writer). held v ≡ held w) (is_running (flush env conf w).status) _
        (flush env conf w) (held-flush w) (held-flush w)

  pub held-drain : (q : List Row) (w : Writer) → w.queue ≡ q → held (drain env conf q w) ≡ held w
  unfolding drain
  held-drain [] w e = held-finish w
  held-drain (row ∷ rest) w e =
      go (is_running (take_row env conf row rest w).status) _ (take_row env conf row rest w)
        (held-drain rest (take_row env conf row rest w) (queue-take_row row rest w))
      ∙ rw e (held-take_row row rest w)
    where
      go :
          (b : Bool) (v u : Writer)
          → held v ≡ held u
          → held (elim b [ true ↦ v | false ↦ u ]) ≡ held u
      go true v u h = h
      go false v u h = refl

  held-receive_row :
      (q : List Row) (w : Writer) → w.queue ≡ q → held (receive_row env conf q w) ≡ held w
  unfolding receive_row
  held-receive_row [] w e = refl
  held-receive_row (row ∷ rest) w e = rw e (held-take_row row rest w)

  held-react : (e : Event) (w : Writer) → held (react env conf e w) ≡ held w
  unfolding react
  held-react (enqueue row) w = refl
  held-react receive w = held-receive_row w.queue w refl
  held-react tick w = held-flush w
  held-react stop w = held-drain w.queue w refl

  -- The row that an event adds: that of an `Enqueue` which returns true.
  abbrev pub accepted_by : Event → Writer → List Row
  accepted_by (enqueue row) w = if (enqueue_row env conf row w).0 then row ∷ [] else []
  accepted_by _ w = []

  abbrev pub accepted : Writer → List Event → List Row
  accepted w [] = []
  accepted w (e ∷ es) = accepted_by e w ++ accepted (step env conf w e) es

  pub held-enqueue_row :
      (row : Row) (w : Writer)
      → held (enqueue_row env conf row w).1
        ≡ held w ++ (if (enqueue_row env conf row w).0 then row ∷ [] else [])
  unfolding enqueue_row
  held-enqueue_row row w =
      if_elim (λ (r : Bool × Writer). held r.1 ≡ held w ++ (if r.0 then row ∷ [] else []))
        (ltb (length w.queue) conf.queue_size) _ (false, w) (simp append_assoc)
        (sym (append-nil (held w)))

  held-reacts :
      (w : Writer) (e : Event)
      → held (if is_running w.status then react env conf e w else w) ≡ held w ++ []
  held-reacts w e =
      if_elim (λ (v : Writer). held v ≡ held w) (is_running w.status) (react env conf e w) w
        (held-react e w) refl
      ∙ sym (append-nil (held w))

  pub held-step : (w : Writer) (e : Event) → held (step env conf w e) ≡ held w ++ accepted_by e w
  unfolding step
  held-step w (enqueue row) = held-enqueue_row row w
  held-step w receive = held-reacts w receive
  held-step w tick = held-reacts w tick
  held-step w stop = held-reacts w stop

  -- From any writer and for any sequence of events, outcomes of the database and settings: the rows
  -- handed to the database, then those in the batch, then those in the queue, are the rows that were
  -- there before, followed by every row for which `Enqueue` returned true, each once and in order.
  pub held-run : (w : Writer) (es : List Event) → held (run env conf w es) ≡ held w ++ accepted w es
  unfolding run
  held-run w [] = sym (append-nil (held w))
  held-run w (e ∷ es) =
      held-run (step env conf w e) es
      ∙ (ap (λ (xs : List Row). xs ++ accepted (step env conf w e) es) (held-step w e)
          ∙ append_assoc (held w) (accepted_by e w) (accepted (step env conf w e) es))
