-- ===== src/Mysql/Writer/Shutdown.antt =====
-- What `Close` of reader_modules/mod_log_mysql/record_writer.go leaves behind: the loop over the case
-- `<-w.stopCh`.
use mathlib.Core.Path.{ap₂}
use log_reader.Prelude.{
  if_elim, ◌≡◌, refl, sym, ◌∙◌, leb, length, ◌⊎◌, inl, inr, true, false, List, [], ◌∷◌, ◌++◌,
  append-nil, ℕ, if◌then◌else◌,
}
use log_reader.Mysql.Writer.{
  Row, WriterConf, TxnOutcome, Sink, Retry, written, dropped, panicked, write_batch_with_retry,
}
use log_reader.Mysql.Writer.Loop.{
  Writer, Status, running, closed, crashed, stop, after_write, flush_batch, flush, take_row,
  is_running, finish, drain, react, step,
}
use log_reader.Mysql.Writer.Delivery.{rows_of, held, held-drain, queue-flush, queue-take_row, taken}

-- The goroutine is gone: it has returned with nothing left, or it has crashed.
abbrev pub Ended : Writer → Type 0
Ended w = ((w.status ≡ closed) × (w.queue ≡ []) × (w.batch ≡ [])) ⊎ (w.status ≡ crashed)

module _ {ℓ κ} {A : Type ℓ} (P : A → Type κ) where
  -- The test of a status that is known.
  if_running : (s : Status) (x y : A) → s ≡ running → P x → P (if is_running s then x else y)
  if_running running x y e p = p
  if_running closed x y e p = absurd (cc)
  if_running crashed x y e p = absurd (cc)

  if_crashed : (s : Status) (x y : A) → s ≡ crashed → P y → P (if is_running s then x else y)
  if_crashed running x y e p = absurd (cc)
  if_crashed closed x y e p = p
  if_crashed crashed x y e p = p

module _ (env : ℕ → TxnOutcome) (conf : WriterConf) where
  -- A flush empties the batch, and the goroutine still runs or has crashed.
  abbrev Flushed : Writer → Type 0
  Flushed w = (w.batch ≡ []) × ((w.status ≡ running) ⊎ (w.status ≡ crashed))

  flush-Flushed : (w : Writer) → w.status ≡ running → Flushed (flush env conf w)
  unfolding flush
  flush-Flushed w e = go w.batch refl
    where
      after : (r : Retry) (s : Sink) → Flushed (after_write env conf w (r, s))
      after written s = unfold after_write in (refl, inl e)
      after dropped s = unfold after_write in (refl, inl e)
      after panicked s = unfold after_write in (refl, inr refl)

      go : (b : List Row) → w.batch ≡ b → Flushed (flush_batch env conf b w)
      go [] h = (h, inl e)
      go (row ∷ rows) h = let (r, s) = write_batch_with_retry env conf w.batch w.sink in after r s

  finish-Ended : (w : Writer) → w.queue ≡ [] → w.status ≡ running → Ended (finish env conf w)
  unfolding finish
  finish-Ended w q e = go (flush env conf w) (queue-flush env conf w ∙ q) (flush-Flushed w e)
    where
      go :
          (u : Writer)
          → u.queue ≡ []
          → Flushed u
          → Ended (if is_running u.status then record u { status = closed } else u)
      go u h (b, inl r) = if_running Ended u.status _ u r (inl (refl, h, b))
      go u h (b, inr c) = if_crashed Ended u.status _ u c (inr c)

  status-take_row :
      (row : Row) (rest : List Row) (w : Writer)
      → w.status ≡ running
      → ((take_row env conf row rest w).status ≡ running)
        ⊎ ((take_row env conf row rest w).status ≡ crashed)
  unfolding take_row
  status-take_row row rest w e =
      if_elim (λ (v : Writer). (v.status ≡ running) ⊎ (v.status ≡ crashed))
        (leb conf.batch_size (length (w.batch ++ (row ∷ []))))
        (flush env conf (taken env conf row rest w)) (taken env conf row rest w)
        (flush-Flushed (taken env conf row rest w) e).1 (inl e)

  drain-Ended :
      (q : List Row) (w : Writer) → w.queue ≡ q → w.status ≡ running → Ended (drain env conf q w)
  unfolding drain
  drain-Ended [] w q e = finish-Ended w q e
  drain-Ended (row ∷ rest) w q e =
      go (take_row env conf row rest w) (drain env conf rest (take_row env conf row rest w))
        (status-take_row row rest w e)
        (drain-Ended rest (take_row env conf row rest w) (queue-take_row env conf row rest w))
    where
      go :
          (u v : Writer)
          → (u.status ≡ running) ⊎ (u.status ≡ crashed)
          → (u.status ≡ running → Ended v)
          → Ended (elim (is_running u.status) [ true ↦ v | false ↦ u ])
      go u v (inl r) f = rw r (f r)
      go u v (inr c) f = rw c (inr c)

  stop-Ended : (w : Writer) → w.status ≡ running → Ended (step env conf w stop)
  unfolding step react
  stop-Ended w e = if_running Ended w.status _ w e (drain-Ended w.queue w refl e)

  stop-held : (w : Writer) → w.status ≡ running → held (step env conf w stop) ≡ held w
  unfolding step react
  stop-held w e =
      if_running (λ (v : Writer). held v ≡ held w) w.status _ w e
        (held-drain env conf w.queue w refl)

  -- When a goroutine that runs takes the stop case, it ends. Unless it crashes, its queue and its
  -- batch are then empty, and every row that it held has been handed to the database, in order.
  pub stop-drains :
      (w : Writer)
      → w.status ≡ running
      → (((step env conf w stop).status ≡ closed)
          × ((step env conf w stop).queue ≡ [])
          × ((step env conf w stop).batch ≡ [])
          × (rows_of (step env conf w stop).handed ≡ held w))
        ⊎ ((step env conf w stop).status ≡ crashed)
  stop-drains w e = go (step env conf w stop) (stop-Ended w e) (stop-held w e)
    where
      go :
          (u : Writer)
          → Ended u
          → held u ≡ held w
          → ((u.status ≡ closed) × (u.queue ≡ []) × (u.batch ≡ []) × (rows_of u.handed ≡ held w))
            ⊎ (u.status ≡ crashed)
      go u (inr c) h = inr c
      go u (inl (c, q, b)) h = inl (
        c,
        q,
        b,
        sym (append-nil (rows_of u.handed))
            ∙ (ap₂ (λ (x y : List Row). rows_of u.handed ++ (x ++ y)) (sym b) (sym q) ∙ h),
      )
