-- ===== src/Kafka/Close/Ends.antt =====
-- The end of the goroutine of the producer of mod_kafka.
use log_reader.Prelude.{
  ℕ, Bool, true, false, List, [], ◌∷◌, ◌++◌, ◌≡◌, refl, sym, ◌∙◌, if◌then◌else◌, if_elim,
  if_elim_eq, false≢true, leb, ltb, length, All,
}
use log_reader.Kafka.Producer.{
  Message, ProducerConf, Producer, Event, send, cancel, receive, tick, done, write_to_dlq,
  after_write, flush_batch, flush, take_message, drain, react, send_message, step, run,
}
use log_reader.Kafka.Producer.Delivery.{flush_batch-Wrote, flush_batch-batch}

-- The channel emptied into the batch.
abbrev drained : Producer → Producer
drained p = record p { queue = []; batch = p.batch ++ p.queue }

abbrev pub is_done : Event → Bool
is_done e = elim e [ done ↦ true | _ ↦ false ]

module _ (env : ℕ → Bool → Bool) (dlq_env : ℕ → Bool) (conf : ProducerConf) where
  -- Only the case `ctx.Done()` ends the goroutine.
  ended-flush_batch :
      (ms : List Message) (p : Producer) → (flush_batch env dlq_env conf ms p).ended ≡ p.ended
  unfolding flush_batch after_write write_to_dlq
  ended-flush_batch [] p = refl
  ended-flush_batch (m ∷ ms) p = after (env (length p.writes) p.cancelled)
    where
      after : (b : Bool) → (after_write env dlq_env conf b (m ∷ ms) p).ended ≡ p.ended
      after true = refl
      after false = if_elim (λ (q : Producer). q.ended ≡ p.ended) conf.has_dlq _ _ refl refl

  ended-take_message :
      (queue : List Message) (p : Producer)
      → (take_message env dlq_env conf queue p).ended ≡ p.ended
  unfolding take_message flush
  ended-take_message [] p = refl
  ended-take_message (m ∷ rest) p =
      let p' : Producer = record p { queue = rest; batch = p.batch ++ (m ∷ []) } in
      if_elim (λ (q : Producer). q.ended ≡ p.ended) (leb conf.batch_size (length p'.batch)) _ _
        (ended-flush_batch p'.batch p') refl

  pub ended-step :
      (e : Event) (p : Producer) → is_done e ≡ false → (step env dlq_env conf p e).ended ≡ p.ended
  unfolding step react flush send_message
  ended-step (send m) p n =
      if_elim (λ (r : Bool × Producer). r.1.ended ≡ p.ended) (ltb (length p.queue) conf.queue_size)
        (true, record p { queue = p.queue ++ (m ∷ []) }) _ refl refl
  ended-step cancel p n = refl
  ended-step receive p n =
      if_elim (λ (q : Producer). q.ended ≡ p.ended) p.ended p _ refl (ended-take_message p.queue p)
  ended-step tick p n =
      if_elim (λ (q : Producer). q.ended ≡ p.ended) p.ended p _ refl (ended-flush_batch p.batch p)
  ended-step done p n = cc

  pub ended-run :
      (es : List Event) (p : Producer)
      → All (λ e. is_done e ≡ false) es
      → (run env dlq_env conf p es).ended ≡ p.ended
  unfolding run
  ended-run [] p n = refl
  ended-run (e ∷ es) p n = ended-run es (step env dlq_env conf p e) n.1 ∙ ended-step e p n.0

  -- A producer whose goroutine has returned writes nothing more.
  idle_step :
      (e : Event) (p : Producer)
      → p.ended ≡ true
      → let q : Producer = if p.ended then p else react env dlq_env conf e p in
        (q.writes ≡ p.writes) × (q.ended ≡ true)
  idle_step e p t =
      if_elim_eq (λ (q : Producer). (q.writes ≡ p.writes) × (q.ended ≡ true)) p.ended p _
        (λ u. (refl, u)) (λ f. absurd (false≢true (sym f ∙ t)))

  after_end-step :
      (e : Event) (p : Producer)
      → p.ended ≡ true
      → ((step env dlq_env conf p e).writes ≡ p.writes) × ((step env dlq_env conf p e).ended ≡ true)
  unfolding step send_message
  after_end-step (send m) p t =
      if_elim (λ (r : Bool × Producer). (r.1.writes ≡ p.writes) × (r.1.ended ≡ true))
        (ltb (length p.queue) conf.queue_size) (true, record p { queue = p.queue ++ (m ∷ []) }) _
        (refl, t) (refl, t)
  after_end-step cancel p t = (refl, t)
  after_end-step receive p t = idle_step receive p t
  after_end-step tick p t = idle_step tick p t
  after_end-step done p t = idle_step done p t

  pub after_end-run :
      (gs : List Event) (p : Producer)
      → p.ended ≡ true
      → (run env dlq_env conf p gs).writes ≡ p.writes
  unfolding run
  after_end-run [] p t = refl
  after_end-run (g ∷ gs) p t =
      let (w, t') = after_end-step g p t in after_end-run gs (step env dlq_env conf p g) t' ∙ w

  pub done-step :
      (p : Producer)
      → p.ended ≡ false
      → p.cancelled ≡ true
      → let q : Producer = step env dlq_env conf p done in
        (q.ended ≡ true) × (q.queue ≡ []) × (q.batch ≡ [])
  unfolding step react drain flush
  done-step p f c =
      if_elim_eq (λ (q : Producer). (q.ended ≡ true) × (q.queue ≡ []) × (q.batch ≡ [])) p.ended p _
        (λ t. absurd (false≢true (sym f ∙ t)))
        (λ g.
          if_elim_eq (λ (q : Producer). (q.ended ≡ true) × (q.queue ≡ []) × (q.batch ≡ []))
            p.cancelled _ p
            (λ t. (
              refl,
              (flush_batch-Wrote env dlq_env conf (p.batch ++ p.queue) (drained p)).1,
              flush_batch-batch env dlq_env conf (p.batch ++ p.queue) (drained p) refl,
            ))
            (λ h. absurd (false≢true (sym h ∙ c))))
