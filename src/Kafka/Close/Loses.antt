-- ===== src/Kafka/Close/Loses.antt =====
-- The producer of mod_kafka once its context is cancelled: nothing that it writes arrives.
use log_reader.Prelude.{
  ℕ, ◌+◌, Bool, true, false, List, [], ◌∷◌, ◌++◌, append-nil, append_assoc, ◌≡◌, refl, sym, ap, ◌∙◌,
  arith, if_elim, leb, ltb, length, length-append,
}
use log_reader.Kafka.Producer.{
  Message, ProducerConf, Producer, Event, send, cancel, receive, tick, done, flush_batch, flush,
  take_message, drain, react, send_message, step, run,
}
use log_reader.Kafka.Producer.Delivery.{messages_of, flush_batch-Wrote}
use log_reader.Kafka.Producer.Shutdown.{failed-flush_batch}

module _ (env : ℕ → Bool → Bool) (dlq_env : ℕ → Bool) (conf : ProducerConf) where
  -- From p on, with the context cancelled: what is written are some messages, and all of them are
  -- counted as failed.
  abbrev pub Loses : Producer → Producer → Type 0
  Loses p q =
      (ms : List Message) × (messages_of q.writes ≡ messages_of p.writes ++ ms)
      × (q.send_kafka_failed ≡ p.send_kafka_failed + length ms)
      × (q.cancelled ≡ true)

  Loses-self : (p : Producer) → p.cancelled ≡ true → Loses p p
  Loses-self p c = ([], sym (append-nil (messages_of p.writes)), omega arith, c)

  pub Loses-trans : (p q r : Producer) → Loses p q → Loses q r → Loses p r
  Loses-trans p q r (ms, w, f, c) (ns, w', f', c') = (
    ms ++ ns,
    w' ∙ (ap (λ (l : List Message). l ++ ns) w ∙ append_assoc (messages_of p.writes) ms ns),
    omega (arith, f, f', length-append ms ns),
    c',
  )

  flush_batch-Loses :
      ((n : ℕ) → env n true ≡ false)
      → (ms : List Message) (p : Producer) → p.cancelled ≡ true
      → Loses p (flush_batch env dlq_env conf ms p)
  flush_batch-Loses refuses ms p c =
      let (w, q, k, f) = flush_batch-Wrote env dlq_env conf ms p in
      let fails : env (length p.writes) p.cancelled ≡ false = rw c (refuses (length p.writes)) in
      (ms, w, failed-flush_batch env dlq_env conf ms p fails, k ∙ c)

  module _ (refuses : (n : ℕ) → env n true ≡ false) where
    take_message-Loses :
        (queue : List Message) (p : Producer)
        → p.cancelled ≡ true
        → Loses p (take_message env dlq_env conf queue p)
    unfolding take_message flush
    take_message-Loses [] p c = Loses-self p c
    take_message-Loses (m ∷ rest) p c =
        let p' : Producer = record p { queue = rest; batch = p.batch ++ (m ∷ []) } in
        if_elim (Loses p) (leb conf.batch_size (length p'.batch)) (flush env dlq_env conf p') p'
          (flush_batch-Loses refuses p'.batch p' c) (Loses-self p c)

    react-Loses :
        (e : Event) (p : Producer) → p.cancelled ≡ true → Loses p (react env dlq_env conf e p)
    unfolding react flush drain
    react-Loses (send m) p c = Loses-self p c
    react-Loses cancel p c = Loses-self p c
    react-Loses receive p c = take_message-Loses p.queue p c
    react-Loses tick p c = flush_batch-Loses refuses p.batch p c
    react-Loses done p c =
        if_elim (Loses p) p.cancelled _ p
          (flush_batch-Loses refuses (p.batch ++ p.queue)
            (record p { queue = []; batch = p.batch ++ p.queue }) c)
          (Loses-self p c)

    pub step-Loses :
        (e : Event) (p : Producer) → p.cancelled ≡ true → Loses p (step env dlq_env conf p e)
    unfolding step send_message
    step-Loses (send m) p c =
        if_elim (λ (r : Bool × Producer). Loses p r.1) (ltb (length p.queue) conf.queue_size)
          (true, record p { queue = p.queue ++ (m ∷ []) }) _ (Loses-self p c) (Loses-self p c)
    step-Loses cancel p c = ([], sym (append-nil (messages_of p.writes)), omega arith, refl)
    step-Loses receive p c =
        if_elim (Loses p) p.ended p _ (Loses-self p c) (react-Loses receive p c)
    step-Loses tick p c = if_elim (Loses p) p.ended p _ (Loses-self p c) (react-Loses tick p c)
    step-Loses done p c = if_elim (Loses p) p.ended p _ (Loses-self p c) (react-Loses done p c)

    pub run-Loses :
        (es : List Event) (p : Producer) → p.cancelled ≡ true → Loses p (run env dlq_env conf p es)
    unfolding run
    run-Loses [] p c = Loses-self p c
    run-Loses (e ∷ es) p c =
        let first : Loses p (step env dlq_env conf p e) = step-Loses e p c in
        let (ms, w, f, c') = first in
        Loses-trans p (step env dlq_env conf p e)
          (run env dlq_env conf (step env dlq_env conf p e) es) first
          (run-Loses es (step env dlq_env conf p e) c')
