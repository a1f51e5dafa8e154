-- ===== src/Kafka/Producer/Delivery.antt =====
-- Where the messages of reader_modules/mod_kafka/kafka_producer.go are: none is lost or repeated
-- between `Send` and `WriteMessages`.
use log_reader.Prelude.{
  ℕ, Bool, true, false, List, [], ◌∷◌, ◌++◌, append-nil, append_assoc, ◌≡◌, refl, sym, ap, ◌∙◌, ltb,
  leb, if◌then◌else◌, if_elim, length,
}
use log_reader.Kafka.Producer.{
  Message, ProducerConf, Producer, Event, send, cancel, receive, tick, done, write_to_dlq,
  after_write, flush_batch, flush, take_message, drain, react, send_message, step, run,
}

-- The messages of the calls of `WriteMessages`, in order.
abbrev pub messages_of : List (List Message × Bool) → List Message
messages_of [] = []
messages_of ((ms, r) ∷ ws) = ms ++ messages_of ws

messages_of-append :
    (ws vs : List (List Message × Bool)) → messages_of (ws ++ vs) ≡ messages_of ws ++ messages_of vs
messages_of-append [] vs = refl
messages_of-append ((ms, r) ∷ ws) vs =
    rw (messages_of-append ws vs) (sym (append_assoc ms (messages_of ws) (messages_of vs)))

abbrev pub all_messages : Producer → List Message
all_messages p = messages_of p.writes ++ (p.batch ++ p.queue)

module _ (env : ℕ → Bool → Bool) (dlq_env : ℕ → Bool) (conf : ProducerConf) where
  -- What a flush of the messages leaves: they are written, and the channel is as before.
  abbrev pub Wrote : List Message → Producer → Producer → Type 0
  Wrote ms p q =
      (messages_of q.writes ≡ messages_of p.writes ++ ms)
      × (q.queue ≡ p.queue)
      × (q.cancelled ≡ p.cancelled)
      × (q.sent_kafka_chn_full ≡ p.sent_kafka_chn_full)

  one-more :
      (r : Bool) (ms : List Message) (ws : List (List Message × Bool))
      → messages_of (ws ++ ((ms, r) ∷ [])) ≡ messages_of ws ++ ms
  one-more r ms ws =
      messages_of-append ws ((ms, r) ∷ []) ∙ ap (◌++◌ (messages_of ws)) (append-nil ms)

  write_to_dlq-Wrote :
      (ms ns : List Message) (p q : Producer)
      → Wrote ns p q
      → Wrote ns p (write_to_dlq env dlq_env conf ms q)
  unfolding write_to_dlq
  write_to_dlq-Wrote ms ns p q h = if_elim (Wrote ns p) conf.has_dlq _ _ h h

  after_write-Wrote :
      (r : Bool) (ms : List Message) (p : Producer)
      → Wrote ms p (after_write env dlq_env conf r ms p)
  unfolding after_write
  after_write-Wrote true ms p = (one-more true ms p.writes, refl, refl, refl)
  after_write-Wrote false ms p =
      write_to_dlq-Wrote ms ms p _ (one-more false ms p.writes, refl, refl, refl)

  pub flush_batch-Wrote :
      (ms : List Message) (p : Producer) → Wrote ms p (flush_batch env dlq_env conf ms p)
  unfolding flush_batch
  flush_batch-Wrote [] p = (sym (append-nil _), refl, refl, refl)
  flush_batch-Wrote (m ∷ ms) p = after_write-Wrote (env (length p.writes) p.cancelled) (m ∷ ms) p

  pub flush_batch-batch :
      (ms : List Message) (p : Producer)
      → p.batch ≡ ms
      → (flush_batch env dlq_env conf ms p).batch ≡ []
  unfolding flush_batch
  flush_batch-batch [] p e = e
  flush_batch-batch (m ∷ ms) p e = refl

  all_messages-flush : (p : Producer) → all_messages (flush env dlq_env conf p) ≡ all_messages p
  unfolding flush
  all_messages-flush p =
      let (w, q, c, f) = flush_batch-Wrote p.batch p in
      rw (w, q, flush_batch-batch p.batch p refl)
        (append_assoc (messages_of p.writes) p.batch p.queue)

  all_messages-take_message :
      (queue : List Message) (p : Producer)
      → p.queue ≡ queue
      → all_messages (take_message env dlq_env conf queue p) ≡ all_messages p
  unfolding take_message
  all_messages-take_message [] p e = refl
  all_messages-take_message (m ∷ rest) p e =
      let p' : Producer = record p { queue = rest; batch = p.batch ++ (m ∷ []) } in
      let same : all_messages p' ≡ all_messages p =
        ap (◌++◌ (messages_of p.writes))
          (append_assoc p.batch (m ∷ []) rest ∙ ap (◌++◌ p.batch) (sym e)) in
      if_elim (λ (q : Producer). all_messages q ≡ all_messages p)
        (leb conf.batch_size (length p'.batch)) _ _ (all_messages-flush p' ∙ same) same

  all_messages-drain : (p : Producer) → all_messages (drain env dlq_env conf p) ≡ all_messages p
  unfolding drain
  all_messages-drain p =
      all_messages-flush (record p { queue = []; batch = p.batch ++ p.queue })
      ∙ ap (◌++◌ (messages_of p.writes)) (append-nil (p.batch ++ p.queue))

  all_messages-react :
      (e : Event) (p : Producer) → all_messages (react env dlq_env conf e p) ≡ all_messages p
  unfolding react
  all_messages-react (send m) p = refl
  all_messages-react cancel p = refl
  all_messages-react receive p = all_messages-take_message p.queue p refl
  all_messages-react tick p = all_messages-flush p
  all_messages-react done p =
      if_elim (λ (q : Producer). all_messages q ≡ all_messages p) p.cancelled _ _
        (all_messages-drain p) refl

  full-flush :
      (p : Producer) → (flush env dlq_env conf p).sent_kafka_chn_full ≡ p.sent_kafka_chn_full
  unfolding flush
  full-flush p = (flush_batch-Wrote p.batch p).3

  full-take_message :
      (queue : List Message) (p : Producer)
      → (take_message env dlq_env conf queue p).sent_kafka_chn_full ≡ p.sent_kafka_chn_full
  unfolding take_message
  full-take_message [] p = refl
  full-take_message (m ∷ rest) p =
      let p' : Producer = record p { queue = rest; batch = p.batch ++ (m ∷ []) } in
      if_elim (λ (q : Producer). q.sent_kafka_chn_full ≡ p.sent_kafka_chn_full)
        (leb conf.batch_size (length p'.batch)) _ _ (full-flush p') refl

  -- Only `Send` counts a full channel.
  pub full-react :
      (e : Event) (p : Producer)
      → (react env dlq_env conf e p).sent_kafka_chn_full ≡ p.sent_kafka_chn_full
  unfolding react drain
  full-react (send m) p = refl
  full-react cancel p = refl
  full-react receive p = full-take_message p.queue p
  full-react tick p = full-flush p
  full-react done p =
      if_elim (λ (q : Producer). q.sent_kafka_chn_full ≡ p.sent_kafka_chn_full) p.cancelled _ _
        (full-flush (record p { queue = []; batch = p.batch ++ p.queue })) refl

  all_messages-send_message :
      (m : Message) (p : Producer)
      → all_messages (send_message env dlq_env conf m p).1
        ≡ all_messages p ++ (if (send_message env dlq_env conf m p).0 then m ∷ [] else [])
  unfolding send_message
  all_messages-send_message m p =
      if_elim
        (λ (r : Bool × Producer). all_messages r.1 ≡ all_messages p ++ (if r.0 then m ∷ [] else []))
        (ltb (length p.queue) conf.queue_size) _ _ (simp append_assoc)
        (sym (append-nil (all_messages p)))

  -- The messages for which there was room in the channel.
  abbrev pub accepted_by : Event → Producer → List Message
  accepted_by (send m) p = if (send_message env dlq_env conf m p).0 then m ∷ [] else []
  accepted_by _ p = []

  abbrev pub accepted : Producer → List Event → List Message
  accepted p [] = []
  accepted p (e ∷ es) = accepted_by e p ++ accepted (step env dlq_env conf p e) es

  all_messages-ended :
      (e : Event) (p : Producer)
      → all_messages (if p.ended then p else react env dlq_env conf e p) ≡ all_messages p ++ []
  all_messages-ended e p =
      if_elim (λ (q : Producer). all_messages q ≡ all_messages p) p.ended p
        (react env dlq_env conf e p) refl (all_messages-react e p)
      ∙ sym (append-nil (all_messages p))

  pub all_messages-step :
      (p : Producer) (e : Event)
      → all_messages (step env dlq_env conf p e) ≡ all_messages p ++ accepted_by e p
  unfolding step
  all_messages-step p (send m) = all_messages-send_message m p
  all_messages-step p cancel = sym (append-nil (all_messages p))
  all_messages-step p receive = all_messages-ended receive p
  all_messages-step p tick = all_messages-ended tick p
  all_messages-step p done = all_messages-ended done p

  -- From any producer, for any sequence of events and outcomes of the writers: the messages of all
  -- calls of `WriteMessages`, then those of the batch, then those in the channel, are the messages that
  -- were there before, followed by every message that `Send` put in the channel, each once and in order.
  pub all_messages-run :
      (p : Producer) (es : List Event)
      → all_messages (run env dlq_env conf p es) ≡ all_messages p ++ accepted p es
  unfolding run
  all_messages-run p [] = sym (append-nil (all_messages p))
  all_messages-run p (e ∷ es) =
      all_messages-run (step env dlq_env conf p e) es
      ∙ (ap (λ (ms : List Message). ms ++ accepted (step env dlq_env conf p e) es)
            (all_messages-step p e)
          ∙ append_assoc (all_messages p) (accepted_by e p)
              (accepted (step env dlq_env conf p e) es))
