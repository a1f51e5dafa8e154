-- ===== src/Kafka/Producer/Accounts.antt =====
-- What the counters of reader_modules/mod_kafka/kafka_producer.go count.
use log_reader.Prelude.{
  ℕ, suc, ◌+◌, Bool, true, false, List, [], ◌∷◌, ◌++◌, append-nil, ◌≡◌, refl, sym, ap, subst, ◌∙◌,
  arith, leb, ltb, if◌then◌else◌, if_elim, Bool-cases, inl, inr, length, length-append,
}
use log_reader.Kafka.Producer.{
  Message, ProducerConf, Producer, new_producer, Event, send, cancel, receive, tick, done,
  write_to_dlq, after_write, flush_batch, flush, take_message, drain, react, send_message, step,
  run,
}

-- The batches whose call of `WriteMessages` failed, and the number of their messages.
abbrev pub failed_batches : List (List Message × Bool) → List (List Message)
failed_batches [] = []
failed_batches ((ms, true) ∷ ws) = failed_batches ws
failed_batches ((ms, false) ∷ ws) = ms ∷ failed_batches ws

abbrev pub messages_in : List (List Message) → ℕ
messages_in [] = 0
messages_in (ms ∷ bs) = length ms + messages_in bs

abbrev pub batches_of : List (List Message × Bool) → List (List Message)
batches_of [] = []
batches_of ((ms, r) ∷ ws) = ms ∷ batches_of ws

failed_batches-append :
    (ws vs : List (List Message × Bool))
    → failed_batches (ws ++ vs) ≡ failed_batches ws ++ failed_batches vs
failed_batches-append [] vs = refl
failed_batches-append ((ms, true) ∷ ws) vs = failed_batches-append ws vs
failed_batches-append ((ms, false) ∷ ws) vs = ap (◌∷◌ ms) (failed_batches-append ws vs)

batches_of-append :
    (ws vs : List (List Message × Bool)) → batches_of (ws ++ vs) ≡ batches_of ws ++ batches_of vs
batches_of-append [] vs = refl
batches_of-append ((ms, r) ∷ ws) vs = ap (◌∷◌ ms) (batches_of-append ws vs)

messages_in-append :
    (bs cs : List (List Message)) → messages_in (bs ++ cs) ≡ messages_in bs + messages_in cs
messages_in-append [] cs = omega arith
messages_in-append (ms ∷ bs) cs = omega (arith, messages_in-append bs cs)

abbrev pub Accounts : ProducerConf → Producer → Type 0
Accounts conf p =
    (p.send_kafka_failed ≡ messages_in (failed_batches p.writes))
    × (batches_of p.dlq_writes ≡ (if conf.has_dlq then failed_batches p.writes else []))
    × (p.dlq_sent ≡ length p.dlq_writes)
    × (p.dlq_sent_failed ≡ length (failed_batches p.dlq_writes))

module _ (env : ℕ → Bool → Bool) (dlq_env : ℕ → Bool) (conf : ProducerConf) where
  -- The accounts of a producer, except that the last failed batch is not in the dead letter queue.
  abbrev Owing : List Message → Producer → Type 0
  Owing ms p =
      (p.send_kafka_failed ≡ messages_in (failed_batches p.writes))
      × (batches_of p.dlq_writes ++ (if conf.has_dlq then ms ∷ [] else [])
          ≡ (if conf.has_dlq then failed_batches p.writes else []))
      × (p.dlq_sent ≡ length p.dlq_writes)
      × (p.dlq_sent_failed ≡ length (failed_batches p.dlq_writes))

  refusals :
      (sent : Bool) (ms : List Message) (ws : List (List Message × Bool)) (n : ℕ)
      → n ≡ length (failed_batches ws)
      → (if sent then n else suc n) ≡ length (failed_batches (ws ++ ((ms, sent) ∷ [])))
  refusals true ms ws n e = rw (failed_batches-append ws ((ms, true) ∷ []), append-nil) e
  refusals false ms ws n e =
      rw (failed_batches-append ws ((ms, false) ∷ []))
        (omega (arith, length-append (failed_batches ws) (ms ∷ [])))

  write_to_dlq-Accounts :
      (ms : List Message) (p : Producer)
      → Owing ms p
      → Accounts conf (write_to_dlq env dlq_env conf ms p)
  unfolding write_to_dlq
  write_to_dlq-Accounts ms p (f, b, s, r) =
      let Listed : Bool → Type 0 = λ h.
        batches_of p.dlq_writes ++ (if h then ms ∷ [] else [])
        ≡ (if h then failed_batches p.writes else []) in
      let call : List Message × Bool = (ms, dlq_env (length p.dlq_writes)) in
      elim (Bool-cases conf.has_dlq) [
        | inl on ↦ rw on (
          f,
          batches_of-append p.dlq_writes (call ∷ []) ∙ subst Listed on b,
          omega (arith, length-append p.dlq_writes (call ∷ [])),
          refusals _ ms p.dlq_writes p.dlq_sent_failed r,
        )
        | inr off ↦
            rw off (f, sym (append-nil (batches_of p.dlq_writes)) ∙ subst Listed off b, s, r)
      ]

  after_write-Accounts :
      (r : Bool) (ms : List Message) (p : Producer)
      → Accounts conf p
      → Accounts conf (after_write env dlq_env conf r ms p)
  unfolding after_write
  after_write-Accounts true ms p (f, b, s, r) =
      let e : failed_batches (p.writes ++ ((ms, true) ∷ [])) ≡ failed_batches p.writes =
        failed_batches-append p.writes ((ms, true) ∷ []) ∙ append-nil (failed_batches p.writes) in
      rw e (f, b, s, r)
  after_write-Accounts false ms p (f, b, s, r) =
      let e : failed_batches (p.writes ++ ((ms, false) ∷ []))
          ≡ failed_batches p.writes ++ (ms ∷ []) =
        failed_batches-append p.writes ((ms, false) ∷ []) in
      write_to_dlq-Accounts ms _ (
        rw e (omega (arith, f, messages_in-append (failed_batches p.writes) (ms ∷ []))),
        rw e (listed conf.has_dlq b),
        s,
        r,
      )
    where
      listed :
          (h : Bool)
          → batches_of p.dlq_writes ≡ (if h then failed_batches p.writes else [])
          → batches_of p.dlq_writes ++ (if h then ms ∷ [] else [])
            ≡ (if h then failed_batches p.writes ++ (ms ∷ []) else [])
      listed true d = ap (λ (bs : List (List Message)). bs ++ (ms ∷ [])) d
      listed false d = append-nil _ ∙ d

  flush_batch-Accounts :
      (ms : List Message) (p : Producer)
      → Accounts conf p
      → Accounts conf (flush_batch env dlq_env conf ms p)
  unfolding flush_batch
  flush_batch-Accounts [] p a = a
  flush_batch-Accounts (m ∷ ms) p a =
      after_write-Accounts (env (length p.writes) p.cancelled) (m ∷ ms) p a

  take_message-Accounts :
      (queue : List Message) (p : Producer)
      → Accounts conf p
      → Accounts conf (take_message env dlq_env conf queue p)
  unfolding take_message flush
  take_message-Accounts [] p a = a
  take_message-Accounts (m ∷ rest) p a =
      if_elim (Accounts conf) (leb conf.batch_size (length (p.batch ++ (m ∷ [])))) _ _
        (flush_batch-Accounts (p.batch ++ (m ∷ [])) _ a) a

  react-Accounts :
      (e : Event) (p : Producer) → Accounts conf p → Accounts conf (react env dlq_env conf e p)
  unfolding react flush drain
  react-Accounts (send m) p a = a
  react-Accounts cancel p a = a
  react-Accounts receive p a = take_message-Accounts p.queue p a
  react-Accounts tick p a = flush_batch-Accounts p.batch p a
  react-Accounts done p a =
      if_elim (Accounts conf) p.cancelled _ _ (flush_batch-Accounts (p.batch ++ p.queue) _ a) a

  step-Accounts :
      (p : Producer) (e : Event) → Accounts conf p → Accounts conf (step env dlq_env conf p e)
  unfolding step send_message
  step-Accounts p (send m) a =
      if_elim (λ (r : Bool × Producer). Accounts conf r.1) (ltb (length p.queue) conf.queue_size)
        (true, record p { queue = p.queue ++ (m ∷ []) }) _ a a
  step-Accounts p cancel a = a
  step-Accounts p receive a = if_elim (Accounts conf) p.ended _ _ a (react-Accounts receive p a)
  step-Accounts p tick a = if_elim (Accounts conf) p.ended _ _ a (react-Accounts tick p a)
  step-Accounts p done a = if_elim (Accounts conf) p.ended _ _ a (react-Accounts done p a)

  run-Accounts :
      (p : Producer) (es : List Event) → Accounts conf p → Accounts conf (run env dlq_env conf p es)
  unfolding run
  run-Accounts p [] a = a
  run-Accounts p (e ∷ es) a = run-Accounts (step env dlq_env conf p e) es (step-Accounts p e a)

  -- After any sequence of events and outcomes of the two writers: SEND_KAFKA_FAILED is the number of
  -- messages in the batches that `WriteMessages` failed for; the batches given to the dead letter
  -- queue are exactly these, in order, if there is such a queue, and none if not; DLQ_SENT counts
  -- these batches, whether or not they arrive, and DLQ_SENT_FAILED those that do not.
  pub run-new_producer-Accounts :
      (es : List Event) → Accounts conf (run env dlq_env conf new_producer es)
  run-new_producer-Accounts es =
      run-Accounts new_producer es (refl, none_yet conf.has_dlq, refl, refl)
    where
      none_yet : (h : Bool) → ◌≡◌ {A = List (List Message)} [] (if h then [] else [])
      none_yet true = refl
      none_yet false = refl
