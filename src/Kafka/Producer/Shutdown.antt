-- ===== src/Kafka/Producer/Shutdown.antt =====
-- The end of `sendLoop` of reader_modules/mod_kafka/kafka_producer.go.
use log_reader.Prelude.{
  ℕ, ◌+◌, Bool, true, false, List, [], ◌∷◌, ◌++◌, ◌≡◌, refl, length, if_elim, arith,
}
use log_reader.Kafka.Producer.{
  Message, ProducerConf, Producer, done, write_to_dlq, after_write, flush_batch, flush, drain,
  react, step,
}
use log_reader.Kafka.Producer.Delivery.{
  messages_of, all_messages, flush_batch-batch, flush_batch-Wrote,
}

-- A producer whose goroutine runs.
abbrev pub at_close : List Message → List Message → Producer → Producer
at_close batch queue p = record p { batch = batch; queue = queue; cancelled = true; ended = false }

module _ (env : ℕ → Bool → Bool) (dlq_env : ℕ → Bool) (conf : ProducerConf) where
  -- What the final flush of some messages does to the counters, if the writer refuses them.
  pub failed-flush_batch :
      (ms : List Message) (p : Producer)
      → env (length p.writes) p.cancelled ≡ false
      → (flush_batch env dlq_env conf ms p).send_kafka_failed ≡ p.send_kafka_failed + length ms
  unfolding flush_batch after_write write_to_dlq
  failed-flush_batch [] p e = omega arith
  failed-flush_batch (m ∷ ms) p e = rw e (
      if_elim (λ (q : Producer). q.send_kafka_failed ≡ p.send_kafka_failed + length (m ∷ ms))
        conf.has_dlq _ _ refl refl)

  -- If `WriteMessages` fails whenever its context is cancelled: when the context is cancelled and the
  -- goroutine runs, the done case ends it with an empty channel and batch, all messages of the batch
  -- and the channel are given to `WriteMessages`, and all of them are counted in SEND_KAFKA_FAILED:
  -- the final flush never succeeds.
  pub done-drains :
      (batch queue : List Message) (p : Producer)
      → ((n : ℕ) → env n true ≡ false)
      → let q : Producer = step env dlq_env conf (at_close batch queue p) done in
        (q.ended ≡ true)
        × (q.queue ≡ [])
        × (q.batch ≡ [])
        × (messages_of q.writes ≡ all_messages (at_close batch queue p))
        × (q.send_kafka_failed ≡ p.send_kafka_failed + length (batch ++ queue))
  unfolding step react drain flush
  done-drains batch queue p refuses =
      let r : Producer = record (at_close batch queue p) { queue = []; batch = batch ++ queue } in
      let (w, c, k, f) = flush_batch-Wrote env dlq_env conf (batch ++ queue) r in
      (
        refl,
        c,
        flush_batch-batch env dlq_env conf (batch ++ queue) r refl,
        w,
        failed-flush_batch (batch ++ queue) r (refuses (length p.writes)),
      )
