-- ===== src/Kafka/Producer.antt =====
-- `KafkaProducer` of reader_modules/mod_kafka/kafka_producer.go: the channel `msgCh`, the goroutine
-- `sendLoop` as a step for each case that its `select` may take, and the dead letter queue.
-- kafka.Writer is not part of the repository: `env n cancelled` says whether the n-th call of
-- `WriteMessages` succeeds, given whether its context is cancelled, and `dlq_env` the same for the
-- writer of the dead letter topic, whose context never is.
pub mod Delivery
pub mod Accounts
pub mod Shutdown
use log_reader.Prelude.{
  ℕ, suc, ◌+◌, String, Bool, true, false, not, List, [], ◌∷◌, ◌++◌, ltb, leb, if◌then◌else◌, length,
}

abbrev pub Message : Type 0
Message = String

-- `queue_size` is the capacity of `msgCh`, `conf.Kafka.BatchSize*2`; `has_dlq` is `dlqWriter != nil`.
pub record ProducerConf : Type 0 where
  pub queue_size : ℕ
  pub batch_size : ℕ
  pub has_dlq : Bool

-- `cancelled` is whether `kp.ctx` is, `ended` whether the goroutine has returned. `writes` and
-- `dlq_writes` list the calls of `WriteMessages` on the two writers with their outcomes. The rest are
-- the sums of the increments of four counters.
pub record Producer : Type 0 where
  pub queue : List Message
  pub batch : List Message
  pub cancelled : Bool
  pub ended : Bool
  pub writes : List (List Message × Bool)
  pub dlq_writes : List (List Message × Bool)
  pub send_kafka_failed : ℕ
  pub dlq_sent : ℕ
  pub dlq_sent_failed : ℕ
  pub sent_kafka_chn_full : ℕ

abbrev pub new_producer : Producer
new_producer = record {
  queue = [];
  batch = [];
  cancelled = false;
  ended = false;
  writes = [];
  dlq_writes = [];
  send_kafka_failed = 0;
  dlq_sent = 0;
  dlq_sent_failed = 0;
  sent_kafka_chn_full = 0;
}

-- `send` is a call of `Send` and `cancel` the first half of `Close`; the others are the cases of the
-- `select`: a message, the ticker, and `ctx.Done()`.
pub data Event : Type 0 where
  send : Message → Event
  cancel receive tick done : Event

module _ (env : ℕ → Bool → Bool) (dlq_env : ℕ → Bool) (conf : ProducerConf) where
  unfoldable pub write_to_dlq : List Message → Producer → Producer
  write_to_dlq messages p =
      let sent : Bool = dlq_env (length p.dlq_writes) in
      if conf.has_dlq
      then record p {
        dlq_writes = p.dlq_writes ++ ((messages, sent) ∷ []);
        dlq_sent = suc p.dlq_sent;
        dlq_sent_failed = if sent then p.dlq_sent_failed else suc p.dlq_sent_failed;
      }
      else p

  -- What `flush` does with the outcome of `WriteMessages`.
  unfoldable pub after_write : Bool → List Message → Producer → Producer
  unfolding write_to_dlq
  after_write true messages p = record p { writes = p.writes ++ ((messages, true) ∷ []) }
  after_write false messages p = write_to_dlq messages (record p {
    writes = p.writes ++ ((messages, false) ∷ []);
    send_kafka_failed = p.send_kafka_failed + length messages;
  })

  unfoldable pub flush_batch : List Message → Producer → Producer
  unfolding after_write
  flush_batch [] p = p
  flush_batch (m ∷ ms) p = record (after_write (env (length p.writes) p.cancelled) (m ∷ ms) p) {
    batch = [];
  }

  unfoldable pub flush : Producer → Producer
  unfolding flush_batch
  flush p = flush_batch p.batch p

  -- A message from the channel: append it, and flush a full batch.
  unfoldable pub take_message : List Message → Producer → Producer
  unfolding flush
  take_message [] p = p
  take_message (m ∷ rest) p =
      let p' : Producer = record p { queue = rest; batch = p.batch ++ (m ∷ []) } in
      if leb conf.batch_size (length p'.batch) then flush p' else p'

  -- The case `<-kp.ctx.Done()`: append what is in the channel, flush, and return.
  unfoldable pub drain : Producer → Producer
  unfolding flush
  drain p = record (flush (record p { queue = []; batch = p.batch ++ p.queue })) { ended = true }

  -- The select of a goroutine that runs. `receive` is taken only if the channel holds a message, and
  -- `done` only if the context is cancelled.
  unfoldable pub react : Event → Producer → Producer
  unfolding take_message drain
  react receive p = take_message p.queue p
  react tick p = flush p
  react done p = if p.cancelled then drain p else p
  react _ p = p

  -- `Send`: whether the message went into the channel, and the producer after.
  unfoldable pub send_message : Message → Producer → Bool × Producer
  send_message m p =
      if ltb (length p.queue) conf.queue_size
      then (true, record p { queue = p.queue ++ (m ∷ []) })
      else (false, record p { sent_kafka_chn_full = suc p.sent_kafka_chn_full })

  unfoldable pub step : Producer → Event → Producer
  unfolding react send_message
  step p (send m) = (send_message m p).1
  step p cancel = record p { cancelled = true }
  step p receive = if p.ended then p else react receive p
  step p tick = if p.ended then p else react tick p
  step p done = if p.ended then p else react done p

  unfoldable pub run : Producer → List Event → Producer
  unfolding step
  run p [] = p
  run p (e ∷ es) = run (step p e) es
