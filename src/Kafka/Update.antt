-- ===== src/Kafka/Update.antt =====
-- `ModuleKafka.Update` of reader_modules/mod_kafka/mod_kafka.go, while the goroutine of the producer
-- runs beside it.
use log_reader.Prelude.{
  ℕ, suc, ◌+◌, ◌≤◌, String, Bool, true, List, [], ◌∷◌, ◌++◌, append-nil, append_assoc, Option, none,
  some, ◌≡◌, refl, ◌∙◌, arith, if◌then◌else◌, if_elim, length, length-append, ltb, map,
}
use log_reader.Fields.Log.{BfeLog}
use log_reader.Fields.Value.{Value}
use log_reader.Fields.Registry.{FieldRegistry}
use log_reader.Kafka.Fields.{OutputFields, convert_bfe_log_to_json}
use log_reader.Kafka.Producer.{
  Message, ProducerConf, Producer, new_producer, Event, cancel, receive, tick, done, send_message,
  react, step, run,
}
use log_reader.Kafka.Producer.Delivery.{all_messages, accepted, all_messages-run, full-react}

-- The producer and the counters that `Update` increments.
pub record ModuleKafka : Type 0 where
  pub producer : Producer
  pub received_logs : ℕ
  pub received_req : ℕ
  pub sent_to_kafka : ℕ
  pub convert_failed : ℕ

abbrev pub new_module_kafka : ModuleKafka
new_module_kafka = record {
  producer = new_producer;
  received_logs = 0;
  received_req = 0;
  sent_to_kafka = 0;
  convert_failed = 0;
}

-- What may happen to the producer between two calls of `Send`.
pub data Turn : Type 0 where
  close receives ticks ends : Turn

abbrev pub event_of : Turn → Event
event_of close = cancel
event_of receives = receive
event_of ticks = tick
event_of ends = done

module _ (marshal : List (String × Value) → Option String) (reg : FieldRegistry)
    (fields : OutputFields) (env : ℕ → Bool → Bool) (dlq_env : ℕ → Bool) (conf : ProducerConf) where
  -- The end of a turn of the loop: a failed conversion is counted, a message is sent and counted.
  unfoldable pub send_converted : Option String → ModuleKafka → ModuleKafka
  unfolding send_message
  send_converted none m = record m { convert_failed = suc m.convert_failed }
  send_converted (some msg) m = record m {
    producer = (send_message env dlq_env conf msg m.producer).1;
    sent_to_kafka = suc m.sent_to_kafka;
  }

  unfoldable pub update_log : BfeLog → ModuleKafka → ModuleKafka
  unfolding send_converted convert_bfe_log_to_json
  update_log log m =
      if log.is_request
      then send_converted (convert_bfe_log_to_json reg marshal log (some fields))
          (record m { received_logs = suc m.received_logs; received_req = suc m.received_req })
      else record m { received_logs = suc m.received_logs }

  -- `Update`: before each record, what happens to the producer meanwhile.
  unfoldable pub update : List (List Turn × BfeLog) → ModuleKafka → ModuleKafka
  unfolding update_log run
  update [] m = m
  update ((turns, log) ∷ logs) m = update logs (
      update_log log (record m { producer = run env dlq_env conf m.producer (map event_of turns) }))

  -- What the counters mean for the messages in the producer.
  abbrev pub Accounted : ModuleKafka → Type 0
  Accounted m =
      (m.received_req ≡ m.sent_to_kafka + m.convert_failed)
      × (m.received_req ≤ m.received_logs)
      × (m.sent_to_kafka ≡ length (all_messages m.producer) + m.producer.sent_kafka_chn_full)

  kept :
      (e : Event) (p : Producer)
      → (if p.ended then p else react env dlq_env conf e p).sent_kafka_chn_full
        ≡ p.sent_kafka_chn_full
  kept e p =
      if_elim (λ (q : Producer). q.sent_kafka_chn_full ≡ p.sent_kafka_chn_full) p.ended _ _ refl
        (full-react env dlq_env conf e p)

  turns-accepted :
      (ts : List Turn) (p : Producer) → accepted env dlq_env conf p (map event_of ts) ≡ []
  turns-accepted [] p = refl
  turns-accepted (close ∷ ts) p = turns-accepted ts (step env dlq_env conf p cancel)
  turns-accepted (receives ∷ ts) p = turns-accepted ts (step env dlq_env conf p receive)
  turns-accepted (ticks ∷ ts) p = turns-accepted ts (step env dlq_env conf p tick)
  turns-accepted (ends ∷ ts) p = turns-accepted ts (step env dlq_env conf p done)

  full-turns :
      (ts : List Turn) (p : Producer)
      → (run env dlq_env conf p (map event_of ts)).sent_kafka_chn_full ≡ p.sent_kafka_chn_full
  unfolding run step
  full-turns [] p = refl
  full-turns (close ∷ ts) p = full-turns ts (record p { cancelled = true })
  full-turns (receives ∷ ts) p = full-turns ts _ ∙ kept receive p
  full-turns (ticks ∷ ts) p = full-turns ts _ ∙ kept tick p
  full-turns (ends ∷ ts) p = full-turns ts _ ∙ kept done p

  -- A message is in the producer or counted as dropped.
  sent-one :
      (msg : Message) (p : Producer)
      → length (all_messages (send_message env dlq_env conf msg p).1)
          + (send_message env dlq_env conf msg p).1.sent_kafka_chn_full
        ≡ suc (length (all_messages p) + p.sent_kafka_chn_full)
  unfolding send_message
  sent-one msg p =
      if_elim
        (λ (r : Bool × Producer).
          length (all_messages r.1) + r.1.sent_kafka_chn_full
          ≡ suc (length (all_messages p) + p.sent_kafka_chn_full))
        (ltb (length p.queue) conf.queue_size) (true, record p { queue = p.queue ++ (msg ∷ []) }) _
        (rw queued (omega (arith, length-append (all_messages p) (msg ∷ [])))) (omega arith)
    where
      queued :
          all_messages (record p { queue = p.queue ++ (msg ∷ []) }) ≡ all_messages p ++ (msg ∷ [])
      queued = simp append_assoc

  send_converted-Accounted :
      (o : Option String) (m : ModuleKafka)
      → Accounted m
      → Accounted (
          send_converted o
            (record m { received_logs = suc m.received_logs; received_req = suc m.received_req }))
  unfolding send_converted send_message
  send_converted-Accounted none m (r, l, s) = (omega (arith, r), omega (arith, l), s)
  send_converted-Accounted (some msg) m (r, l, s) =
      (omega (arith, r), omega (arith, l), omega (arith, s, sent-one msg m.producer))

  pub turns-Accounted :
      (ts : List Turn) (m : ModuleKafka)
      → Accounted m
      → Accounted (record m { producer = run env dlq_env conf m.producer (map event_of ts) })
  turns-Accounted ts m (r, l, s) = (
    r,
    l,
    rw
        (
          all_messages-run env dlq_env conf m.producer (map event_of ts),
          turns-accepted ts m.producer,
          append-nil,
          full-turns ts m.producer,
        )
        s,
  )

  pub update_log-Accounted :
      (log : BfeLog) (m : ModuleKafka) → Accounted m → Accounted (update_log log m)
  unfolding update_log
  update_log-Accounted log m a =
      if_elim Accounted log.is_request _ _
        (send_converted-Accounted (convert_bfe_log_to_json reg marshal log (some fields)) m a)
        (a.0, omega (arith, a.1), a.2)

  update-Accounted :
      (logs : List (List Turn × BfeLog)) (m : ModuleKafka) → Accounted m → Accounted (update logs m)
  unfolding update
  update-Accounted [] m a = a
  update-Accounted ((ts, log) ∷ logs) m a =
      update-Accounted logs _ (update_log-Accounted log _ (turns-Accounted ts m a))

  -- However the goroutine of the producer takes its turns between the records of any calls of
  -- `Update`, and whatever the writers answer: RECEIVED_REQ is SENT_TO_KAFKA plus CONVERT_FAILED, and
  -- at most RECEIVED_LOGS; SENT_TO_KAFKA is the number of messages in the channel, in the batch and
  -- in the calls of `WriteMessages`, plus SENT_KAFKA_CHN_FULL: it counts dropped messages too.
  pub update-new_module_kafka-Accounted :
      (logs : List (List Turn × BfeLog)) → Accounted (update logs new_module_kafka)
  update-new_module_kafka-Accounted logs =
      update-Accounted logs new_module_kafka (omega arith, omega arith, omega arith)
