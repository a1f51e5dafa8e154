-- ===== src/Kafka/Pipeline.antt =====
-- From the log file to the producer: the batches that `Start` gives to mod_kafka, each handled by its
-- own goroutine, with the goroutine of the producer beside them.
pub mod Conserved
use log_reader.Prelude.{
  ℕ, suc, ◌+◌, ◌≤◌, String, Bool, true, false, List, [], ◌∷◌, ◌++◌, append-nil, Option, none, some,
  ◌≡◌, refl, ap, sym, ◌∙◌, arith, if◌then◌else◌, length, concat, subst,
}
use log_reader.Fields.Log.{BfeLog}
use log_reader.Fields.Names.{contains, distinct}
use log_reader.Fields.Registry.{FieldRegistry}
use log_reader.Fields.Value.{Value}
use log_reader.Kafka.Fields.{OutputFields, convert_bfe_log_to_json}
use log_reader.Kafka.Producer.{Message, ProducerConf, Producer, send, send_message, step, run}
use log_reader.Kafka.Producer.Delivery.{all_messages, accepted_by, all_messages-step}
use log_reader.Kafka.Update.{
  ModuleKafka, new_module_kafka, Turn, close, receives, ticks, ends, event_of, send_converted,
  update_log, Accounted, turns-Accounted, update_log-Accounted,
}
use log_reader.Reader.Dispatch.{ModuleMap, module_names, calls_of}
use log_reader.Reader.Goroutines.{
  Turn as Interleaving, goroutines, goroutines-keeps, goroutines-adds, goroutines-bounds, holds,
  total, total-append, total-ones,
}
use log_reader.Reader.Parse.{Codec}
use log_reader.Reader.Start.{PbLogReader, Calls, start_loop}
use log_reader.Reader.Start.Counts.{log_run}
use log_reader.Reader.Start.Delivery.{start_loop-Delivers}
use log_reader.Reader.{Io}

module _ (marshal : List (String × Value) → Option String) (reg : FieldRegistry)
    (fields : OutputFields) where
  -- What a record counts for if it is a request: one number if it is not converted, another if it is.
  abbrev weigh : ℕ → (Message → ℕ) → Option String → ℕ
  weigh failed sent none = failed
  weigh failed sent (some msg) = sent msg

  abbrev weight : ℕ → (Message → ℕ) → BfeLog → ℕ
  weight failed sent log =
      if log.is_request
      then weigh failed sent (convert_bfe_log_to_json reg marshal log (some fields))
      else 0

  abbrev pub is_req : BfeLog → ℕ
  is_req = weight 1 (λ _. 1)

  abbrev pub is_failed : BfeLog → ℕ
  is_failed = weight 1 (λ _. 0)

  abbrev pub is_message : (Message → Bool) → BfeLog → ℕ
  is_message p = weight 0 (holds p)

module _ (marshal : List (String × Value) → Option String) (reg : FieldRegistry)
    (fields : OutputFields) (env : ℕ → Bool → Bool) (dlq_env : ℕ → Bool) (conf : ProducerConf) where
  -- What the goroutine of the producer, or `Close`, does between two turns.
  abbrev pub beside : Turn → ModuleKafka → ModuleKafka
  beside t m = record m { producer = step env dlq_env conf m.producer (event_of t) }

  abbrev pub one : BfeLog → ModuleKafka → ModuleKafka
  one = update_log marshal reg fields env dlq_env conf

  -- The calls of `Update` for some batches, after some turns: the records that are left to them, and
  -- the module.
  abbrev pub updates :
      List (Interleaving Turn) → List (List BfeLog) → List (List BfeLog) × ModuleKafka
  updates ts batches = goroutines one beside ts (batches, new_module_kafka)

  counted : ModuleKafka → ModuleKafka
  counted m = record m { received_logs = suc m.received_logs; received_req = suc m.received_req }

  -- To prove something of a record's turn: of a request, whatever it converts to, and of another record.
  one-elim :
      (P : ℕ → ModuleKafka → Type 0) (failed : ℕ) (sent : Message → ℕ) (log : BfeLog)
      (m : ModuleKafka)
      → ((o : Option String)
          → P
              (weigh marshal reg fields failed sent o)
              (send_converted marshal reg fields env dlq_env conf o (counted m)))
      → P 0 (record m { received_logs = suc m.received_logs })
      → P (weight marshal reg fields failed sent log) (one log m)
  unfolding update_log counted
  one-elim P failed sent log m request other =
      go log.is_request (convert_bfe_log_to_json reg marshal log (some fields))
    where
      go :
          (b : Bool) (o : Option String)
          → P (if b then weigh marshal reg fields failed sent o else 0) (
              if b
              then send_converted marshal reg fields env dlq_env conf o (counted m)
              else record m { received_logs = suc m.received_logs })
      go true o = request o
      go false o = other

  pub logs-one : (log : BfeLog) (m : ModuleKafka) → (one log m).received_logs ≡ m.received_logs + 1
  unfolding counted send_converted
  logs-one log m =
      one-elim (λ w m'. m'.received_logs ≡ m.received_logs + 1) 1 (λ _. 1) log m go (omega arith)
    where
      go :
          (o : Option String)
          → (send_converted marshal reg fields env dlq_env conf o (counted m)).received_logs
            ≡ m.received_logs + 1
      go none = omega arith
      go (some msg) = omega arith

  pub req-one :
      (log : BfeLog) (m : ModuleKafka)
      → (one log m).received_req ≡ m.received_req + is_req marshal reg fields log
  unfolding counted send_converted
  req-one log m =
      one-elim (λ w m'. m'.received_req ≡ m.received_req + w) 1 (λ _. 1) log m go (omega arith)
    where
      go :
          (o : Option String)
          → (send_converted marshal reg fields env dlq_env conf o (counted m)).received_req
            ≡ m.received_req + weigh marshal reg fields 1 (λ _. 1) o
      go none = omega arith
      go (some msg) = omega arith

  pub failed-one :
      (log : BfeLog) (m : ModuleKafka)
      → (one log m).convert_failed ≡ m.convert_failed + is_failed marshal reg fields log
  unfolding counted send_converted
  failed-one log m =
      one-elim (λ w m'. m'.convert_failed ≡ m.convert_failed + w) 1 (λ _. 0) log m go (omega arith)
    where
      go :
          (o : Option String)
          → (send_converted marshal reg fields env dlq_env conf o (counted m)).convert_failed
            ≡ m.convert_failed + weigh marshal reg fields 1 (λ _. 0) o
      go none = omega arith
      go (some msg) = omega arith

  module _ (p : Message → Bool) where
    -- The messages with the property in the producer.
    abbrev pub in_producer : ModuleKafka → ℕ
    in_producer m = total (holds p) (all_messages m.producer)

    in_producer-send :
        (msg : Message) (m : ModuleKafka)
        → total (holds p) (all_messages (send_message env dlq_env conf msg m.producer).1)
          ≤ in_producer m + holds p msg
    unfolding step
    in_producer-send msg m =
        rw
          (
            all_messages-step env dlq_env conf m.producer (send msg),
            total-append (holds p) (all_messages m.producer)
                (accepted_by env dlq_env conf (send msg) m.producer),
          )
          (taken (send_message env dlq_env conf msg m.producer).0)
      where
        taken :
            (b : Bool)
            → in_producer m + total (holds p) (if b then msg ∷ [] else [])
              ≤ in_producer m + holds p msg
        taken true = omega arith
        taken false = omega arith

    pub in_producer-one :
        (log : BfeLog) (m : ModuleKafka)
        → in_producer (one log m) ≤ in_producer m + is_message marshal reg fields p log
    unfolding counted send_converted
    in_producer-one log m =
        one-elim (λ w m'. in_producer m' ≤ in_producer m + w) 0 (holds p) log m go (omega arith)
      where
        go :
            (o : Option String)
            → in_producer (send_converted marshal reg fields env dlq_env conf o (counted m))
              ≤ in_producer m + weigh marshal reg fields 0 (holds p) o
        go none = omega arith
        go (some msg) = in_producer-send msg m

  pub all_messages-beside :
      (t : Turn) (m : ModuleKafka) → all_messages (beside t m).producer ≡ all_messages m.producer
  all_messages-beside close m =
      all_messages-step env dlq_env conf m.producer (event_of close) ∙ append-nil _
  all_messages-beside receives m =
      all_messages-step env dlq_env conf m.producer (event_of receives) ∙ append-nil _
  all_messages-beside ticks m =
      all_messages-step env dlq_env conf m.producer (event_of ticks) ∙ append-nil _
  all_messages-beside ends m =
      all_messages-step env dlq_env conf m.producer (event_of ends) ∙ append-nil _

  pub beside-Accounted :
      (t : Turn) (m : ModuleKafka)
      → Accounted marshal reg fields env dlq_env conf m
      → Accounted marshal reg fields env dlq_env conf (beside t m)
  unfolding run
  beside-Accounted t m a = turns-Accounted marshal reg fields env dlq_env conf (t ∷ []) m a
