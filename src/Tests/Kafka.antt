-- ===== src/Tests/Kafka.antt =====
-- The theorems on reader_modules/mod_kafka at concrete messages and answers of the writers.
use log_reader.Prelude.{
  ℕ, String, Bool, true, false, ◌||◌, ◌≡◌, refl, List, [], ◌∷◌, ◌++◌, Option, none, some, lookup, ℤ,
  negsuc, if◌then◌else◌, ltb, pos, ok,
}
use log_reader.Fields.Log.{BfeLog}
use log_reader.Fields.Value.{Value}
use log_reader.Fields.Registry.{FieldRegistry, register_all_fields, required_fields, extract}
use log_reader.Fields.Names.{contains}
use log_reader.Kafka.Fields.{ConfKafkaFields, resolve_fields, object_of}
use log_reader.Kafka.Fields.Chosen.{
  in_set, by_mode, resolve_fields-by_mode, object_of-resolve_fields,
}
use log_reader.Kafka.Init.{
  ConfModKafka, KafkaProducer, ModuleKafka, missing, twice, kafka_init, broker_list,
}
use log_reader.Kafka.Close.{conf_of, is_some, kafka_close}
use log_reader.Kafka.Close.Drained.{IsDrained, kafka_close-IsDrained}
use log_reader.Kafka.Init.Outcomes.{InitVerdict, kafka_init-InitVerdict}
use log_reader.Kafka.Producer.{
  ProducerConf, Producer, new_producer, Event, send, cancel, receive, tick, done, step, run,
}
use log_reader.Kafka.Producer.Delivery.{all_messages, accepted, all_messages-run, messages_of}
use log_reader.Kafka.Producer.Accounts.{Accounts, run-new_producer-Accounts}
use log_reader.Kafka.Producer.Shutdown.{at_close, done-drains}
use log_reader.Kafka.Update.{
  Turn, receives, ticks, Accounted, update, new_module_kafka, update-new_module_kafka-Accounted,
}
use log_reader.Tests.Samples.{sample_log, session_log}

-- Channels of two messages, batches of two.
abbrev conf : ProducerConf
conf = record { queue_size = 2; batch_size = 2; has_dlq = true }

-- The first write fails, and every write of a cancelled context.
abbrev env : ℕ → Bool → Bool
env n true = false
env n false = ltb 0 n

abbrev dlq_env : ℕ → Bool
dlq_env n = true

abbrev events : List Event
events = send "a" ∷ receive ∷ tick ∷ send "b" ∷ send "c" ∷ send "d" ∷ receive ∷ cancel ∷ done ∷ []

all_messages-run_example :
    all_messages (run env dlq_env conf new_producer events)
    ≡ all_messages new_producer ++ accepted env dlq_env conf new_producer events
all_messages-run_example = all_messages-run env dlq_env conf new_producer events

run-new_producer-Accounts_example : Accounts conf (run env dlq_env conf new_producer events)
run-new_producer-Accounts_example = run-new_producer-Accounts env dlq_env conf events

refuses : (n : ℕ) → env n true ≡ false
refuses n = refl

abbrev closing : Producer
closing = step env dlq_env conf (at_close ("a" ∷ []) ("b" ∷ []) new_producer) done

done-drains_test :
    (closing.ended ≡ true)
    × (closing.queue ≡ [])
    × (closing.batch ≡ [])
    × (messages_of closing.writes ≡ "a" ∷ "b" ∷ [])
    × (closing.send_kafka_failed ≡ 2)
done-drains_test = done-drains env dlq_env conf ("a" ∷ []) ("b" ∷ []) new_producer refuses

abbrev reg : FieldRegistry
reg = register_all_fields "h1"

abbrev customized : ConfKafkaFields
customized = record { field_mode = "customized"; field_names = "cookie" ∷ "nosuch" ∷ [] }

resolve_fields-by_mode_example :
    in_set "cookie" (resolve_fields reg customized)
    ≡ (contains "cookie" (required_fields reg) || by_mode reg customized "cookie")
resolve_fields-by_mode_example = resolve_fields-by_mode reg customized "cookie"

object_of-resolve_fields_example :
    lookup "method" (object_of reg sample_log (resolve_fields reg customized)) ≡ (
      if contains "method" (required_fields reg) || by_mode reg customized "method"
      then some (extract reg "method" sample_log).0
      else none)
object_of-resolve_fields_example = object_of-resolve_fields reg customized sample_log "method"

abbrev marshal : List (String × Value) → Option String
marshal o = some "{}"

abbrev logs : List (List Turn × BfeLog)
logs = ([], sample_log) ∷ (receives ∷ [], session_log) ∷ (ticks ∷ [], sample_log) ∷ []

update-new_module_kafka-Accounted_test :
    Accounted marshal reg [] env dlq_env conf
      (update marshal reg [] env dlq_env conf logs new_module_kafka)
update-new_module_kafka-Accounted_test =
    update-new_module_kafka-Accounted marshal reg [] env dlq_env conf logs

-- Settings that pass their check, with two brokers, and a data file that does not exist.
abbrev module_conf : ConfModKafka
module_conf = record {
  kafka = record {
    brokers = "b1:9092, b2:9092";
    topic = "t";
    dead_letter_topic = "dead";
    compression = "lz4";
    batch_size = pos 0;
    linger_ms = pos 0;
    max_retries = pos 0;
  };
  data_path = "kafka_config.data";
  open_debug = false;
}

abbrev idle : ModuleKafka
idle = record { producer = none; output_fields = none }

-- Go makes channels of any size that is not negative, as far as the memory goes.
abbrev any_size : ℤ → Bool
any_size (pos n) = true
any_size (negsuc n) = false

kafka_init-InitVerdict_example :
    InitVerdict reg any_size
      (some module_conf)
      missing
      true
      idle
      (kafka_init reg any_size (some module_conf) missing true idle).0
      (kafka_init reg any_size (some module_conf) missing true idle).1
kafka_init-InitVerdict_example =
    kafka_init-InitVerdict reg any_size (some module_conf) missing true idle

broker_list_test : broker_list "b1:9092, b2:9092" ≡ "b1:9092" ∷ "b2:9092" ∷ []
unfolding broker_list
broker_list_test = refl

-- The longest channel of two batches, and the next size.
twice_test :
    (twice (pos 4611686018427387903) ≡ pos 9223372036854775806)
    × (twice (pos 4611686018427387904) ≡ negsuc 9223372036854775807)
unfolding twice
twice_test = (refl, refl)

-- The default fields, and a batch of two.
abbrev small_conf : ConfModKafka
small_conf = record module_conf {
  kafka = record module_conf.kafka { batch_size = pos 2 };
  data_path = "";
}

abbrev made : ModuleKafka
made = (kafka_init reg any_size (some small_conf) missing true idle).1

made_lem : kafka_init reg any_size (some small_conf) missing true idle ≡ (ok tt, made)
unfolding kafka_init
made_lem = refl

-- One message is written before the context is cancelled, and one arrives between that and the end.
kafka_close-IsDrained_example :
    (k : KafkaProducer) × (q : Producer) × (made.producer ≡ some k)
    × (kafka_close env dlq_env (send "a" ∷ receive ∷ tick ∷ send "b" ∷ []) (send "c" ∷ []) made
        ≡ record {
          producer = some q;
          writer_closed = true;
          dlq_writer_closed = is_some k.dlq_writer;
        })
    × IsDrained env dlq_env
        (conf_of k)
        (send "a" ∷ receive ∷ tick ∷ send "b" ∷ [])
        (send "c" ∷ [])
        q
kafka_close-IsDrained_example =
    kafka_close-IsDrained env dlq_env refuses reg any_size (some small_conf) missing true idle made
      (send "a" ∷ receive ∷ tick ∷ send "b" ∷ []) (send "c" ∷ []) made_lem
      (refl, (refl, (refl, (refl, tt)))) (refl, tt)
