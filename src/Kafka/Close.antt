-- ===== src/Kafka/Close.antt =====
-- `Close` of reader_modules/mod_kafka/mod_kafka.go and kafka_producer.go, for a module whose producer
-- was started: calls of `Send` and turns of the goroutine, then the cancelling of the context, more
-- calls and turns, and the case `ctx.Done()`, for which `wg.Wait` waits. The interval of the ticker is
-- taken to be positive: with another `time.NewTicker` panics, and the process ends without a `Close`.
pub mod Loses
pub mod Ends
pub mod Drained
use log_reader.Prelude.{ℕ, Bool, true, false, List, Option, none, some, ℤ, pos, negsuc}
use log_reader.Kafka.Producer.{ProducerConf, Producer, new_producer, Event, cancel, done, step, run}
use log_reader.Kafka.Init.{KafkaProducer, ModuleKafka}

-- A size that Go's `make` and the comparison with a length take: one that is not negative.
abbrev pub size_of : ℤ → ℕ
size_of (pos n) = n
size_of (negsuc n) = 0

abbrev pub is_some {ℓ} : {A : Type ℓ} → Option A → Bool
is_some none = false
is_some (some a) = true

-- What the goroutine uses of a producer that `NewKafkaProducer` has made.
abbrev pub conf_of : KafkaProducer → ProducerConf
conf_of k = record {
  queue_size = size_of k.msg_ch_size;
  batch_size = size_of k.writer.batch_size;
  has_dlq = is_some k.dlq_writer;
}

-- A module after its `Close`: the producer, if there is one, and whether `Close` was called on its
-- writers.
pub record ClosedKafka : Type 0 where
  pub producer : Option Producer
  pub writer_closed : Bool
  pub dlq_writer_closed : Bool

module _ (env : ℕ → Bool → Bool) (dlq_env : ℕ → Bool) where
  -- `KafkaProducer.Close`. The errors of the writers' `Close` are logged only.
  unfoldable pub close_producer : List Event → List Event → KafkaProducer → ClosedKafka
  unfolding run step
  close_producer es fs k =
      let conf : ProducerConf = conf_of k in
      let p : Producer = step env dlq_env conf (run env dlq_env conf new_producer es) cancel in
      record {
        producer = some (step env dlq_env conf (run env dlq_env conf p fs) done);
        writer_closed = true;
        dlq_writer_closed = is_some k.dlq_writer;
      }

  -- if m.producer != nil { return m.producer.Close() }
  abbrev pub close_found : List Event → List Event → Option KafkaProducer → ClosedKafka
  close_found es fs none = record {
    producer = none;
    writer_closed = false;
    dlq_writer_closed = false;
  }
  close_found es fs (some k) = close_producer es fs k

  -- `ModuleKafka.Close`
  unfoldable pub kafka_close : List Event → List Event → ModuleKafka → ClosedKafka
  unfolding close_producer
  kafka_close es fs m = close_found es fs m.producer
