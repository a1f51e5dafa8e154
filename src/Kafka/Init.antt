-- ===== src/Kafka/Init.antt =====
-- `Init` and `Close` of reader_modules/mod_kafka/mod_kafka.go, and what they call: `LoadConfig`,
-- `LoadKafkaDataConfig` and `NewKafkaProducer`. What gcfg reads, whether the data file exists, and
-- whether the monitor handlers can be registered are arguments, as are the sizes for which `make`
-- makes a channel; it panics for others.
pub mod Outcomes
use Prim.Native.Char.{code}
use Prim.Native.String as S
use log_reader.Prelude.{
  ◌-◌, ◌%◌, ◌^◌, to_int64, ℕ, ◌+◌, ◌*◌, ◌≤◌, ◌<◌, String, Bool, true, false, List, [], ◌∷◌, Option,
  none, some, Result, ok, err, ◌≡◌, refl, ◌∙◌, sym, arith, ℤ, pos, negsuc, IsPositive, str_eq,
  if◌then◌else◌, if_elim, if_elim_eq, false≢true, subst, ◌==◌, map, split_by, in_first, length-map,
  length, ◌⊎◌, ◌↔◌, inl, inr,
}
use log_reader.Conf.Modules.{trim_space}
use log_reader.Fields.Registry.{FieldRegistry}
use log_reader.Kafka.Conf.{
  ConfKafka, ConfError, conf_mod_kafka_check, Verdict, conf_mod_kafka_check-Verdict,
}
use log_reader.Kafka.Fields.{ConfKafkaFields, OutputFields, resolve_fields, default_output_fields}
use log_reader.Kafka.Producer.{ProducerConf}

-- `ConfModKafka`.
pub record ConfModKafka : Type 0 where
  pub kafka : ConfKafka
  pub data_path : String
  pub open_debug : Bool

pub data Compression : Type 0 where
  uncompressed snappy gzip lz4 zstd : Compression

-- The settings of a kafka.Writer; those that the program does not set are left out.
pub record KafkaWriter : Type 0 where
  pub addr : List String
  pub topic : String
  pub batch_size : ℤ
  pub batch_timeout_ms : ℤ
  pub max_attempts : ℤ
  pub compression : Compression

-- `dlq_writer` has the addresses and the topic of the second writer.
pub record KafkaProducer : Type 0 where
  pub writer : KafkaWriter
  pub dlq_writer : Option (List String × String)
  pub msg_ch_size : ℤ

-- What `Init` sets and the other functions of the module use.
pub record ModuleKafka : Type 0 where
  pub producer : Option KafkaProducer
  pub output_fields : Option OutputFields

-- The file of the field selection.
pub data DataFile : Type 0 where
  missing unreadable : DataFile
  selection : ConfKafkaFields → DataFile

-- `channel_panics` is no error that `Init` returns: `make` in `NewKafkaProducer` panics.
pub data InitError : Type 0 where
  conf_unreadable data_missing data_unreadable channel_panics handlers_error : InitError
  conf_invalid : ConfError → InitError

abbrev pub compression_of : String → Compression
compression_of s =
    if str_eq s "snappy"
    then snappy
    else if str_eq s "gzip"
    then gzip
    else if str_eq s "lz4"
    then lz4
    else if str_eq s "zstd"
    then zstd
    else uncompressed

-- conf.Kafka.BatchSize*2, wrapped to 64 bits.
unfoldable pub twice : ℤ → ℤ
twice (pos n) = to_int64 ((n * 2) % 2 ^ 64)
twice (negsuc n) = to_int64 ((2 ^ 64 - ((n + 1) * 2) % 2 ^ 64) % 2 ^ 64)

-- strings.Split(conf.Kafka.Brokers, ","), each part without the spaces around it. A split has at
-- least one part, so the test of an empty list is left out.
unfoldable pub broker_list : String → List String
unfolding split_by
broker_list s = map trim_space (split_by 44 s)

-- What `NewKafkaProducer` makes.
unfoldable pub made_producer : ConfKafka → KafkaProducer
unfolding broker_list twice
made_producer c = record {
  writer = record {
    addr = broker_list c.brokers;
    topic = c.topic;
    batch_size = c.batch_size;
    batch_timeout_ms = c.linger_ms;
    max_attempts = c.max_retries;
    compression = compression_of c.compression;
  };
  dlq_writer =
      if str_eq c.dead_letter_topic ""
      then none
      else some (broker_list c.brokers, c.dead_letter_topic);
  msg_ch_size = twice c.batch_size;
}

-- `NewKafkaProducer`; `none` is that `make` panics.
unfoldable pub new_kafka_producer : (ℤ → Bool) → ConfKafka → Option KafkaProducer
unfolding made_producer twice
new_kafka_producer makes c = if makes (twice c.batch_size) then some (made_producer c) else none

abbrev pub checked : ConfModKafka → Result ConfError ConfKafka → Result InitError ConfModKafka
checked c (err e) = err (conf_invalid e)
checked c (ok k) = ok (record c { kafka = k })

-- `LoadConfig`, of what gcfg reads.
unfoldable pub load_config : Option ConfModKafka → Result InitError ConfModKafka
unfolding conf_mod_kafka_check
load_config none = err conf_unreadable
load_config (some c) = checked c (conf_mod_kafka_check c.kafka)

-- `LoadKafkaDataConfig`
abbrev pub load_kafka_data_config : DataFile → Result InitError ConfKafkaFields
load_kafka_data_config missing = err data_missing
load_kafka_data_config unreadable = err data_unreadable
load_kafka_data_config (selection c) = ok c

module _ (reg : FieldRegistry) (makes : ℤ → Bool) where
  -- `Init` once `NewKafkaProducer` has returned, or panicked.
  abbrev pub with_producer :
      Bool → OutputFields → Option KafkaProducer → ModuleKafka → Result InitError Unit × ModuleKafka
  with_producer handlers fields none m =
      (err channel_panics, record m { output_fields = some fields })
  with_producer handlers fields (some p) m = (
    if handlers then ok tt else err handlers_error,
    record m { producer = some p; output_fields = some fields },
  )

  -- `Init` from `NewKafkaProducer` on.
  abbrev pub open_producer :
      Bool → ConfModKafka → OutputFields → ModuleKafka → Result InitError Unit × ModuleKafka
  open_producer handlers c fields m =
      with_producer handlers fields (new_kafka_producer makes c.kafka) m

  abbrev pub with_data :
      Bool
      → ConfModKafka
      → Result InitError ConfKafkaFields
      → ModuleKafka
      → Result InitError Unit × ModuleKafka
  with_data handlers c (err e) m =
      (err e, record m { output_fields = some (default_output_fields reg) })
  with_data handlers c (ok d) m = open_producer handlers c (resolve_fields reg d) m

  abbrev pub with_conf :
      DataFile
      → Bool
      → Result InitError ConfModKafka
      → ModuleKafka
      → Result InitError Unit × ModuleKafka
  with_conf data_file handlers (err e) m = (err e, m)
  with_conf data_file handlers (ok c) m =
      if str_eq c.data_path ""
      then open_producer handlers c (default_output_fields reg) m
      else with_data handlers c (load_kafka_data_config data_file) m

  -- `Init`: its error, if any, and the module after it.
  unfoldable pub kafka_init :
      Option ConfModKafka → DataFile → Bool → ModuleKafka → Result InitError Unit × ModuleKafka
  unfolding load_config new_kafka_producer made_producer resolve_fields default_output_fields
  kafka_init read data_file handlers m = with_conf data_file handlers (load_config read) m
