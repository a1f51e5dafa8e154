-- ===== src/Kafka/Conf.antt =====
-- The settings of reader_modules/mod_kafka/conf_mod_kafka.go and their check.
use log_reader.Prelude.{
  String, true, false, ◌≡◌, refl, arith, Result, ok, err, str_eq, if◌then◌else◌, if_elim_eq, ℤ,
  default_to, IsPositive, default_to-IsPositive, default_to-default_to, List, [], ◌∷◌,
}
use log_reader.Fields.Names.{contains}

-- `ConfKafka`.
pub record ConfKafka : Type 0 where
  pub brokers : String
  pub topic : String
  pub dead_letter_topic : String
  pub compression : String
  pub batch_size : ℤ
  pub linger_ms : ℤ
  pub max_retries : ℤ

pub data ConfError : Type 0 where
  brokers_is_empty topic_is_empty compression_invalid : ConfError

abbrev pub compressions : List String
compressions = "" ∷ "none" ∷ "snappy" ∷ "gzip" ∷ "lz4" ∷ "zstd" ∷ []

-- The assignments of the default values.
unfoldable pub with_defaults : ConfKafka → ConfKafka
with_defaults c = record c {
  batch_size = default_to 1000 c.batch_size;
  linger_ms = default_to 100 c.linger_ms;
  max_retries = default_to 3 c.max_retries;
}

-- `ConfModKafkaCheck`: the settings after it, or why it fails.
unfoldable pub conf_mod_kafka_check : ConfKafka → Result ConfError ConfKafka
unfolding with_defaults
conf_mod_kafka_check c =
    if str_eq c.brokers ""
    then err brokers_is_empty
    else if str_eq c.topic ""
    then err topic_is_empty
    else if contains c.compression compressions
    then ok (with_defaults c)
    else err compression_invalid

-- What each outcome of the check says.
abbrev pub Verdict : ConfKafka → Result ConfError ConfKafka → Type 0
Verdict c (err brokers_is_empty) = str_eq c.brokers "" ≡ true
Verdict c (err topic_is_empty) = str_eq c.topic "" ≡ true
Verdict c (err compression_invalid) = contains c.compression compressions ≡ false
Verdict c (ok d) =
    IsPositive d.batch_size
    × IsPositive d.linger_ms
    × IsPositive d.max_retries
    × (conf_mod_kafka_check d ≡ ok d)

with_defaults-with_defaults : (c : ConfKafka) → with_defaults (with_defaults c) ≡ with_defaults c
unfolding with_defaults
with_defaults-with_defaults c =
    rw
      (
        default_to-default_to 1000 c.batch_size (omega arith),
        default_to-default_to 100 c.linger_ms (omega arith),
        default_to-default_to 3 c.max_retries (omega arith),
      )
      refl

-- For any settings: an error of the check says that there are no brokers, no topic, or a compression
-- that is none of the known ones; if the check succeeds, the batch size, the wait and the number of
-- attempts are then positive, and a second check of the result changes nothing.
pub conf_mod_kafka_check-Verdict : (c : ConfKafka) → Verdict c (conf_mod_kafka_check c)
unfolding conf_mod_kafka_check
conf_mod_kafka_check-Verdict c =
    if_elim_eq (Verdict c) (str_eq c.brokers "") _ _ (λ e. e)
      (λ b.
        if_elim_eq (Verdict c) (str_eq c.topic "") _ _ (λ e. e)
          (λ t.
            if_elim_eq (Verdict c) (contains c.compression compressions) _ _ (λ k. checked b t k)
              (λ e. e)))
  where
    checked :
        str_eq c.brokers "" ≡ false
        → str_eq c.topic "" ≡ false
        → contains c.compression compressions ≡ true
        → Verdict c (ok (with_defaults c))
    checked b t k = (
      default_to-IsPositive 1000 c.batch_size (omega arith),
      default_to-IsPositive 100 c.linger_ms (omega arith),
      default_to-IsPositive 3 c.max_retries (omega arith),
      rw (b, t, k, with_defaults-with_defaults c) refl,
    )
