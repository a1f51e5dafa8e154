-- ===== src/Kafka/Init/Outcomes.antt =====
-- What each outcome of `Init` of mod_kafka says.
use Prim.Native.Char.{code}
use Prim.Native.String as S
use log_reader.Prelude.{
  ℕ, ◌<◌, String, Bool, true, false, List, [], ◌∷◌, Option, none, some, Result, ok, err, ◌≡◌, refl,
  ◌∙◌, ◌*◌, ◌^◌, ◌≤◌, ℤ, pos, negsuc, ltb, ltb→lt, lt→ltb, ◌%◌, Bool-cases, sym, arith, IsPositive,
  str_eq, if_elim, if_elim_eq, false≢true, subst, ◌==◌, split_by, in_first, length-map, length, ◌⊎◌,
  ◌↔◌, inl, inr,
}
use log_reader.Conf.Modules.{trim_space}
use log_reader.Fields.Registry.{FieldRegistry}
use log_reader.Kafka.Conf.{
  ConfKafka, ConfError, conf_mod_kafka_check, Verdict, conf_mod_kafka_check-Verdict,
}
use log_reader.Kafka.Fields.{ConfKafkaFields, OutputFields, resolve_fields, default_output_fields}
use log_reader.Kafka.Init.{
  ConfModKafka, KafkaProducer, ModuleKafka, DataFile, missing, unreadable, selection, InitError,
  conf_unreadable, data_missing, data_unreadable, channel_panics, handlers_error, conf_invalid,
  twice, broker_list, made_producer, new_kafka_producer, with_producer, checked, load_config,
  load_kafka_data_config, open_producer, with_data, with_conf, kafka_init,
}

-- The size of a channel for two batches; the product of a huge batch size wraps.
abbrev pub HasRoom : ℤ → ℤ → Type 0
HasRoom size (pos n) = (size ≡ pos (n * 2)) ⊎ (2 ^ 62 ≤ n)
HasRoom size (negsuc n) = Unit

twice-HasRoom : (n : ℤ) → HasRoom (twice n) n
unfolding twice
twice-HasRoom (pos n) = elim (Bool-cases (ltb n (2 ^ 62))) [
  | inl e ↦
      let h : n < 2 ^ 62 = ltb→lt n (2 ^ 62) e in
      let same : (n * 2) % 2 ^ 64 ≡ n * 2 = omega arith in
      let fits : ltb (n * 2) (2 ^ 63) ≡ true = lt→ltb (n * 2) (2 ^ 63) (omega arith) in
      inl (rw (same, fits) refl)
  | inr e ↦ inr (ground arith)
]
twice-HasRoom (negsuc n) = tt

module _ (reg : FieldRegistry) (makes : ℤ → Bool) where
  -- Which fields the module writes.
  abbrev FieldsOf : ConfModKafka → DataFile → OutputFields → Type 0
  FieldsOf c data_file fields =
      ((str_eq c.data_path "" ≡ true) × (fields ≡ default_output_fields reg))
      ⊎ ((d : ConfKafkaFields) × (str_eq c.data_path "" ≡ false)
          × (data_file ≡ selection d)
          × (fields ≡ resolve_fields reg d))

  -- A producer that was opened for checked settings.
  abbrev Opened : ConfKafka → KafkaProducer → Type 0
  Opened k p =
      (0 < length p.writer.addr)
      × (p.writer.topic ≡ k.topic)
      × IsPositive p.writer.batch_size
      × (p.msg_ch_size ≡ twice p.writer.batch_size)
      × (makes p.msg_ch_size ≡ true)
      × HasRoom p.msg_ch_size p.writer.batch_size
      × ((p.dlq_writer ≡ none) ↔ (str_eq k.dead_letter_topic "" ≡ true))

  -- What each outcome of `Init` says.
  abbrev pub InitVerdict :
      Option ConfModKafka
      → DataFile
      → Bool
      → ModuleKafka
      → Result InitError Unit
      → ModuleKafka
      → Type 0
  InitVerdict read data_file handlers m (err conf_unreadable) m' = (read ≡ none) × (m' ≡ m)
  InitVerdict read data_file handlers m (err (conf_invalid e)) m' =
      (c : ConfModKafka) × (read ≡ some c) × Verdict c.kafka (err e) × (m' ≡ m)
  InitVerdict read data_file handlers m (err data_missing) m' =
      (data_file ≡ missing) × (m'.producer ≡ m.producer)
  InitVerdict read data_file handlers m (err data_unreadable) m' =
      (data_file ≡ unreadable) × (m'.producer ≡ m.producer)
  InitVerdict read data_file handlers m (err channel_panics) m' =
      (c : ConfModKafka) × (k : ConfKafka) × (read ≡ some c)
      × (conf_mod_kafka_check c.kafka ≡ ok k)
      × (makes (twice k.batch_size) ≡ false)
      × (m'.producer ≡ m.producer)
  InitVerdict read data_file handlers m (err handlers_error) m' = handlers ≡ false
  InitVerdict read data_file handlers m (ok u) m' =
      (c : ConfModKafka) × (k : ConfKafka) × (p : KafkaProducer) × (fields : OutputFields) × (read
        ≡ some c)
      × (conf_mod_kafka_check c.kafka ≡ ok k)
      × (m'.producer ≡ some p)
      × Opened k p
      × (m'.output_fields ≡ some fields)
      × FieldsOf c data_file fields

  parts_some : (sep : ℕ) (s : String) → 0 < length (split_by sep s)
  unfolding split_by
  parts_some sep S.[] = omega arith
  parts_some sep (S.◌∷◌ c s) =
      if_elim (λ ws. 0 < length ws) (code c == sep) ("" ∷ split_by sep s)
        (in_first c (split_by sep s)) (omega arith) (in_first_some (split_by sep s))
    where
      in_first_some : (ws : List String) → 0 < length (in_first c ws)
      in_first_some [] = omega arith
      in_first_some (w ∷ ws) = omega arith

  made_producer-Opened :
      (c : ConfModKafka) (k : ConfKafka)
      → conf_mod_kafka_check c.kafka ≡ ok k
      → makes (twice k.batch_size) ≡ true
      → Opened k (made_producer k)
  unfolding made_producer broker_list
  made_producer-Opened c k e fits =
      let v : Verdict c.kafka (ok k) =
        subst (Verdict c.kafka) e (conf_mod_kafka_check-Verdict c.kafka) in
      (
        omega (arith, length-map (split_by 44 k.brokers) trim_space, parts_some 44 k.brokers),
        refl,
        v.0,
        refl,
        fits,
        twice-HasRoom k.batch_size,
        if_elim_eq
            (λ (o : Option (List String × String)).
              (o ≡ none) ↔ (str_eq k.dead_letter_topic "" ≡ true))
            (str_eq k.dead_letter_topic "") none (some (broker_list k.brokers, k.dead_letter_topic))
            (λ t. (λ n. t, λ x. refl)) (λ f. (λ n. cc, λ t. absurd (false≢true (sym f ∙ t)))),
      )

  open_producer-InitVerdict :
      (c : ConfModKafka) (k : ConfKafka) (data_file : DataFile) (handlers : Bool)
      (fields : OutputFields) (m : ModuleKafka)
      → conf_mod_kafka_check c.kafka ≡ ok k
      → FieldsOf c data_file fields
      → let r : Result InitError Unit × ModuleKafka =
          open_producer reg makes handlers (record c { kafka = k }) fields m in
        InitVerdict (some c) data_file handlers m r.0 r.1
  unfolding new_kafka_producer
  open_producer-InitVerdict c k data_file handlers fields m e f =
      if_elim_eq
        (λ (o : Option KafkaProducer).
          let r : Result InitError Unit × ModuleKafka =
            with_producer reg makes handlers fields o m in
          InitVerdict (some c) data_file handlers m r.0 r.1)
        (makes (twice k.batch_size)) (some (made_producer k)) none (λ fits. answered fits handlers)
        (λ panics. (c, k, refl, e, panics, refl))
    where
      answered :
          makes (twice k.batch_size) ≡ true
          → (b : Bool)
          → let r : Result InitError Unit × ModuleKafka =
              with_producer reg makes b fields (some (made_producer k)) m in
            InitVerdict (some c) data_file b m r.0 r.1
      answered fits true =
          (c, k, made_producer k, fields, refl, e, refl, made_producer-Opened c k e fits, refl, f)
      answered fits false = refl

  with_data-InitVerdict :
      (c : ConfModKafka) (k : ConfKafka) (data_file : DataFile) (handlers : Bool) (m : ModuleKafka)
      → conf_mod_kafka_check c.kafka ≡ ok k
      → str_eq c.data_path "" ≡ false
      → let r : Result InitError Unit × ModuleKafka =
          with_data reg makes handlers
            (record c { kafka = k })
            (load_kafka_data_config data_file)
            m in
        InitVerdict (some c) data_file handlers m r.0 r.1
  with_data-InitVerdict c k missing handlers m e p = (refl, refl)
  with_data-InitVerdict c k unreadable handlers m e p = (refl, refl)
  with_data-InitVerdict c k (selection d) handlers m e p =
      open_producer-InitVerdict c k (selection d) handlers (resolve_fields reg d) m e
        (inr (d, p, refl, refl))

  -- For any answers and any module before: an outcome of `Init` other than success says which of
  -- its steps failed, and the module has no new producer unless it was the last, the monitor
  -- handlers; this includes a data file that is named and does not exist. If there is no error: the
  -- settings pass their check, the producer has at least one address, the topic, a positive batch
  -- size, a channel for two batches (for a batch size of 2 ^ 62 or more, one of the size that is
  -- left when the product wraps to 64 bits), and a writer of dead letters if and only if their
  -- topic is set; the fields to write are those that the data file selects, or the default ones if
  -- none is named.
  pub kafka_init-InitVerdict :
      (read : Option ConfModKafka) (data_file : DataFile) (handlers : Bool) (m : ModuleKafka)
      → let r : Result InitError Unit × ModuleKafka =
          kafka_init reg makes read data_file handlers m in
        InitVerdict read data_file handlers m r.0 r.1
  unfolding kafka_init load_config
  kafka_init-InitVerdict none data_file handlers m = (refl, refl)
  kafka_init-InitVerdict (some c) data_file handlers m = go (conf_mod_kafka_check c.kafka) refl
    where
      go :
          (v : Result ConfError ConfKafka)
          → conf_mod_kafka_check c.kafka ≡ v
          → let r : Result InitError Unit × ModuleKafka =
              with_conf reg makes data_file handlers (checked c v) m in
            InitVerdict (some c) data_file handlers m r.0 r.1
      go (err e) v =
          (c, refl, subst (Verdict c.kafka) v (conf_mod_kafka_check-Verdict c.kafka), refl)
      go (ok k) v =
          if_elim_eq
            (λ (r : Result InitError Unit × ModuleKafka).
              InitVerdict (some c) data_file handlers m r.0 r.1)
            (str_eq c.data_path "") _ _
            (λ t.
              open_producer-InitVerdict c k data_file handlers (default_output_fields reg) m v
                (inl (t, refl)))
            (λ f. with_data-InitVerdict c k data_file handlers m v f)
