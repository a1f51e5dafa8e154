-- ===== src/Kafka/Close/Drained.antt =====
-- What `Close` of mod_kafka leaves of the messages in its producer.
use log_reader.Prelude.{
  ℕ, ◌+◌, Bool, true, false, List, [], ◌++◌, append-nil, Option, some, Result, ok, ◌≡◌, refl, sym,
  ap, ◌∙◌, subst, arith, ℤ, length, length-append, All,
}
use log_reader.Fields.Registry.{FieldRegistry}
use log_reader.Kafka.Producer.{
  Message, ProducerConf, Producer, new_producer, Event, cancel, done, step, run,
}
use log_reader.Kafka.Producer.Delivery.{
  messages_of, all_messages, accepted, all_messages-run, all_messages-step,
}
use log_reader.Kafka.Init.{
  ConfModKafka, KafkaProducer, ModuleKafka, DataFile, InitError, kafka_init,
}
use log_reader.Kafka.Init.Outcomes.{InitVerdict, kafka_init-InitVerdict}
use log_reader.Kafka.Close.{conf_of, is_some, close_producer, kafka_close}
use log_reader.Kafka.Close.Loses.{Loses-trans, run-Loses, step-Loses}
use log_reader.Kafka.Close.Ends.{is_done, ended-step, ended-run, after_end-run, done-step}

-- The producer when its context is cancelled, and when its goroutine has returned.
abbrev pub at_cancel : (ℕ → Bool → Bool) → (ℕ → Bool) → ProducerConf → List Event → Producer
at_cancel env dlq_env conf es = step env dlq_env conf (run env dlq_env conf new_producer es) cancel

abbrev pub at_end :
    (ℕ → Bool → Bool) → (ℕ → Bool) → ProducerConf → List Event → List Event → Producer
at_end env dlq_env conf es fs =
    step env dlq_env conf (run env dlq_env conf (at_cancel env dlq_env conf es) fs) done

module _ (env : ℕ → Bool → Bool) (dlq_env : ℕ → Bool) (conf : ProducerConf) where
  cancelled-at_cancel : (es : List Event) → (at_cancel env dlq_env conf es).cancelled ≡ true
  unfolding step
  cancelled-at_cancel es = refl

  -- The messages that `Send` put in the channel after the context was cancelled.
  abbrev pub accepted_late : List Event → List Event → List Message
  accepted_late es fs = accepted env dlq_env conf (at_cancel env dlq_env conf es) fs

  abbrev pub IsDrained : List Event → List Event → Producer → Type 0
  IsDrained es fs q =
      let p : Producer = at_cancel env dlq_env conf es in
      (q.ended ≡ true)
      × (q.queue ≡ [])
      × (q.batch ≡ [])
      × (messages_of q.writes ≡ accepted env dlq_env conf new_producer es ++ accepted_late es fs)
      × (q.send_kafka_failed
          ≡ p.send_kafka_failed + length (p.batch ++ p.queue) + length (accepted_late es fs))
      × ((gs : List Event) → (run env dlq_env conf q gs).writes ≡ q.writes)

  written-at_end :
      (es fs : List Event)
      → all_messages (at_end env dlq_env conf es fs)
        ≡ all_messages (at_cancel env dlq_env conf es) ++ accepted_late es fs
  written-at_end es fs =
      let p : Producer = at_cancel env dlq_env conf es in
      all_messages-step env dlq_env conf (run env dlq_env conf p fs) done
      ∙ (append-nil _ ∙ all_messages-run env dlq_env conf p fs)

  written-at_cancel :
      (es : List Event)
      → all_messages (at_cancel env dlq_env conf es) ≡ accepted env dlq_env conf new_producer es
  written-at_cancel es =
      all_messages-step env dlq_env conf (run env dlq_env conf new_producer es) cancel
      ∙ (append-nil _ ∙ all_messages-run env dlq_env conf new_producer es)

  at_end-IsDrained :
      ((n : ℕ) → env n true ≡ false)
      → (es fs : List Event) → All (λ e. is_done e ≡ false) es
      → All (λ e. is_done e ≡ false) fs
      → IsDrained es fs (at_end env dlq_env conf es fs)
  at_end-IsDrained refuses es fs no_done none_later =
      let p : Producer = at_cancel env dlq_env conf es in
      let r : Producer = run env dlq_env conf p fs in
      let q : Producer = at_end env dlq_env conf es fs in
      let begun : p.ended ≡ false =
        ended-step env dlq_env conf cancel (run env dlq_env conf new_producer es) refl
        ∙ ended-run env dlq_env conf es new_producer no_done in
      let off : p.cancelled ≡ true = cancelled-at_cancel es in
      let (ms, w, f, c) = run-Loses env dlq_env conf refuses fs p off in
      let (t, e, b) =
        done-step env dlq_env conf r (ended-run env dlq_env conf fs p none_later ∙ begun) c in
      let (ns, w', f', c') =
        Loses-trans env dlq_env conf p r q (ms, w, f, c)
          (step-Loses env dlq_env conf refuses done r c) in
      let whole : messages_of q.writes ≡ all_messages p ++ accepted_late es fs =
        sym (rw (b, e) (append-nil (messages_of q.writes))) ∙ written-at_end es fs in
      (
        t,
        e,
        b,
        whole ∙ ap (λ (l : List Message). l ++ accepted_late es fs) (written-at_cancel es),
        omega (
          arith,
          f',
          ap (length {0}) (sym w' ∙ whole),
          length-append (messages_of p.writes) ns,
          length-append (all_messages p) (accepted_late es fs),
          length-append (messages_of p.writes) (p.batch ++ p.queue),
        ),
        λ gs. after_end-run env dlq_env conf gs q t,
      )

-- A module that `Init` has made without an error and whose producer was started, any calls of `Send`
-- and turns of its goroutine before `Close` cancels the context and after it, until the goroutine
-- takes the case of `ctx.Done()`; and `WriteMessages` fails whenever its context is cancelled. Then
-- `Close` has been called on the writer, and on that of the dead letters if there is one. The
-- goroutine has returned with an empty channel and batch, and every message that `Send` put in the
-- channel before was given to `WriteMessages`, in order and once. All messages that were in the
-- batch or the channel when the context was cancelled, and all that came later, are counted in
-- SEND_KAFKA_FAILED. A message that comes after the end is never written.
pub kafka_close-IsDrained :
    (env : ℕ → Bool → Bool) (dlq_env : ℕ → Bool)
    → ((n : ℕ) → env n true ≡ false)
    → (reg : FieldRegistry) (makes : ℤ → Bool) (read : Option ConfModKafka) (data_file : DataFile)
      (handlers : Bool)
    → (m m' : ModuleKafka) (es fs : List Event)
    → kafka_init reg makes read data_file handlers m ≡ (ok tt, m')
    → All (λ e. is_done e ≡ false) es
    → All (λ e. is_done e ≡ false) fs
    → (k : KafkaProducer) × (q : Producer) × (m'.producer ≡ some k)
      × (kafka_close env dlq_env es fs m' ≡ record {
        producer = some q;
        writer_closed = true;
        dlq_writer_closed = is_some k.dlq_writer;
      })
      × IsDrained env dlq_env (conf_of k) es fs q
unfolding kafka_close close_producer
kafka_close-IsDrained env dlq_env refuses reg makes read data_file handlers m m' es fs made no_done
      later =
    let verdict : InitVerdict reg makes read data_file handlers m (ok tt) m' =
      subst
        (λ (r : Result InitError Unit × ModuleKafka).
          InitVerdict reg makes read data_file handlers m r.0 r.1)
        made (kafka_init-InitVerdict reg makes read data_file handlers m) in
    let (c, conf, k, fields, loaded, checked, found, opened, chosen, kinds) = verdict in
    (
      k,
      at_end env dlq_env (conf_of k) es fs,
      found,
      rw found refl,
      at_end-IsDrained env dlq_env (conf_of k) refuses es fs no_done later,
    )
