-- ===== src/Tests/Generator.antt =====
-- The log generator with a codec of its own: a frame is one byte that says whether one more follows,
-- which is the id of a record.
use log_reader.Prelude.{
  false, ℕ, zero, suc, ◌≡◌, refl, List, [], ◌∷◌, ◌++◌, true, some, none, Option, pos, arith, length,
  sym, subst, drop, concat, err,
}
use mathlib.Core.Option.{some-injective, none-ne-some}
use log_reader.Fields.Log.{BfeLog}
use log_reader.Reader.Parse.{Codec}
use log_reader.Reader.Framing.{Framing}
use log_reader.Reader.Start.{PbLogReader, Calls, start_loop}
use log_reader.Reader.Start.Delivery.{Delivers}
use log_reader.Reader.Dispatch.{calls_of}
use log_reader.Reader.Start.Turns.{FileTurn, grows, waits, Rotation}
use log_reader.Reader.Start.Opening.{
  Attempt, missing, cannot_stat, new_pb_log_reader, set_max_size_per_batch, bind,
}
use log_reader.Generator.Accounted.{calls_from_start, must_write_all-Conserved}
use log_reader.Kafka.Pipeline as KafkaPipeline
use log_reader.Kafka.Pipeline.Conserved.{Conserved}
use log_reader.Kafka.Update.{ModuleKafka}
use log_reader.Mysql.Pipeline as MysqlPipeline
use log_reader.Mysql.Pipeline.Conserved.{ConservedRows}
use log_reader.Mysql.Update.{ModuleLogMysql}
use log_reader.Tests.Pipeline as Sides
use log_reader.Generator.FromStart.{ios_from_start, new_pb_log_reader-must_write_all}
use log_reader.Generator.{Encoder, WriteIo, must_write_all, write_bfe_log, write_error}
use log_reader.Generator.RequestLog.{make_request_log}
use log_reader.Generator.Frames.{Wire, Restored}
use log_reader.Generator.RoundTrip.{WriteCalls}
use log_reader.Tests.Reader.{counters, modules}

abbrev frames : List ℕ → List (List ℕ) × List ℕ
frames [] = ([], [])
frames (zero ∷ xs) = ([] ∷ (frames xs).0, (frames xs).1)
frames (suc n ∷ []) = ([], suc n ∷ [])
frames (suc n ∷ b ∷ xs) = ((b ∷ []) ∷ (frames xs).0, (frames xs).1)

frames-remains : (xs : List ℕ) → frames (frames xs).1 ≡ ([], (frames xs).1)
frames-remains [] = refl
frames-remains (zero ∷ xs) = frames-remains xs
frames-remains (suc n ∷ []) = refl
frames-remains (suc n ∷ b ∷ xs) = frames-remains xs

frames-chunked :
    (xs ys : List ℕ)
    → frames (xs ++ ys)
      ≡ ((frames xs).0 ++ (frames ((frames xs).1 ++ ys)).0, (frames ((frames xs).1 ++ ys)).1)
frames-chunked [] ys = refl
frames-chunked (zero ∷ xs) ys = rw (frames-chunked xs ys) refl
frames-chunked (suc n ∷ []) ys = refl
frames-chunked (suc n ∷ b ∷ xs) ys = rw (frames-chunked xs ys) refl

abbrev log_of : ℕ → BfeLog
log_of n = make_request_log "IDC" n "BFE" "api.example.org" "/v1/chat" "gpt-4"

abbrev unmarshal : List ℕ → Option BfeLog
unmarshal [] = none
unmarshal (n ∷ xs) = some (log_of n)

abbrev codec : Codec
codec = record { buff_parse = frames; unmarshal = unmarshal }

framing : Framing codec
framing = record { remains = frames-remains; chunked = frames-chunked }

-- Only the sizes 0 and 1 have a header; that of the second differs from moment to moment.
abbrev header_write : ℕ → List ℕ → ℕ → Option (List ℕ)
header_write moment buf zero = some (0 ∷ drop 1 buf)
header_write moment buf (suc zero) = some (suc moment ∷ drop 1 buf)
header_write moment buf (suc (suc n)) = none

abbrev enc : Encoder
enc = record {
  header_size = 1;
  header_write = header_write;
  size = λ log. 1;
  marshal = λ moment log. some (log.logid ∷ []);
}

headed :
    (moment n : ℕ) (buf buf' : List ℕ)
    → header_write moment buf n ≡ some buf'
    → (head : List ℕ) × (length head ≡ 1)
      × (buf' ≡ head ++ drop 1 buf)
      × ((raw rest : List ℕ)
          → length raw ≡ n
          → frames (head ++ (raw ++ rest)) ≡ (raw ∷ (frames rest).0, (frames rest).1))
headed moment zero buf buf' e = (0 ∷ [], refl, sym (some-injective _ _ e), framed)
  where
    framed :
        (raw rest : List ℕ)
        → length raw ≡ 0
        → frames (0 ∷ (raw ++ rest)) ≡ (raw ∷ (frames rest).0, (frames rest).1)
    framed [] rest n = refl
    framed (b ∷ raw) rest n = absurd (omega (arith, n))
headed moment (suc zero) buf buf' e = (suc moment ∷ [], refl, sym (some-injective _ _ e), framed)
  where
    framed :
        (raw rest : List ℕ)
        → length raw ≡ 1
        → frames (suc moment ∷ (raw ++ rest)) ≡ (raw ∷ (frames rest).0, (frames rest).1)
    framed [] rest n = absurd (omega (arith, n))
    framed (b ∷ []) rest n = refl
    framed (b ∷ c ∷ raw) rest n = absurd (omega (arith, n))
headed moment (suc (suc n)) buf buf' e = absurd (none-ne-some _ e)

wire : Wire codec enc
wire = record { headed = headed }

-- A call at a moment, at which the file takes all bytes.
abbrev at : ℕ → WriteIo
at moment = record { moment = moment; short = none }

restored : (n : ℕ) → Restored codec enc (log_of n)
unfolding make_request_log
restored n moment raw m =
    subst (λ (xs : List ℕ). (length xs ≡ 1) × (unmarshal xs ≡ some (log_of n)))
      (some-injective _ _ m) (refl, refl)

-- Two records, of which the second is read in part when the log is rotated, and one in the new file.
abbrev first_calls : WriteCalls
first_calls = (at 0, log_of 7) ∷ (at 3, log_of 8) ∷ []

abbrev turns : List FileTurn
turns = waits ∷ grows (7, 4 ∷ []) ∷ []

abbrev more : List (Rotation × WriteCalls)
more =
    (record { rest = 8 ∷ []; new = 6; turns = grows (7, 9 ∷ []) ∷ [] }, (at 6, log_of 9) ∷ []) ∷ []

-- The file is missing at first, and then it cannot be examined.
abbrev tries : List Attempt
tries = missing ∷ cannot_stat false ∷ []

abbrev new_reader : PbLogReader ℕ
new_reader = new_pb_log_reader 0 counters

new_pb_log_reader-must_write_all_example : Delivers (pos 2) (log_of 7 ∷ log_of 8 ∷ log_of 9 ∷ []) (
    calls_of "mod_kafka"
      (start_loop codec true
        (ios_from_start tries 5 (grows (1, [])) turns more)
        (bind modules (set_max_size_per_batch (pos 2) new_reader))).0)
unfolding must_write_all write_bfe_log make_request_log
new_pb_log_reader-must_write_all_example =
    new_pb_log_reader-must_write_all codec enc wire framing refl "mod_kafka" modules (pos 2) 0
      counters first_calls tries (grows (1, [])) turns more 5 refl refl
      ((λ e. absurd (omega arith)), tt) ((restored 7, (restored 8, tt)), (restored 9, tt))
      (refl, refl)

abbrev calls : Calls ℕ
calls =
    calls_from_start codec 1 2 (pos 2) 0 counters
      (ios_from_start tries 5 (grows (1, [])) turns more)

abbrev kafka_done : List (List BfeLog) × ModuleKafka
kafka_done =
    KafkaPipeline.updates Sides.marshal Sides.reg [] Sides.env Sides.dlq_env Sides.conf
      Sides.kafka_turns (calls_of "mod_kafka" calls)

abbrev mysql_done : List (List BfeLog) × ModuleLogMysql
mysql_done =
    MysqlPipeline.updates Sides.json Sides.reg Sides.commits_all Sides.writer_conf Sides.mysql_turns
      (calls_of "mod_log_mysql" calls)

must_write_all-Conserved_example :
    Conserved Sides.marshal Sides.reg [] Sides.env Sides.dlq_env Sides.conf
      (log_of 7 ∷ log_of 8 ∷ log_of 9 ∷ [])
      (concat kafka_done.0)
      kafka_done.1
    × ConservedRows Sides.json Sides.reg Sides.commits_all Sides.writer_conf
        (log_of 7 ∷ log_of 8 ∷ log_of 9 ∷ [])
        (concat mysql_done.0)
        mysql_done.1
unfolding must_write_all write_bfe_log make_request_log
must_write_all-Conserved_example =
    must_write_all-Conserved codec enc wire framing refl 1 2 (pos 2) 0 counters first_calls tries
      (grows (1, [])) turns more 5 ((λ e. absurd (omega arith)), tt)
      ((restored 7, (restored 8, tt)), (restored 9, tt)) (refl, refl) Sides.marshal Sides.reg []
      Sides.env Sides.dlq_env Sides.conf Sides.kafka_turns Sides.json Sides.commits_all
      Sides.writer_conf Sides.mysql_turns

-- A file that fails after one byte keeps it.
write_bfe_log_test :
    write_bfe_log enc (record { moment = 0; short = some 1 }) (log_of 7) (5 ∷ [])
    ≡ (err write_error, 5 ∷ 1 ∷ [])
unfolding write_bfe_log
write_bfe_log_test = refl
