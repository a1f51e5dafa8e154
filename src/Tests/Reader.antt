-- ===== src/Tests/Reader.antt =====
-- The theorems on bfe_log_reader at concrete bytes: frames of two bytes, of which those that begin
-- with 0 do not decode.
use log_reader.Prelude.{
  ℕ, zero, suc, ◌+◌, ◌≡◌, refl, List, [], ◌∷◌, ◌++◌, true, false, some, none, Option, ok, pos,
  arith, All, concat, length, map,
}
use log_reader.Fields.Log.{BfeLog}
use log_reader.Reader.{Counters, LogFileReader, Io, bytes, fails, log_read}
use log_reader.Reader.Parse.{Codec, pb_buff_parse}
use log_reader.Reader.Batch.{batches, InLimit, dispatch}
use log_reader.Reader.Dispatch.{ModuleMap, calls_of, calls_of-dispatch-batches}
use log_reader.Reader.State.{Opened, AfterError, log_read-Opened, log_read-AfterError}
use log_reader.Reader.Framing.{Framing}
use log_reader.Reader.Stream.{read_loop, read_loop-delivers}
use log_reader.Reader.Rotation.{following, rotation_io, log_read-rotates}
use log_reader.Reader.Start.{PbLogReader, start_loop}
use log_reader.Reader.Start.Counts.{log_run}
use log_reader.Reader.Start.Delivery.{Delivers, start_loop-Delivers}
use log_reader.Reader.Start.Files.{start_loop-logged}
use log_reader.Reader.Start.Turns.{FileTurn, grows, waits, Rotation, turn_io, rotations_io, logged}
use log_reader.Tests.Samples.{sample_log}

abbrev pairs : List ℕ → List (List ℕ) × List ℕ
pairs [] = ([], [])
pairs (a ∷ []) = ([], a ∷ [])
pairs (a ∷ b ∷ xs) = ((a ∷ b ∷ []) ∷ (pairs xs).0, (pairs xs).1)

abbrev unmarshal_pair : List ℕ → Option BfeLog
unmarshal_pair [] = none
unmarshal_pair (zero ∷ xs) = none
unmarshal_pair (suc n ∷ xs) = some sample_log

abbrev pub codec : Codec
codec = record { buff_parse = pairs; unmarshal = unmarshal_pair }

pairs-remains : (xs : List ℕ) → pairs (pairs xs).1 ≡ ([], (pairs xs).1)
pairs-remains [] = refl
pairs-remains (a ∷ []) = refl
pairs-remains (a ∷ b ∷ xs) = pairs-remains xs

pairs-chunked :
    (xs ys : List ℕ)
    → pairs (xs ++ ys)
      ≡ ((pairs xs).0 ++ (pairs ((pairs xs).1 ++ ys)).0, (pairs ((pairs xs).1 ++ ys)).1)
pairs-chunked [] ys = refl
pairs-chunked (a ∷ []) ys = refl
pairs-chunked (a ∷ b ∷ xs) ys = rw (pairs-chunked xs ys) refl

pub framing : Framing codec
framing = record { remains = pairs-remains; chunked = pairs-chunked }

abbrev pub counters : Counters
counters = record {
  err_pb_open = 0;
  err_pb_seek = 0;
  err_pb_stat = 0;
  err_pb_close = 0;
  err_pb_read = 0;
  err_pb_decode = 0;
  sum_read_data = 0;
  sum_read_data_empty = 0;
  pb_log_relocate = 0;
  sum_pb_record = 0;
}

abbrev pub reader : LogFileReader
reader = following 5 (some 2) (9 ∷ []) counters

-- The first pair is cut by the reads.
abbrev pub chunks : List (ℕ × List ℕ)
chunks = (1, []) ∷ (0, 1 ∷ 2 ∷ []) ∷ (2, []) ∷ []

read_loop-delivers_test :
    ((read_loop codec false chunks reader).0 ≡ sample_log ∷ sample_log ∷ [])
    × ((read_loop codec false chunks reader).1.data_buffer ≡ [])
unfolding pb_buff_parse
read_loop-delivers_test =
    read_loop-delivers codec false framing chunks (record { info = 5; sought = some 2 }) reader refl
      refl

log_read-Opened_example : Opened (log_read codec false (rotation_io true fails 6) reader).1
log_read-Opened_example = log_read-Opened codec false (rotation_io true fails 6) reader (refl, refl)

log_read-AfterError_example :
    AfterError
      (log_read codec false (rotation_io true fails 6) reader).0
      (log_read codec false (rotation_io true fails 6) reader).1
log_read-AfterError_example = log_read-AfterError codec false (rotation_io true fails 6) reader

log_read-rotates_example :
    ((log_read codec false (rotation_io true (bytes (3 ∷ 0 ∷ [])) 6) reader).0
      ≡ ok (sample_log ∷ []))
    × ((log_read codec false (rotation_io true (bytes (3 ∷ 0 ∷ [])) 6) reader).1.log_fd
        ≡ some (record { info = 6; sought = none }))
    × ((log_read codec false (rotation_io true (bytes (3 ∷ 0 ∷ [])) 6) reader).1.data_buffer ≡ [])
    × ((log_read codec false (rotation_io true fails 6) reader).0 ≡ ok [])
    × ((log_read codec false (rotation_io true fails 6) reader).1.log_fd
        ≡ some (record { info = 6; sought = some 2 }))
    × ((log_read codec false (rotation_io true fails 6) reader).1.data_buffer ≡ [])
unfolding pb_buff_parse
log_read-rotates_example =
    log_read-rotates codec false 5 6 3 (0 ∷ []) (9 ∷ []) (some 2) true counters
      (λ e. absurd (omega arith))

abbrev three : List ℕ
three = 1 ∷ 2 ∷ 3 ∷ []

abbrev pub modules : ModuleMap ℕ
modules = ("mod_kafka", 1) ∷ ("mod_log_mysql", 2) ∷ []

abbrev calls : List (List ℕ)
calls = calls_of "mod_log_mysql" (dispatch modules (batches (pos 2) three))

calls_of-dispatch-batches_test : (concat calls ≡ three) × All (InLimit 2) calls
calls_of-dispatch-batches_test =
    calls_of-dispatch-batches "mod_log_mysql" modules (pos 2) three refl refl

-- A reader with two modules, and batches of one record.
abbrev pub started : PbLogReader ℕ
started = record {
  file = reader;
  modules = some modules;
  max_size_per_batch = pos 1;
  sum_read_records_empty = 0;
  sum_pb_batch_count = 0;
}

-- The open file is removed, and the reads fail.
abbrev failing : List Io
failing = rotation_io true fails 6 ∷ rotation_io false fails 7 ∷ []

start_loop-Delivers_example :
    Delivers
      (pos 1)
      (log_run codec true failing reader).0
      (calls_of "mod_kafka" (start_loop codec true failing started).0)
    × ((start_loop codec true failing started).1.sum_pb_batch_count
        ≡ 0 + length (calls_of "mod_kafka" (start_loop codec true failing started).0))
    × ((start_loop codec true failing started).1.file.state.sum_pb_record
        ≡ 0 + length (concat (calls_of "mod_kafka" (start_loop codec true failing started).0)))
start_loop-Delivers_example =
    start_loop-Delivers "mod_kafka" modules refl refl codec true failing started refl

-- A frame is cut by two reads, another by the rotation, after which there is half a frame left.
abbrev pub first_turns : List FileTurn
first_turns = grows (1, []) ∷ waits ∷ grows (0, 1 ∷ 2 ∷ []) ∷ []

abbrev pub rotated : List Rotation
rotated = record { rest = 4 ∷ 5 ∷ []; new = 6; turns = grows (3, 0 ∷ []) ∷ [] } ∷ []

start_loop-logged_example : Delivers (pos 1) (logged codec (9 ∷ 1 ∷ 0 ∷ 1 ∷ 2 ∷ []) rotated) (
    calls_of "mod_log_mysql"
      (start_loop codec false (map (turn_io 5) first_turns ++ rotations_io rotated) started).0)
start_loop-logged_example =
    start_loop-logged codec false framing "mod_log_mysql" modules started first_turns rotated 5
      (some 2) (9 ∷ []) counters refl refl refl refl refl refl ((λ e. absurd (omega arith)), tt)

-- Three records: one frame does not decode, and half a frame was lost with the old file.
logged_test : length (logged codec (9 ∷ 1 ∷ 0 ∷ 1 ∷ 2 ∷ []) rotated) ≡ 3
unfolding pb_buff_parse
logged_test = refl
