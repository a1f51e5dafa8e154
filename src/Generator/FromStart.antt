-- ===== src/Generator/FromStart.antt =====
-- From the log generator to the modules of a reader that has just been made.
use log_reader.Prelude.{ℕ, true, String, List, [], ◌∷◌, ◌++◌, some, ◌≡◌, refl, ℤ, map, subst, sym}
use log_reader.Fields.Names.{contains, distinct}
use log_reader.Reader.Dispatch.{ModuleMap, module_names, calls_of}
use log_reader.Reader.Framing.{Framing}
use log_reader.Reader.Parse.{Codec}
use log_reader.Reader.{Counters, Io, whence}
use log_reader.Reader.Start.{PbLogReader, Calls, start_loop}
use log_reader.Reader.Start.Delivery.{Delivers}
use log_reader.Reader.Start.Opening.{
  Attempt, attempt_io, opens, new_pb_log_reader, set_max_size_per_batch, bind, start_loop-opens,
}
use log_reader.Reader.Start.Turns.{FileTurn, turn_io, Rotation, rotations_io, Rotates, turn_bytes}
use log_reader.Generator.{Encoder}
use log_reader.Generator.Frames.{Wire}
use log_reader.Generator.RoundTrip.{
  WriteCalls, rotations, all_logs, Holds, AllRestored, start_loop-must_write_all,
}

-- The answers to a new reader: turns that do not open the file, the one that does, the other turns
-- at that file, and the rotations.
abbrev pub ios_from_start :
    List Attempt → ℕ → FileTurn → List FileTurn → List (Rotation × WriteCalls) → List Io
ios_from_start tries id t ts more =
    map attempt_io tries
    ++ (opens id (turn_io id t) ∷ (map (turn_io id) ts ++ rotations_io (rotations more)))

-- If b2log finds again the frames whose headers it can write, whatever follows them and however
-- the reads cut the stream, finds nothing in no bytes, and proto gives back the records that are
-- marshalled: let a reader be made by `NewPbLogReader` and bound to modules of distinct names, and
-- let it read new files from their beginning. In its first turns there may be no file, or opening it
-- may fail; then it opens a file, and the log is rotated any number of times, to files other than the
-- one before, each file holding what calls of `MustWriteBfeLog` that did not end the test have
-- written to an empty file, all of it read, at its rotation at the latest. Then what the loop of
-- `Start` gives to any one module is, put together, the records that were written, each once and in
-- the order in which they were written. Each batch has at least one record and, if `MaxSizePerBatch`
-- is positive, at most so many.
pub new_pb_log_reader-must_write_all :
    (codec : Codec) (enc : Encoder) (wire : Wire codec enc) (law : Framing codec)
    → codec.buff_parse [] ≡ ([], [])
    → {M : Type 0} (name : String) (ms : ModuleMap M) (max_size : ℤ) (info : ℕ) (cs : Counters)
    → (calls : WriteCalls) (tries : List Attempt) (t : FileTurn) (ts : List FileTurn)
    → (more : List (Rotation × WriteCalls)) (id : ℕ) → distinct (module_names ms) ≡ true
    → contains name (module_names ms) ≡ true
    → Rotates id (rotations more)
    → AllRestored codec enc wire calls more
    → Holds enc calls (turn_bytes (t ∷ ts)) more
    → let s : PbLogReader M =
        bind ms (set_max_size_per_batch max_size (new_pb_log_reader info cs)) in
      Delivers max_size
        (all_logs calls more)
        (calls_of name (start_loop codec true (ios_from_start tries id t ts more) s).0)
unfolding bind set_max_size_per_batch new_pb_log_reader
new_pb_log_reader-must_write_all codec enc wire law nothing {M} name ms max_size info cs calls tries
      t ts more id d listed differs back holds =
    let s : PbLogReader M = bind ms (set_max_size_per_batch max_size (new_pb_log_reader info cs)) in
    let later : List Io = map (turn_io id) ts ++ rotations_io (rotations more) in
    let (cs', same) = start_loop-opens codec true tries t later id info cs s in
    subst
      (λ (r : Calls M × PbLogReader M). Delivers max_size (all_logs calls more) (calls_of name r.0))
      (sym same)
      (start_loop-must_write_all codec enc wire law nothing true name ms _ calls (t ∷ ts) more id
        (some (whence true)) cs' d listed refl refl differs back holds)
