-- ===== src/Generator/RoundTrip.antt =====
-- From the log generator to the modules: what is written is what each module is given.
use log_reader.Prelude.{
  ℕ, Bool, true, String, List, [], ◌∷◌, ◌++◌, Option, some, ◌≡◌, refl, ap, ◌∙◌, map, subst, All,
}
use log_reader.Fields.Log.{BfeLog}
use log_reader.Fields.Names.{contains, distinct}
use log_reader.Reader.Dispatch.{ModuleMap, module_names, calls_of}
use log_reader.Reader.Framing.{Framing}
use log_reader.Reader.Parse.{Codec, pb_buff_parse}
use log_reader.Reader.Rotation.{following}
use log_reader.Reader.{Counters, Io}
use log_reader.Reader.Start.{PbLogReader, start_loop}
use log_reader.Reader.Start.Delivery.{Delivers}
use log_reader.Reader.Start.Files.{start_loop-logged}
use log_reader.Reader.Start.Turns.{
  FileTurn, turn_io, Rotation, rotations_io, Rotates, turn_bytes, logged,
}
use log_reader.Generator.{Encoder, WriteIo, must_write_all}
use log_reader.Generator.Frames.{Wire, Restored, must_write_all-parsed}

-- The calls of `MustWriteBfeLog` for a file, each with what it is answered.
abbrev pub WriteCalls : Type 0
WriteCalls = List (WriteIo × BfeLog)

abbrev pub logs_of : WriteCalls → List BfeLog
logs_of calls = map (λ (c : WriteIo × BfeLog). c.1) calls

-- Rotations, each with the calls that write the new file.
abbrev pub rotations : List (Rotation × WriteCalls) → List Rotation
rotations [] = []
rotations ((r, calls) ∷ more) = r ∷ rotations more

-- The records of all files, in the order in which they are written.
abbrev pub all_logs : WriteCalls → List (Rotation × WriteCalls) → List BfeLog
all_logs calls [] = logs_of calls
all_logs calls ((r, next) ∷ more) = logs_of calls ++ all_logs next more

-- Each file holds what its calls write and the reader reads: `content`, and for a file that is
-- rotated the rest that is read at its rotation.
abbrev pub Holds : Encoder → WriteCalls → List ℕ → List (Rotation × WriteCalls) → Type 0
Holds enc calls content [] = must_write_all enc calls [] ≡ some content
Holds enc calls content ((r, next) ∷ more) =
    (must_write_all enc calls [] ≡ some (content ++ r.rest))
    × Holds enc next (turn_bytes r.turns) more

module _ (codec : Codec) (enc : Encoder) (wire : Wire codec enc) where
  abbrev pub AllRestored : WriteCalls → List (Rotation × WriteCalls) → Type 0
  AllRestored calls [] = All (Restored codec enc) (logs_of calls)
  AllRestored calls ((r, next) ∷ more) =
      All (Restored codec enc) (logs_of calls) × AllRestored next more

  file-parsed :
      codec.buff_parse [] ≡ ([], [])
      → (calls : WriteCalls) (content : List ℕ) → All (Restored codec enc) (logs_of calls)
      → must_write_all enc calls [] ≡ some content
      → (pb_buff_parse codec content).0 ≡ logs_of calls
  file-parsed nothing calls content back e =
      let (new, whole, parsed) =
        must_write_all-parsed codec enc wire nothing calls [] content back e in
      ap (λ (xs : List ℕ). (pb_buff_parse codec xs).0) whole ∙ parsed

  logged-written :
      codec.buff_parse [] ≡ ([], [])
      → (more : List (Rotation × WriteCalls)) (calls : WriteCalls) (content : List ℕ)
      → AllRestored calls more
      → Holds enc calls content more
      → logged codec content (rotations more) ≡ all_logs calls more
  logged-written nothing [] calls content back e = file-parsed nothing calls content back e
  logged-written nothing ((r, next) ∷ more) calls content (back, later) (e, rest) =
      rw
        (
          file-parsed nothing calls (content ++ r.rest) back e,
          logged-written nothing more next (turn_bytes r.turns) later rest,
        )
        refl

  -- What is written, for a reader at the first file.
  pub start_loop-must_write_all :
      Framing codec
      → codec.buff_parse [] ≡ ([], [])
      → {M : Type 0} (from_begin : Bool) (name : String) (ms : ModuleMap M) (s : PbLogReader M)
      → (calls : WriteCalls) (ts : List FileTurn) (more : List (Rotation × WriteCalls)) (id : ℕ)
      → (sought : Option ℕ) (cs : Counters) → distinct (module_names ms) ≡ true
      → contains name (module_names ms) ≡ true
      → s.modules ≡ some ms
      → s.file ≡ following id sought [] cs
      → Rotates id (rotations more)
      → AllRestored calls more
      → Holds enc calls (turn_bytes ts) more
      → let ios : List Io = map (turn_io id) ts ++ rotations_io (rotations more) in
        Delivers s.max_size_per_batch
          (all_logs calls more)
          (calls_of name (start_loop codec from_begin ios s).0)
  start_loop-must_write_all law nothing from_begin name ms s calls ts more id sought cs d listed b f
        differs back holds =
      let ios : List Io = map (turn_io id) ts ++ rotations_io (rotations more) in
      subst
        (λ (logs : List BfeLog).
          Delivers s.max_size_per_batch logs (calls_of name (start_loop codec from_begin ios s).0))
        (logged-written nothing more calls (turn_bytes ts) back holds)
        (start_loop-logged codec from_begin law name ms s ts (rotations more) id sought [] cs d
          listed b f nothing nothing differs)
