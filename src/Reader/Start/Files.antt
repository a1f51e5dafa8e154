-- ===== src/Reader/Start/Files.antt =====
-- A log that is rotated any number of times, from its bytes to the modules.
use log_reader.Prelude.{
  ℕ, Bool, true, String, List, [], ◌∷◌, ◌++◌, append_assoc, append-nil, Option, none, some, ◌≡◌,
  refl, sym, ap, ◌∙◌, map,
}
use log_reader.Fields.Log.{BfeLog}
use log_reader.Fields.Names.{contains, distinct}
use log_reader.Reader.Dispatch.{ModuleMap, module_names, calls_of}
use log_reader.Reader.Framing.{Framing, decode-chunked, rest-chunked, frameless, no_more, same_rest}
use log_reader.Reader.Parse.{Codec, pb_buff_parse}
use log_reader.Reader.Stream.{chunk}
use log_reader.Reader.Rotation.{following}
use log_reader.Reader.{Counters, Io}
use log_reader.Reader.Start.{PbLogReader, start_loop}
use log_reader.Reader.Start.Counts.{log_run}
use log_reader.Reader.Start.Delivery.{start_loop-Delivers, Delivers}
use log_reader.Reader.Start.Turns.{
  FileTurn, grows, waits, turn_io, Rotation, rotations_io, Rotates, turn_bytes, logged,
  log_run-append, grows-following, waits-following, rotates-following,
}

module _ (codec : Codec) (from_begin : Bool) where
  module _ (law : Framing codec) where
    -- The turns at one file: the records of all its bytes, and what they leave in the buffer.
    turns-following :
        (ts : List FileTurn) (id : ℕ) (sought : Option ℕ) (buffer : List ℕ) (cs : Counters)
        → (pb_buff_parse codec buffer).0 ≡ []
        → (pb_buff_parse codec buffer).1 ≡ buffer
        → let p : List BfeLog × List ℕ × ℕ = pb_buff_parse codec (buffer ++ turn_bytes ts) in
          (cs' : Counters) × (log_run codec from_begin
              (map (turn_io id) ts)
              (following id sought buffer cs)
            ≡ (p.0, following id sought p.1 cs'))
    unfolding log_run
    turns-following [] id sought buffer cs none_yet all_left =
        (cs, rw (append-nil buffer, none_yet, all_left) refl)
    turns-following (waits ∷ ts) id sought buffer cs none_yet all_left =
        let (cs', r) = waits-following codec from_begin id sought buffer cs in
        let (cs'', rest) = turns-following ts id sought buffer cs' none_yet all_left in
        (cs'', rw (r, rest) refl)
    turns-following (grows c ∷ ts) id sought buffer cs none_yet all_left =
        let xs : List ℕ = buffer ++ chunk c in
        let (cs', r) = grows-following codec from_begin c id sought buffer cs in
        let (cs'', rest) =
          turns-following ts id sought (pb_buff_parse codec xs).1 cs' (no_more codec law xs)
            (same_rest codec law xs) in
        (
          cs'',
          rw
              (
                r,
                rest,
                ← append_assoc buffer (chunk c) (turn_bytes ts),
                decode-chunked codec law xs (turn_bytes ts),
                rest-chunked codec law xs (turn_bytes ts),
              )
              refl,
        )

    -- All files.
    log_run-logged :
        (more : List Rotation) (ts : List FileTurn) (id : ℕ) (sought : Option ℕ) (buffer : List ℕ)
        (cs : Counters)
        → codec.buff_parse [] ≡ ([], [])
        → Rotates id more
        → (pb_buff_parse codec buffer).0 ≡ []
        → (pb_buff_parse codec buffer).1 ≡ buffer
        → (log_run codec from_begin
            (map (turn_io id) ts ++ rotations_io more)
            (following id sought buffer cs)).0
          ≡ logged codec (buffer ++ turn_bytes ts) more
    unfolding log_run
    log_run-logged [] ts id sought buffer cs nothing differs none_yet all_left =
        let (cs', r) = turns-following ts id sought buffer cs none_yet all_left in
        rw (append-nil (map (turn_io id) ts), r) refl
    log_run-logged (rot ∷ more) ts id sought buffer cs nothing (new, differs) none_yet all_left =
        let content : List ℕ = buffer ++ turn_bytes ts in
        let (cs', r) = turns-following ts id sought buffer cs none_yet all_left in
        let (cs'', rotated) =
          rotates-following codec from_begin rot.rest id rot.new sought
            (pb_buff_parse codec content).1 cs' new (no_more codec law content) in
        let (e, l) = frameless codec [] nothing in
        rw
          (
            log_run-append codec from_begin (map (turn_io id) ts) (rotations_io (rot ∷ more))
                (following id sought buffer cs),
            r,
            rotated,
            log_run-logged more rot.turns rot.new none [] cs'' nothing differs e l,
            decode-chunked codec law content rot.rest,
          )
          (sym (append_assoc (pb_buff_parse codec content).0 _ _))

    -- If `BuffParse` frames the stream however the reads cut it and finds nothing in no bytes, and a
    -- reader with modules of distinct names is in the middle of a file, its buffer without a whole
    -- frame: over any number of turns that read bytes or wait, and any number of rotations to files
    -- other than the one before, at which the rest of the old file can be read, the batches that the
    -- loop of `Start` gives to any one module are, put together, the records of each file, one file
    -- after the other, each record once and in order: those of a file's bytes by themselves, however
    -- they are cut by reads and rotations. Each batch has at least one record and, if
    -- `MaxSizePerBatch` is positive, at most so many.
    pub start_loop-logged :
        {M : Type 0} (name : String) (ms : ModuleMap M) (s : PbLogReader M) (ts : List FileTurn)
        (more : List Rotation) (id : ℕ) (sought : Option ℕ) (buffer : List ℕ) (cs : Counters)
        → distinct (module_names ms) ≡ true
        → contains name (module_names ms) ≡ true
        → s.modules ≡ some ms
        → s.file ≡ following id sought buffer cs
        → codec.buff_parse [] ≡ ([], [])
        → codec.buff_parse buffer ≡ ([], buffer)
        → Rotates id more
        → let ios : List Io = map (turn_io id) ts ++ rotations_io more in
          Delivers s.max_size_per_batch
            (logged codec (buffer ++ turn_bytes ts) more)
            (calls_of name (start_loop codec from_begin ios s).0)
    start_loop-logged name ms s ts more id sought buffer cs d listed b f nothing whole differs =
        let ios : List Io = map (turn_io id) ts ++ rotations_io more in
        let ((given, fits), n, counted) =
          start_loop-Delivers name ms d listed codec from_begin ios s b in
        let (e, l) = frameless codec buffer whole in
        (
          given
              ∙ (ap (λ lr. (log_run codec from_begin ios lr).0) f
                  ∙ log_run-logged more ts id sought buffer cs nothing differs e l),
          fits,
        )
