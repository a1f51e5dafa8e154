-- ===== src/Reader/Start/Turns.antt =====
-- The turns of `Start` at a log that is rotated, one at a time.
use log_reader.Prelude.{
  ℕ, suc, Bool, true, List, [], ◌∷◌, ◌++◌, append_assoc, append-nil, Option, none, Result, ok, ◌≡◌,
  refl, sym, ap, ==-self, map,
}
use log_reader.Fields.Log.{BfeLog}
use log_reader.Reader.Parse.{Codec, pb_buff_parse}
use log_reader.Reader.Stream.{chunk, data_io, delivered}
use log_reader.Reader.Rotation.{following, rotation_io, differ}
use log_reader.Reader.{
  Counters, LogFileReader, bytes, eof, Io, f_read, file_read, check_read, data_buffer_parse,
  left_over, rotate, at_eof, read_done, read_open, read_from, log_read, ReadError, log_relocate,
  close_old, log_file_open, save_info, is_log_cut,
}
use log_reader.Reader.Start.Counts.{log_run}

-- What a turn finds in the open file: some bytes, or its end, while the path still names it.
pub data FileTurn : Type 0 where
  grows : ℕ × List ℕ → FileTurn
  waits : FileTurn

-- The answers in a turn at the file of an identity.
abbrev pub turn_io : ℕ → FileTurn → Io
turn_io id (grows c) = data_io (chunk c)
turn_io id waits = rotation_io true eof id

-- A new file at the path, with what was still written to the old one before that was noticed.
pub record Rotation : Type 0 where
  pub rest : List ℕ
  pub new : ℕ
  pub turns : List FileTurn

abbrev pub rotations_io : List Rotation → List Io
rotations_io [] = []
rotations_io (r ∷ more) =
    rotation_io true (bytes r.rest) r.new ∷ (map (turn_io r.new) r.turns ++ rotations_io more)

-- Each file differs from the one before it.
abbrev pub Rotates : ℕ → List Rotation → Type 0
Rotates id [] = Unit {0}
Rotates id (r ∷ more) = ¬ (r.new ≡ id) × Rotates r.new more

abbrev pub turn_bytes : List FileTurn → List ℕ
turn_bytes [] = []
turn_bytes (grows c ∷ ts) = chunk c ++ turn_bytes ts
turn_bytes (waits ∷ ts) = turn_bytes ts

-- The records of each file by itself, one file after the other, where `content` is what the first
-- one has before it is rotated.
abbrev pub logged : Codec → List ℕ → List Rotation → List BfeLog
logged codec content [] = (pb_buff_parse codec content).0
logged codec content (r ∷ more) =
    (pb_buff_parse codec (content ++ r.rest)).0 ++ logged codec (turn_bytes r.turns) more

module _ (codec : Codec) (from_begin : Bool) where
  pub log_run-append :
      (xs ys : List Io) (lr : LogFileReader)
      → let r : List BfeLog × LogFileReader = log_run codec from_begin xs lr in
        let s : List BfeLog × LogFileReader = log_run codec from_begin ys r.1 in
        log_run codec from_begin (xs ++ ys) lr ≡ (r.0 ++ s.0, s.1)
  unfolding log_run
  log_run-append [] ys lr = refl
  log_run-append (x ∷ xs) ys lr =
      let r : Result ReadError (List BfeLog) × LogFileReader = log_read codec from_begin x lr in
      let a : List BfeLog × LogFileReader = log_run codec from_begin xs r.1 in
      rw (log_run-append xs ys r.1) (
        ap (λ (l : List BfeLog). (l, (log_run codec from_begin ys a.1).1))
          (sym (append_assoc (delivered r.0) a.0 (log_run codec from_begin ys a.1).0)))

  pub grows-following :
      (c : ℕ × List ℕ) (id : ℕ) (sought : Option ℕ) (buffer : List ℕ) (cs : Counters)
      → let p : List BfeLog × List ℕ × ℕ = pb_buff_parse codec (buffer ++ chunk c) in
        (cs' : Counters) × (log_read codec from_begin
            (turn_io id (grows c))
            (following id sought buffer cs)
          ≡ (ok p.0, following id sought p.1 cs'))
  unfolding log_read read_from read_open file_read f_read check_read read_done data_buffer_parse
  grows-following c id sought buffer cs = (_, refl)

  pub waits-following :
      (id : ℕ) (sought : Option ℕ) (buffer : List ℕ) (cs : Counters)
      → (cs' : Counters) × (log_read codec from_begin
            (turn_io id waits)
            (following id sought buffer cs)
          ≡ (ok [], following id sought buffer cs'))
  unfolding log_read read_from read_open file_read f_read check_read read_done at_eof is_log_cut
  waits-following id sought buffer cs = (
    record cs {
      sum_read_data = suc cs.sum_read_data;
      sum_read_data_empty = suc cs.sum_read_data_empty;
    },
    rw (==-self id) refl,
  )

  pub rotates-following :
      (rest : List ℕ) (old new : ℕ) (sought : Option ℕ) (buffer : List ℕ) (cs : Counters)
      → ¬ (new ≡ old)
      → (pb_buff_parse codec buffer).0 ≡ []
      → (cs' : Counters) × (log_read codec from_begin
            (rotation_io true (bytes rest) new)
            (following old sought buffer cs)
          ≡ (ok (pb_buff_parse codec (buffer ++ rest)).0, following new none [] cs'))
  unfolding log_read read_from read_open file_read f_read check_read read_done at_eof is_log_cut
      rotate left_over data_buffer_parse log_relocate close_old log_file_open save_info
  rotates-following [] old new sought buffer cs h e =
      let io : Io = rotation_io true (bytes []) new in
      (
        (log_read codec from_begin io (following old sought buffer cs)).1.state,
        rw (append-nil buffer, e, differ new old h) refl,
      )
  rotates-following (b ∷ rest) old new sought buffer cs h e =
      let io : Io = rotation_io true (bytes (b ∷ rest)) new in
      (
        (log_read codec from_begin io (following old sought buffer cs)).1.state,
        rw (differ new old h) refl,
      )
