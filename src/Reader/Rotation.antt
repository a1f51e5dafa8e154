-- ===== src/Reader/Rotation.antt =====
-- The change to a new log file: `eofHandler`, `logRelocate` and `LogFileOpen` of
-- bfe_log_reader/log_reader.go and pb_log_reader.go.
use log_reader.Prelude.{
  ℕ, Bool, true, false, List, [], ◌∷◌, ◌++◌, Option, none, some, Result, ok, ◌≡◌, refl, arith, ◌==◌,
}
use log_reader.Fields.Log.{BfeLog}
use log_reader.Reader.Parse.{Codec, pb_buff_parse}
use log_reader.Reader.{
  Counters, LogFileReader, ReadAnswer, whence, close_file_and_init, fails, bytes, eof, Io, f_read,
  file_read, check_read, data_buffer_parse, left_over, rotate, at_eof, read_done, read_open,
  read_from, log_read, ReadError, log_relocate, close_old, log_file_open, save_info, is_log_cut,
}

-- A reader in the middle of the file `old`.
abbrev pub following : ℕ → Option ℕ → List ℕ → Counters → LogFileReader
following old sought buffer counters = record {
  log_fd = some (record { info = old; sought = sought });
  file_info = old;
  init_done = true;
  data_buffer = buffer;
  state = counters;
}

-- The file at the path is `new`, the open one has ended, and `rest` was written to it meanwhile.
abbrev pub rotation_io : Bool → ReadAnswer → ℕ → Io
rotation_io close_ok read_all new = record {
  missing = false;
  path_info = some new;
  read = eof;
  read_all = read_all;
  close_ok = close_ok;
  opening = record { open_ok = true; seek_ok = true; stat = some new; close_ok = true };
}

pub differ : (a b : ℕ) → ¬ (a ≡ b) → (a == b) ≡ false
differ a b h = ground arith

module _ (codec : Codec) (from_begin : Bool) where
  -- The open file `old` has ended and the path names another file, which can be opened. If the bytes
  -- that were written to the old file meanwhile can be read, `logRead` returns the records of the
  -- buffer and these bytes, and the new file is open at its beginning. If they cannot, it returns no
  -- records and no error, and the new file is opened as at a start: at its beginning only if
  -- `isReadFromBegin` is set, else at its end. In both cases the buffer is then empty.
  pub log_read-rotates :
      (old new b : ℕ) (rest buffer : List ℕ) (sought : Option ℕ) (close_ok : Bool) (c : Counters)
      → ¬ (new ≡ old)
      → let lr : LogFileReader = following old sought buffer c in
        let r : Result ReadError (List BfeLog) × LogFileReader =
          log_read codec from_begin (rotation_io close_ok (bytes (b ∷ rest)) new) lr in
        let s : Result ReadError (List BfeLog) × LogFileReader =
          log_read codec from_begin (rotation_io close_ok fails new) lr in
        (r.0 ≡ ok (pb_buff_parse codec (buffer ++ b ∷ rest)).0)
        × (r.1.log_fd ≡ some (record { info = new; sought = none }))
        × (r.1.data_buffer ≡ [])
        × (s.0 ≡ ok [])
        × (s.1.log_fd ≡ some (record { info = new; sought = some (whence from_begin) }))
        × (s.1.data_buffer ≡ [])
  unfolding log_read read_from read_open file_read f_read check_read read_done at_eof is_log_cut
      rotate left_over data_buffer_parse log_relocate close_old log_file_open save_info
      close_file_and_init
  log_read-rotates old new b rest buffer sought close_ok c h =
      rw (differ new old h) (refl, refl, refl, refl, refl, refl)
