-- ===== src/Reader/Start/Opening.antt =====
-- A reader as `NewPbLogReader` makes it, and the turns of `Start` until the file at the path is open.
use log_reader.Prelude.{
  ℕ, suc, Bool, true, false, List, [], ◌∷◌, ◌++◌, none, some, err, ◌≡◌, refl, ℤ, negsuc, map,
  ==-self,
}
use log_reader.Reader.Dispatch.{ModuleMap}
use log_reader.Reader.Parse.{Codec}
use log_reader.Reader.Rotation.{following}
use log_reader.Reader.Stream.{data_io}
use log_reader.Reader.{
  Counters, LogFileReader, OpenAnswers, Io, whence, f_read, file_read, check_read,
  data_buffer_parse, at_eof, is_log_cut, read_done, read_open, relocated, read_from, log_read,
  ReadError, log_relocate, close_old, log_file_open, save_info,
}
use log_reader.Reader.Start.{PbLogReader, after_read, start_turn, start_loop}
use log_reader.Reader.Start.Turns.{FileTurn, grows, waits, turn_io}

-- `newLogFileReader`, whose `fileInfo` is not read before a file is open: it is an argument here.
unfoldable pub new_log_file_reader : ℕ → Counters → LogFileReader
new_log_file_reader info state = record {
  log_fd = none;
  file_info = info;
  init_done = false;
  data_buffer = [];
  state = state;
}

-- `NewPbLogReader`.
unfoldable pub new_pb_log_reader : {M : Type 0} → ℕ → Counters → PbLogReader M
unfolding new_log_file_reader
new_pb_log_reader info state = record {
  file = new_log_file_reader info state;
  modules = none;
  max_size_per_batch = negsuc 0;
  sum_read_records_empty = 0;
  sum_pb_batch_count = 0;
}

unfoldable pub set_max_size_per_batch : {M : Type 0} → ℤ → PbLogReader M → PbLogReader M
set_max_size_per_batch n s = record s { max_size_per_batch = n }

-- `Bind`.
unfoldable pub bind : {M : Type 0} → ModuleMap M → PbLogReader M → PbLogReader M
bind ms s = record s { modules = some ms }

-- Why a turn does not open the file: there is none, or a call fails, after which closing the file
-- may fail as well.
pub data Attempt : Type 0 where
  missing : Attempt
  cannot_open : Attempt
  cannot_seek : Bool → Attempt
  cannot_stat : Bool → Attempt

abbrev opening : Attempt → OpenAnswers
opening missing = record { open_ok = false; seek_ok = true; stat = none; close_ok = true }
opening cannot_open = record { open_ok = false; seek_ok = true; stat = none; close_ok = true }
opening (cannot_seek closed) = record {
  open_ok = true;
  seek_ok = false;
  stat = none;
  close_ok = closed;
}
opening (cannot_stat closed) = record {
  open_ok = true;
  seek_ok = true;
  stat = none;
  close_ok = closed;
}

abbrev pub attempt_io : Attempt → Io
attempt_io a = record (data_io []) {
  missing = elim a [ missing ↦ true | _ ↦ false ];
  opening = opening a;
}

-- The answers of a turn that opens the file first.
abbrev pub opens : ℕ → Io → Io
opens id io = record io {
  missing = false;
  opening = record { open_ok = true; seek_ok = true; stat = some id; close_ok = true };
}

module _ (codec : Codec) (from_begin : Bool) where
  log_read-attempt_io :
      (a : Attempt) (info : ℕ) (cs : Counters)
      → (e : ReadError) × (cs' : Counters) × (log_read codec from_begin
            (attempt_io a)
            (new_log_file_reader info cs)
          ≡ (err e, new_log_file_reader info cs'))
  unfolding new_log_file_reader log_read read_from relocated log_relocate close_old log_file_open
      save_info
  log_read-attempt_io missing info cs = (_, _, refl)
  log_read-attempt_io cannot_open info cs = (_, _, refl)
  log_read-attempt_io (cannot_seek closed) info cs = (_, _, refl)
  log_read-attempt_io (cannot_stat closed) info cs = (_, _, refl)

  log_read-opens :
      (t : FileTurn) (id info : ℕ) (cs : Counters)
      → (cs' : Counters) × (log_read codec from_begin
            (opens id (turn_io id t))
            (new_log_file_reader info cs)
          ≡ log_read codec from_begin
              (turn_io id t)
              (following id (some (whence from_begin)) [] cs'))
  unfolding new_log_file_reader log_read read_from relocated log_relocate close_old log_file_open
      save_info read_open file_read f_read check_read read_done data_buffer_parse at_eof is_log_cut
  log_read-opens (grows c) id info cs =
      (record cs { pb_log_relocate = suc cs.pb_log_relocate }, refl)
  log_read-opens waits id info cs =
      (record cs { pb_log_relocate = suc cs.pb_log_relocate }, rw (==-self id) refl)

  -- Turns that do not open the file deliver nothing and leave the reader as it was, except for its
  -- counters; the turn that opens it does what it would do at the open file.
  pub start_loop-opens :
      {M : Type 0} (tries : List Attempt) (t : FileTurn) (ios : List Io) (id info : ℕ)
      (cs : Counters) (s : PbLogReader M)
      → (cs' : Counters) × (start_loop codec from_begin
            (map attempt_io tries ++ (opens id (turn_io id t) ∷ ios))
            (record s { file = new_log_file_reader info cs })
          ≡ start_loop codec from_begin
              (turn_io id t ∷ ios)
              (record s { file = following id (some (whence from_begin)) [] cs' }))
  unfolding start_loop start_turn after_read
  start_loop-opens [] t ios id info cs s =
      let (cs', e) = log_read-opens t id info cs in (cs', rw e refl)
  start_loop-opens (a ∷ tries) t ios id info cs s =
      let (e, cs', failed) = log_read-attempt_io a info cs in
      let (cs'', rest) = start_loop-opens tries t ios id info cs' s in (cs'', rw failed rest)
