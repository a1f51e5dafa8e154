-- ===== src/Reader.antt =====
-- `logRead` of bfe_log_reader/log_reader.go and pb_log_reader.go, over Reader/LogFile. What the
-- operating system answers to the calls of one `logRead` is an argument (`Io`).
mod LogFile
pub mod Framing
pub mod Parse
pub mod Batch
pub mod Dispatch
pub mod Stream
pub mod Start
pub mod Goroutines
pub mod State
pub mod Rotation
use log_reader.Prelude.{
  ℕ, suc, ◌+◌, ◌*◌, Bool, true, false, not, ◌&&◌, List, [], ◌∷◌, ◌++◌, Option, none, some, Result,
  ok, err, ltb, ◌==◌, if◌then◌else◌, length,
}
use log_reader.Fields.Log.{BfeLog}
use Parse.{Codec, pb_buff_parse}
pub use LogFile.{
  Counters, Fd, LogFileReader, max_buff_size, OpenAnswers, ReadAnswer, bytes, eof, fails, Io,
  count_close, whence,
}
unfoldable pub use LogFile.{
  save_info, log_file_open, close_old, log_relocate, close_file_and_init, is_log_cut, f_read,
  check_read, file_read,
}

-- Why `logRead` returns an error.
pub data ReadError : Type 0 where
  file_missing relocate_failed read_failed : ReadError

module _ (codec : Codec) (from_begin : Bool) where
  -- lr.DataBuffer = append(lr.DataBuffer, data...); records = lr.DataBufferParse()
  unfoldable pub data_buffer_parse : List ℕ → LogFileReader → List BfeLog × LogFileReader
  unfolding pb_buff_parse
  data_buffer_parse d lr =
      let p : List BfeLog × List ℕ × ℕ = pb_buff_parse codec (lr.data_buffer ++ d) in
      (
        p.0,
        record lr {
          data_buffer = p.1;
          state = record lr.state {
            err_pb_decode = lr.state.err_pb_decode + p.2;
            sum_pb_record = lr.state.sum_pb_record + length p.0;
          };
        },
      )

  -- if err == nil && len(data) != 0 { append and parse }
  unfoldable pub left_over : Option (List ℕ) → LogFileReader → List BfeLog × LogFileReader
  unfolding data_buffer_parse
  left_over none lr = ([], lr)
  left_over (some []) lr = ([], lr)
  left_over (some (b ∷ d)) lr = data_buffer_parse (b ∷ d) lr

  -- There is a new file: read what is left of the old one, open the new one, and drop the buffer.
  unfoldable pub rotate : Io → LogFileReader → List BfeLog × LogFileReader
  unfolding file_read log_relocate left_over
  rotate io lr =
      let (d, lr') = file_read 0 io.read_all io.close_ok lr in
      let (records, lr'') = left_over d (log_relocate from_begin io.close_ok io.opening lr') in
      (records, record lr'' { data_buffer = [] })

  -- `eofHandler` and the code of `logRead` around it.
  unfoldable pub at_eof : Io → LogFileReader → List BfeLog × LogFileReader
  unfolding is_log_cut rotate
  at_eof io lr = if is_log_cut io.path_info lr then rotate io lr else ([], lr)

  -- `logRead` after its `FileRead`.
  unfoldable pub read_done :
      Io → Option (List ℕ) → LogFileReader → Result ReadError (List BfeLog) × LogFileReader
  unfolding at_eof
  read_done io none lr = (err read_failed, lr)
  read_done io (some []) lr =
      let (records, lr') = at_eof io (record lr {
        state = record lr.state { sum_read_data_empty = suc lr.state.sum_read_data_empty };
      }) in
      (ok records, lr')
  read_done io (some (b ∷ d)) lr =
      let (records, lr') = data_buffer_parse (b ∷ d) lr in (ok records, lr')

  -- `logRead` once the file is open.
  unfoldable pub read_open : Io → LogFileReader → Result ReadError (List BfeLog) × LogFileReader
  unfolding file_read read_done
  read_open io lr =
      let (d, lr') = file_read max_buff_size io.read io.close_ok lr in
      read_done io d
        (record lr' { state = record lr'.state { sum_read_data = suc lr'.state.sum_read_data } })

  -- if lr.LogFd == nil { return nil, fmt.Errorf("logRelocate() fail") }
  unfoldable pub relocated :
      Io → Option Fd → LogFileReader → Result ReadError (List BfeLog) × LogFileReader
  unfolding read_open
  relocated io none lr = (err relocate_failed, lr)
  relocated io (some fd) lr = read_open io lr

  -- `logRead` for the file that is open: none, or one.
  unfoldable pub read_from :
      Io → Option Fd → LogFileReader → Result ReadError (List BfeLog) × LogFileReader
  unfolding log_relocate relocated
  read_from io (some fd) lr = read_open io lr
  read_from io none lr =
      let lr' : LogFileReader =
        log_relocate from_begin io.close_ok io.opening (record lr { data_buffer = [] }) in
      if io.missing then (err file_missing, lr) else relocated io lr'.log_fd lr'

  unfoldable pub log_read : Io → LogFileReader → Result ReadError (List BfeLog) × LogFileReader
  unfolding read_from
  log_read io lr = read_from io lr.log_fd lr
