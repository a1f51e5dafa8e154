-- ===== src/Reader/Start/Counts.antt =====
-- What the loop of `Start` gives to each module, and what its counters say, whatever is read.
use log_reader.Prelude.{
  ℕ, suc, ◌+◌, not, Bool, true, false, if_elim, List, [], ◌∷◌, ◌++◌, Option, none, some, Result,
  err, ◌≡◌, refl, ◌∙◌, arith, length, length-append,
}
use log_reader.Fields.Log.{BfeLog}
use log_reader.Reader.Parse.{Codec}
use log_reader.Reader.Stream.{delivered}
use log_reader.Reader.{
  Counters, Fd, LogFileReader, Io, ReadError, OpenAnswers, save_info, log_file_open, close_old,
  log_relocate, close_file_and_init, check_read, f_read, file_read, count_close, data_buffer_parse,
  left_over, rotate, is_log_cut, whence, file_missing, at_eof, read_done, read_open, relocated,
  read_from, log_read, max_buff_size,
}

module _ (codec : Codec) (from_begin : Bool) where
  -- The records that the calls of `logRead` return, in order.
  unfoldable pub log_run : List Io → LogFileReader → List BfeLog × LogFileReader
  log_run [] lr = ([], lr)
  log_run (io ∷ ios) lr =
      let r : Result ReadError (List BfeLog) × LogFileReader = log_read codec from_begin io lr in
      let rest : List BfeLog × LogFileReader = log_run ios r.1 in (delivered r.0 ++ rest.0, rest.1)

  -- SUM_PB_RECORD goes up by the number of records.
  abbrev pub Counted : LogFileReader → List BfeLog → LogFileReader → Type 0
  Counted lr records lr' = lr'.state.sum_pb_record ≡ lr.state.sum_pb_record + length records

  count_close-same : (b : Bool) (c : Counters) → (count_close b c).sum_pb_record ≡ c.sum_pb_record
  count_close-same true c = refl
  count_close-same false c = refl

  save_info-same :
      (o : Option ℕ) (close_ok : Bool) (sought : Option ℕ) (lr : LogFileReader)
      → (save_info from_begin o close_ok sought lr).1.state.sum_pb_record ≡ lr.state.sum_pb_record
  unfolding save_info
  save_info-same none close_ok sought lr = count_close-same close_ok _
  save_info-same (some fi) close_ok sought lr = refl

  log_file_open-same :
      (a : OpenAnswers) (lr : LogFileReader)
      → (log_file_open from_begin a lr).1.state.sum_pb_record ≡ lr.state.sum_pb_record
  unfolding log_file_open
  log_file_open-same a lr = if_elim Same (not a.open_ok) _ _ refl (
      if_elim Same lr.init_done _ _ (save_info-same a.stat a.close_ok none lr) (
        if_elim Same (not a.seek_ok) _ _ (count_close-same a.close_ok _)
          (save_info-same a.stat a.close_ok (some (whence from_begin)) lr)))
    where
      Same : Bool × LogFileReader → Type 0
      Same r = r.1.state.sum_pb_record ≡ lr.state.sum_pb_record

  close_old-same :
      (o : Option Fd) (close_ok : Bool) (lr : LogFileReader)
      → (close_old from_begin o close_ok lr).state.sum_pb_record ≡ lr.state.sum_pb_record
  unfolding close_old
  close_old-same none close_ok lr = refl
  close_old-same (some fd) close_ok lr = count_close-same close_ok lr.state

  log_relocate-same :
      (close_ok : Bool) (a : OpenAnswers) (lr : LogFileReader)
      → (log_relocate from_begin close_ok a lr).state.sum_pb_record ≡ lr.state.sum_pb_record
  unfolding log_relocate
  log_relocate-same close_ok a lr = log_file_open-same a _ ∙ close_old-same lr.log_fd close_ok _

  check_read-same :
      (d : Option (List ℕ)) (close_ok : Bool) (lr : LogFileReader)
      → (check_read d close_ok lr).state.sum_pb_record ≡ lr.state.sum_pb_record
  unfolding check_read close_file_and_init
  check_read-same (some d) close_ok lr = refl
  check_read-same none close_ok lr = count_close-same _ _

  left_over-Counted :
      (d : Option (List ℕ)) (lr : LogFileReader)
      → let r : List BfeLog × LogFileReader = left_over codec from_begin d lr in Counted lr r.0 r.1
  unfolding left_over data_buffer_parse
  left_over-Counted none lr = omega arith
  left_over-Counted (some []) lr = omega arith
  left_over-Counted (some (b ∷ d)) lr = refl

  rotate-Counted :
      (io : Io) (lr : LogFileReader)
      → let r : List BfeLog × LogFileReader = rotate codec from_begin io lr in Counted lr r.0 r.1
  unfolding rotate file_read
  rotate-Counted io lr =
      let d : Option (List ℕ) = f_read 0 io.read_all in
      let lr' : LogFileReader = check_read d io.close_ok lr in
      let lr'' : LogFileReader = log_relocate from_begin io.close_ok io.opening lr' in
      omega (
        arith,
        left_over-Counted d lr'',
        log_relocate-same io.close_ok io.opening lr',
        check_read-same d io.close_ok lr,
      )

  abbrev CountedResult : LogFileReader → Result ReadError (List BfeLog) × LogFileReader → Type 0
  CountedResult lr r = Counted lr (delivered r.0) r.1

  read_done-Counted :
      (io : Io) (d : Option (List ℕ)) (lr : LogFileReader)
      → CountedResult lr (read_done codec from_begin io d lr)
  unfolding read_done at_eof data_buffer_parse
  read_done-Counted io none lr = omega arith
  read_done-Counted io (some []) lr =
      let lr' : LogFileReader = record lr {
        state = record lr.state { sum_read_data_empty = suc lr.state.sum_read_data_empty };
      } in
      if_elim (λ (r : List BfeLog × LogFileReader). Counted lr r.0 r.1)
        (is_log_cut io.path_info lr') _ ([], lr') (rotate-Counted io lr') (omega arith)
  read_done-Counted io (some (b ∷ d)) lr = refl

  read_open-Counted :
      (io : Io) (lr : LogFileReader) → CountedResult lr (read_open codec from_begin io lr)
  unfolding read_open file_read
  read_open-Counted io lr =
      let d : Option (List ℕ) = f_read max_buff_size io.read in
      let lr' : LogFileReader = check_read d io.close_ok lr in
      let counted : LogFileReader = record lr' {
        state = record lr'.state { sum_read_data = suc lr'.state.sum_read_data };
      } in
      omega (arith, read_done-Counted io d counted, check_read-same d io.close_ok lr)

  relocated-Counted :
      (io : Io) (o : Option Fd) (lr : LogFileReader)
      → CountedResult lr (relocated codec from_begin io o lr)
  unfolding relocated
  relocated-Counted io none lr = omega arith
  relocated-Counted io (some fd) lr = read_open-Counted io lr

  read_from-Counted :
      (io : Io) (o : Option Fd) (lr : LogFileReader)
      → CountedResult lr (read_from codec from_begin io o lr)
  unfolding read_from
  read_from-Counted io (some fd) lr = read_open-Counted io lr
  read_from-Counted io none lr =
      let lr' : LogFileReader =
        log_relocate from_begin io.close_ok io.opening (record lr { data_buffer = [] }) in
      if_elim (CountedResult lr) io.missing (err file_missing, lr) _ (omega arith)
        (omega (
          arith,
          relocated-Counted io lr'.log_fd lr',
          log_relocate-same io.close_ok io.opening (record lr { data_buffer = [] }),
        ))

  pub log_run-Counted :
      (ios : List Io) (lr : LogFileReader)
      → let r : List BfeLog × LogFileReader = log_run ios lr in Counted lr r.0 r.1
  unfolding log_run log_read
  log_run-Counted [] lr = omega arith
  log_run-Counted (io ∷ ios) lr =
      let r : Result ReadError (List BfeLog) × LogFileReader = log_read codec from_begin io lr in
      omega (
        arith,
        read_from-Counted io lr.log_fd lr,
        log_run-Counted ios r.1,
        length-append (delivered r.0) (log_run ios r.1).0,
      )
