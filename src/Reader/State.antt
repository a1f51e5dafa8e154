-- ===== src/Reader/State.antt =====
-- What one `logRead` does to the state of `LogFileReader` (bfe_log_reader/log_reader.go).
use log_reader.Prelude.{
  ok, err, false, ℕ, Bool, true, List, [], ◌∷◌, Option, none, some, Result, ◌≡◌, refl, not, if_elim,
}
use log_reader.Fields.Log.{BfeLog}
use log_reader.Reader.Parse.{Codec}
use log_reader.Reader.{
  file_missing, relocate_failed, read_failed, close_file_and_init, Fd, LogFileReader, OpenAnswers,
  Io, save_info, log_file_open, log_relocate, close_old, close_file_and_init, f_read, file_read,
  check_read, data_buffer_parse, left_over, rotate, at_eof, read_done, read_open, relocated,
  read_from, log_read, ReadError, is_log_cut, whence, max_buff_size,
}

-- An open file is initialised, and its identity is the one that `isLogCut` compares with.
abbrev pub HasFd : Option Fd → Bool → ℕ → Type 0
HasFd none done info = Unit
HasFd (some fd) done info = (done ≡ true) × (fd.info ≡ info)

abbrev pub Opened : LogFileReader → Type 0
Opened lr = HasFd lr.log_fd lr.init_done lr.file_info

module _ (from_begin : Bool) where
  save_info-Opened :
      (stat : Option ℕ) (close_ok : Bool) (sought : Option ℕ) (lr : LogFileReader)
      → Opened lr
      → Opened (save_info from_begin stat close_ok sought lr).1
  unfolding save_info
  save_info-Opened none close_ok sought lr h = h
  save_info-Opened (some fi) close_ok sought lr h = (refl, refl)

  log_file_open-Opened :
      (a : OpenAnswers) (lr : LogFileReader) → Opened lr → Opened (log_file_open from_begin a lr).1
  unfolding log_file_open
  log_file_open-Opened a lr h =
      if_elim (λ (r : Bool × LogFileReader). Opened r.1) (not a.open_ok) _ _ h
        (if_elim (λ (r : Bool × LogFileReader). Opened r.1) lr.init_done _ _
          (save_info-Opened a.stat a.close_ok none lr h)
          (if_elim (λ (r : Bool × LogFileReader). Opened r.1) (not a.seek_ok) _ _ h
            (save_info-Opened a.stat a.close_ok (some (whence from_begin)) lr h)))

  close_old-Opened :
      (fd : Option Fd) (close_ok : Bool) (lr : LogFileReader)
      → Opened lr
      → Opened (close_old from_begin fd close_ok lr)
  unfolding close_old
  close_old-Opened none close_ok lr h = h
  close_old-Opened (some fd) close_ok lr h = tt

  log_relocate-Opened :
      (close_ok : Bool) (a : OpenAnswers) (lr : LogFileReader)
      → Opened lr
      → Opened (log_relocate from_begin close_ok a lr)
  unfolding log_relocate
  log_relocate-Opened close_ok a lr h =
      log_file_open-Opened a _ (close_old-Opened lr.log_fd close_ok _ h)

check_read-Opened :
    (d : Option (List ℕ)) (close_ok : Bool) (lr : LogFileReader)
    → Opened lr
    → Opened (check_read d close_ok lr)
unfolding check_read close_file_and_init
check_read-Opened none close_ok lr h = tt
check_read-Opened (some d) close_ok lr h = h

module _ (codec : Codec) (from_begin : Bool) where
  left_over-Opened :
      (d : Option (List ℕ)) (lr : LogFileReader)
      → Opened lr
      → Opened (left_over codec from_begin d lr).1
  unfolding left_over data_buffer_parse
  left_over-Opened none lr h = h
  left_over-Opened (some []) lr h = h
  left_over-Opened (some (b ∷ d)) lr h = h

  rotate-Opened :
      (io : Io) (lr : LogFileReader) → Opened lr → Opened (rotate codec from_begin io lr).1
  unfolding rotate file_read
  rotate-Opened io lr h =
      let d : Option (List ℕ) = f_read 0 io.read_all in
      left_over-Opened d _ (
        log_relocate-Opened from_begin io.close_ok io.opening _
          (check_read-Opened d io.close_ok lr h))

  at_eof-Opened :
      (io : Io) (lr : LogFileReader) → Opened lr → Opened (at_eof codec from_begin io lr).1
  unfolding at_eof
  at_eof-Opened io lr h =
      if_elim (λ (r : List BfeLog × LogFileReader). Opened r.1) (is_log_cut io.path_info lr) _ _
        (rotate-Opened io lr h) h

  read_done-Opened :
      (io : Io) (d : Option (List ℕ)) (lr : LogFileReader)
      → Opened lr
      → Opened (read_done codec from_begin io d lr).1
  unfolding read_done data_buffer_parse
  read_done-Opened io none lr h = h
  read_done-Opened io (some []) lr h = at_eof-Opened io _ h
  read_done-Opened io (some (b ∷ d)) lr h = h

  read_open-Opened :
      (io : Io) (lr : LogFileReader) → Opened lr → Opened (read_open codec from_begin io lr).1
  unfolding read_open file_read
  read_open-Opened io lr h =
      let d : Option (List ℕ) = f_read max_buff_size io.read in
      read_done-Opened io d _ (check_read-Opened d io.close_ok lr h)

  relocated-Opened :
      (io : Io) (fd : Option Fd) (lr : LogFileReader)
      → Opened lr
      → Opened (relocated codec from_begin io fd lr).1
  unfolding relocated
  relocated-Opened io none lr h = h
  relocated-Opened io (some fd) lr h = read_open-Opened io lr h

  read_from-Opened :
      (io : Io) (fd : Option Fd) (lr : LogFileReader)
      → Opened lr
      → Opened (read_from codec from_begin io fd lr).1
  unfolding read_from
  read_from-Opened io (some fd) lr h = read_open-Opened io lr h
  read_from-Opened io none lr h =
      if_elim (λ (r : Result ReadError (List BfeLog) × LogFileReader). Opened r.1) io.missing _ _ h
        (relocated-Opened io _ _ (
          log_relocate-Opened from_begin io.close_ok io.opening (record lr { data_buffer = [] }) h))

  -- Whatever the calls to the operating system answer, `logRead` keeps: if a file is open, the
  -- reader is initialised, and the saved identity, which `isLogCut` compares, is that of this file.
  pub log_read-Opened :
      (io : Io) (lr : LogFileReader) → Opened lr → Opened (log_read codec from_begin io lr).1
  unfolding log_read
  log_read-Opened io lr h = read_from-Opened io lr.log_fd lr h

-- What an error of `logRead` says about the state: no file is open, so the next round opens one;
-- after a failed read the buffer is empty and the reader starts anew.
abbrev pub AfterError : Result ReadError (List BfeLog) → LogFileReader → Type 0
AfterError (ok records) lr = Unit
AfterError (err file_missing) lr = lr.log_fd ≡ none
AfterError (err relocate_failed) lr = lr.log_fd ≡ none
AfterError (err read_failed) lr =
    (lr.log_fd ≡ none) × (lr.data_buffer ≡ []) × (lr.init_done ≡ false)

module _ (codec : Codec) (from_begin : Bool) where
  read_checked-AfterError :
      (io : Io) (d : Option (List ℕ)) (close_ok : Bool) (lr : LogFileReader) (n : ℕ)
      → let r : Result ReadError (List BfeLog) × LogFileReader =
          read_done codec from_begin io d (record (check_read d close_ok lr) {
            state = record (check_read d close_ok lr).state { sum_read_data = n };
          }) in
        AfterError r.0 r.1
  unfolding read_done check_read close_file_and_init
  read_checked-AfterError io none close_ok lr n = (refl, refl, refl)
  read_checked-AfterError io (some []) close_ok lr n = tt
  read_checked-AfterError io (some (b ∷ d)) close_ok lr n = tt

  read_open-AfterError :
      (io : Io) (lr : LogFileReader)
      → AfterError (read_open codec from_begin io lr).0 (read_open codec from_begin io lr).1
  unfolding read_open file_read
  read_open-AfterError io lr =
      read_checked-AfterError io (f_read max_buff_size io.read) io.close_ok lr _

  relocated-AfterError :
      (io : Io) (fd : Option Fd) (lr : LogFileReader)
      → lr.log_fd ≡ fd
      → AfterError (relocated codec from_begin io fd lr).0 (relocated codec from_begin io fd lr).1
  unfolding relocated
  relocated-AfterError io none lr e = e
  relocated-AfterError io (some fd) lr e = read_open-AfterError io lr

  read_from-AfterError :
      (io : Io) (fd : Option Fd) (lr : LogFileReader)
      → lr.log_fd ≡ fd
      → AfterError (read_from codec from_begin io fd lr).0 (read_from codec from_begin io fd lr).1
  unfolding read_from
  read_from-AfterError io (some fd) lr e = read_open-AfterError io lr
  read_from-AfterError io none lr e =
      if_elim (λ (r : Result ReadError (List BfeLog) × LogFileReader). AfterError r.0 r.1)
        io.missing _ _ e (relocated-AfterError io _ _ refl)

  -- Whatever the calls to the operating system answer: if `logRead` returns an error, no file is
  -- open, so the next call opens the path; if the error is a failed read, the buffer is empty and the
  -- reader is not initialised.
  pub log_read-AfterError :
      (io : Io) (lr : LogFileReader)
      → AfterError (log_read codec from_begin io lr).0 (log_read codec from_begin io lr).1
  unfolding log_read
  log_read-AfterError io lr = read_from-AfterError io lr.log_fd lr refl
