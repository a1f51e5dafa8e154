-- ===== src/Reader/LogFile.antt =====
-- `LogFileReader` of bfe_log_reader/log_reader.go with the calls that open, read and close its file.
-- What the operating system answers is an argument.
use log_reader.Prelude.{
  ℕ, suc, ◌*◌, Bool, true, false, not, List, [], Option, none, some, ltb, ◌==◌, if◌then◌else◌,
}

-- The counters of bfe_log_reader/server_status.go: for each key the sum of the increments.
pub record Counters : Type 0 where
  pub err_pb_open : ℕ
  pub err_pb_seek : ℕ
  pub err_pb_stat : ℕ
  pub err_pb_close : ℕ
  pub err_pb_read : ℕ
  pub err_pb_decode : ℕ
  pub sum_read_data : ℕ
  pub sum_read_data_empty : ℕ
  pub pb_log_relocate : ℕ
  pub sum_pb_record : ℕ

-- An open file: its identity (`os.FileInfo`), and the `whence` of the seek after it was opened.
pub record Fd : Type 0 where
  pub info : ℕ
  pub sought : Option ℕ

pub record LogFileReader : Type 0 where
  pub log_fd : Option Fd
  pub file_info : ℕ
  pub init_done : Bool
  pub data_buffer : List ℕ
  pub state : Counters

abbrev pub max_buff_size : ℕ
max_buff_size = 1024 * 1024

-- The answers to `os.Open`, `Seek`, `Stat` (the file's identity) and the `Close` of the new file.
pub record OpenAnswers : Type 0 where
  pub open_ok : Bool
  pub seek_ok : Bool
  pub stat : Option ℕ
  pub close_ok : Bool

-- The answer to `Read` or `ReadAll`. Only `Read` reports the end of the file.
pub data ReadAnswer : Type 0 where
  bytes : List ℕ → ReadAnswer
  eof fails : ReadAnswer

-- All answers of one `logRead`: whether the path does not exist; what it names now (`none` is an
-- error); the two reads; whether closing the old file succeeds; the opening of the file.
pub record Io : Type 0 where
  pub missing : Bool
  pub path_info : Option ℕ
  pub read : ReadAnswer
  pub read_all : ReadAnswer
  pub close_ok : Bool
  pub opening : OpenAnswers

-- if errClose != nil { Inc("ERR_PB_CLOSE", 1) }
abbrev pub count_close : Bool → Counters → Counters
count_close true c = c
count_close false c = record c { err_pb_close = suc c.err_pb_close }

module _ (from_begin : Bool) where
  abbrev pub whence : ℕ
  whence = if from_begin then 0 else 2

  -- The end of `LogFileOpen`, where the new file is known by its stat.
  unfoldable pub save_info : Option ℕ → Bool → Option ℕ → LogFileReader → Bool × LogFileReader
  save_info none close_ok sought lr = (
    false,
    record lr {
      state = count_close close_ok (record lr.state { err_pb_stat = suc lr.state.err_pb_stat });
    },
  )
  save_info (some fi) close_ok sought lr = (
    true,
    record lr {
      log_fd = some (record { info = fi; sought = sought });
      file_info = fi;
      init_done = true;
    },
  )

  -- `LogFileOpen`: whether it succeeds.
  unfoldable pub log_file_open : OpenAnswers → LogFileReader → Bool × LogFileReader
  unfolding save_info
  log_file_open a lr =
      if not a.open_ok
      then (false, record lr { state = record lr.state { err_pb_open = suc lr.state.err_pb_open } })
      else if lr.init_done
      then save_info a.stat a.close_ok none lr
      else if not a.seek_ok
      then (
        false,
        record lr {
          state =
              count_close a.close_ok (record lr.state { err_pb_seek = suc lr.state.err_pb_seek });
        },
      )
      else save_info a.stat a.close_ok (some whence) lr

  unfoldable pub close_old : Option Fd → Bool → LogFileReader → LogFileReader
  close_old none close_ok lr = lr
  close_old (some fd) close_ok lr = record lr {
    log_fd = none;
    state = count_close close_ok lr.state;
  }

  unfoldable pub log_relocate : Bool → OpenAnswers → LogFileReader → LogFileReader
  unfolding close_old log_file_open
  log_relocate close_ok a lr =
      (log_file_open a (
        close_old lr.log_fd close_ok (record lr {
          state = record lr.state { pb_log_relocate = suc lr.state.pb_log_relocate };
        }))).1

-- `CloseFileAndInit`: closing a nil file is an error too.
unfoldable pub close_file_and_init : Bool → LogFileReader → LogFileReader
close_file_and_init close_ok lr =
    let closed : Bool = elim lr.log_fd [ none ↦ false | some fd ↦ close_ok ] in
    record lr {
      log_fd = none;
      data_buffer = [];
      init_done = false;
      state = count_close closed lr.state;
    }

unfoldable pub is_log_cut : Option ℕ → LogFileReader → Bool
is_log_cut path_info lr = elim path_info [ none ↦ false | some fi ↦ not (fi == lr.file_info) ]

-- `fRead`: `none` is an error. ReadAll and Read differ in the size that the answer may have.
unfoldable pub f_read : ℕ → ReadAnswer → Option (List ℕ)
f_read max_size a =
    if ltb max_buff_size max_size
    then none
    else elim a [ bytes d ↦ some d | eof ↦ some [] | fails ↦ none ]

-- if err != nil { Inc("ERR_PB_READ", 1); CloseFileAndInit() }
unfoldable pub check_read : Option (List ℕ) → Bool → LogFileReader → LogFileReader
unfolding close_file_and_init
check_read (some d) close_ok lr = lr
check_read none close_ok lr =
    close_file_and_init close_ok
      (record lr { state = record lr.state { err_pb_read = suc lr.state.err_pb_read } })

unfoldable pub file_read : ℕ → ReadAnswer → Bool → LogFileReader → Option (List ℕ) × LogFileReader
unfolding f_read check_read
file_read max_size a close_ok lr =
    let d : Option (List ℕ) = f_read max_size a in (d, check_read d close_ok lr)
