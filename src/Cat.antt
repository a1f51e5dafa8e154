-- ===== src/Cat.antt =====
-- The command `cat` of bfe-pblog-tool: cmd/bfe-pblog-tool/cat/pb_cat.go. The goroutine that reads the
-- file and the one that parses are the events `produce` and `consume`, in any order; they share the
-- channel and the reader. The answers of the operating system are arguments.
pub mod Turns
pub mod Completes
pub mod Action
use log_reader.Prelude.{
  ℕ, zero, suc, Bool, true, false, List, [], ◌∷◌, ◌++◌, Option, none, some, Result, ok, err, ltb,
  if◌then◌else◌, length, is_nil, ◌&&◌,
}
use log_reader.Fields.Log.{BfeLog}
use log_reader.Reader.{
  Counters, LogFileReader, OpenAnswers, ReadAnswer, eof, log_file_open, close_file_and_init,
  file_read, data_buffer_parse,
}
use log_reader.Reader.Parse.{Codec}

-- `bufChan`, whether it is closed, the reader, the answers of the reads to come (after them the file
-- ends), and the records of each call of the callback.
pub record CatState : Type 0 where
  pub channel : List (List ℕ)
  pub closed : Bool
  pub pbr : LogFileReader
  pub answers : List ReadAnswer
  pub shown : List (List BfeLog)

pub data CatEvent : Type 0 where
  produce consume : CatEvent

pub data CatError : Type 0 where
  open_error seek_error : CatError

abbrev pub channel_size : ℕ
channel_size = 1024

-- The reader of `NewPbLogReader`.
abbrev pub new_pb_log_reader : Counters → LogFileReader
new_pb_log_reader counters = record {
  log_fd = none;
  file_info = 0;
  init_done = false;
  data_buffer = [];
  state = counters;
}

abbrev pub next_answer : List ReadAnswer → ReadAnswer
next_answer [] = eof
next_answer (a ∷ more) = a

abbrev pub later_answers : List ReadAnswer → List ReadAnswer
later_answers [] = []
later_answers (a ∷ more) = more

module _ (codec : Codec) (close_ok : Bool) where
  -- What the first goroutine does with what `FileRead` returns. A send waits while the channel is full.
  unfoldable pub produced : Option (List ℕ) × LogFileReader → CatState → CatState
  produced (none, lr) s = record s { closed = true; pbr = lr }
  produced (some [], lr) s = record s { closed = true; pbr = lr }
  produced (some (b ∷ d), lr) s =
      if ltb (length s.channel) channel_size
      then record s {
        channel = s.channel ++ ((b ∷ d) ∷ []);
        pbr = lr;
        answers = later_answers s.answers;
      }
      else s

  -- What the second does with a buffer from the channel.
  unfoldable pub consumed : List (List ℕ) → CatState → CatState
  unfolding data_buffer_parse
  consumed [] s = s
  consumed (buf ∷ rest) s =
      let p : List BfeLog × LogFileReader = data_buffer_parse codec false buf s.pbr in
      record s { channel = rest; pbr = p.1; shown = s.shown ++ (p.0 ∷ []) }

  unfoldable pub cat_step : CatState → CatEvent → CatState
  unfolding produced consumed file_read
  cat_step s produce =
      if s.closed then s else produced (file_read 8192 (next_answer s.answers) close_ok s.pbr) s
  cat_step s consume = consumed s.channel s

  unfoldable pub cat_run : CatState → List CatEvent → CatState
  unfolding cat_step
  cat_run s [] = s
  cat_run s (e ∷ es) = cat_run (cat_step s e) es

  -- The state in which the goroutines start.
  abbrev pub cat_start : LogFileReader → List ReadAnswer → CatState
  cat_start lr answers = record {
    channel = [];
    closed = false;
    pbr = lr;
    answers = answers;
    shown = [];
  }

  -- `wg.Wait()`: the first goroutine returns once it has closed the channel, the second one once the
  -- channel is closed and empty. `none` is that the command still waits.
  abbrev pub wait : CatState → Option CatState
  wait s = if s.closed && is_nil s.channel then some s else none

  abbrev pub cat_waited : Option CatState → Option (Result CatError CatState × LogFileReader)
  cat_waited none = none
  cat_waited (some s) = some (ok s, close_file_and_init close_ok s.pbr)

  abbrev pub cat_opened :
      Bool
      → List ReadAnswer
      → List CatEvent
      → Bool × LogFileReader
      → Option (Result CatError CatState × LogFileReader)
  cat_opened seek_ok answers es (false, lr) = some (err open_error, close_file_and_init close_ok lr)
  cat_opened seek_ok answers es (true, lr) =
      let waited : Option (Result CatError CatState × LogFileReader) =
        cat_waited (wait (cat_run (cat_start lr answers) es)) in
      if seek_ok then waited else some (err seek_error, close_file_and_init close_ok lr)

  -- `PblogCat` when the goroutines take the given turns: the state of the goroutines, or an error,
  -- and the reader once it is closed. `none` is that it has not returned by then.
  unfoldable pub pblog_cat :
      Bool
      → OpenAnswers
      → Counters
      → Bool
      → List ReadAnswer
      → List CatEvent
      → Option (Result CatError CatState × LogFileReader)
  unfolding cat_run log_file_open close_file_and_init
  pblog_cat from_begin opening counters seek_ok answers es =
      cat_opened seek_ok answers es (log_file_open from_begin opening (new_pb_log_reader counters))
