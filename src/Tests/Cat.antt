-- ===== src/Tests/Cat.antt =====
-- The theorem on the command `cat`, at frames of two bytes.
use log_reader.Prelude.{
  String, ◌≡◌, refl, [], ◌∷◌, ◌++◌, List, Option, none, Result, true, false, some, ok, concat,
}
use log_reader.Reader.Parse.{pb_buff_parse}
use log_reader.Cat.{
  CatState, CatEvent, CatError, produce, consume, pblog_cat, cat_run, cat_step, produced,
}
use log_reader.Reader.{LogFileReader, log_file_open, save_info, file_read, f_read, check_read}
use log_reader.Cat.Turns.{reads}
use log_reader.Cat.Completes.{rounds, pblog_cat-completes}
use log_reader.Cat.Action.{numbered, time_taken, cat_action, cat_action-completes}
use log_reader.Fields.Log.{BfeLog}
use log_reader.Tests.Samples.{sample_log}
use log_reader.Tests.Reader.{codec, framing, chunks, counters}

-- The second goroutine runs before there is a buffer, and the first twice in a row.
abbrev ended : List CatEvent → Option (Result CatError CatState × LogFileReader)
ended es =
    pblog_cat codec true false
      (record { open_ok = true; seek_ok = true; stat = some 5; close_ok = true }) counters true
      (reads chunks) es

pblog_cat-completes_test :
    (s : CatState) × (lr : LogFileReader) × (ended
        ((consume ∷ produce ∷ produce ∷ consume ∷ []) ++ rounds 7)
      ≡ some (ok s, lr))
    × (concat s.shown ≡ sample_log ∷ sample_log ∷ [])
unfolding pb_buff_parse
pblog_cat-completes_test =
    pblog_cat-completes codec true false framing chunks (consume ∷ produce ∷ produce ∷ consume ∷ [])
      5 counters refl

-- While the second goroutine has not returned, the command waits.
wait_test : ended (produce ∷ produce ∷ produce ∷ produce ∷ []) ≡ none
unfolding pblog_cat cat_run log_file_open save_info cat_step produced file_read f_read check_read
wait_test = refl

abbrev show : BfeLog → String
show r = "record"

-- Both records of the file, with their numbers.
cat_action-completes_example :
    cat_action show
      (λ path. true)
      (λ path. ended ((produce ∷ []) ++ rounds 7))
      true
      "pbtool"
      ("cat" ∷ "-n" ∷ "/tmp/a.log" ∷ [])
    ≡ some (ok tt, numbered 1 "record" ∷ numbered 2 "record" ∷ time_taken ∷ [])
unfolding pb_buff_parse
cat_action-completes_example =
    cat_action-completes codec true false framing chunks (produce ∷ []) 5 counters show
      (λ path. true) true "pbtool" ("cat" ∷ "-n" ∷ "/tmp/a.log" ∷ []) refl refl
