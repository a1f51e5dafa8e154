-- ===== src/Cat/Action.antt =====
-- The command line of `cat`: cmd/bfe-pblog-tool/cat/cat.go. How a record is written as a text, the
-- `String` of the generated package, is a parameter, as is what `os.Stat` says of a path.
use log_reader.Prelude.{
  ℕ, suc, ◌+◌, ◌*◌, String, Bool, true, false, List, [], ◌∷◌, ◌++◌, Option, none, some, Result, ok,
  err, ◌≡◌, refl, sym, ap, ◌∙◌, if◌then◌else◌, length, concat, map, map-append,
}
use log_reader.Fields.Log.{BfeLog}
use log_reader.Cat.{CatState, CatError, CatEvent, pblog_cat}
use log_reader.Cat.Turns.{reads, all_bytes}
use log_reader.Cat.Completes.{rounds, pblog_cat-completes}
use log_reader.Reader.Framing.{Framing}
use log_reader.Reader.Parse.{Codec, pb_buff_parse}
use log_reader.Reader.{Counters, LogFileReader, OpenAnswers}

-- A line that is printed: a record with its number, a record, or the time that was taken.
pub data Line : Type 0 where
  numbered : ℕ → String → Line
  plain : String → Line
  time_taken : Line

pub data ActionError : Type 0 where
  stat_error : ActionError
  cat_error : CatError → ActionError

-- os.Args[len(os.Args)-1]; there is always the name of the program.
abbrev pub last_arg : String → List String → String
last_arg program [] = program
last_arg program (a ∷ more) = last_arg a more

module _ (n : Bool) where
  -- One call of the callback: the lines, and `i` after it.
  unfoldable pub print_batch : ℕ → List String → List Line × ℕ
  print_batch i [] = ([], i)
  print_batch i (r ∷ res) =
      let i' : ℕ = if n then suc i else i in
      let rest : List Line × ℕ = print_batch i' res in
      ((if n then numbered i' r else plain r) ∷ rest.0, rest.1)

  unfoldable pub print_batches : ℕ → List (List String) → List Line × ℕ
  unfolding print_batch
  print_batches i [] = ([], i)
  print_batches i (res ∷ more) =
      let one : List Line × ℕ = print_batch i res in
      let rest : List Line × ℕ = print_batches one.1 more in (one.0 ++ rest.0, rest.1)

abbrev pub shown_by : (BfeLog → String) → Result CatError CatState → List (List String)
shown_by show (ok s) = map (map show) s.shown
shown_by show (err e) = []

abbrev pub outcome_of : Result CatError CatState → Result ActionError (Unit {0})
outcome_of (ok s) = ok tt
outcome_of (err e) = err (cat_error e)

-- Once `PblogCat` has returned, if it has.
unfoldable pub after_cat :
    (BfeLog → String)
    → Bool
    → Option (Result CatError CatState × LogFileReader)
    → Option (Result ActionError (Unit {0}) × List Line)
unfolding print_batches
after_cat show n none = none
after_cat show n (some (r, lr)) =
    some (outcome_of r, (print_batches n 0 (shown_by show r)).0 ++ (time_taken ∷ []))

-- `Action`, where `run` is `PblogCat` of a path: its error, and what is printed. `none` is that the
-- command has not ended.
unfoldable pub cat_action :
    (BfeLog → String)
    → (String → Bool)
    → (String → Option (Result CatError CatState × LogFileReader))
    → Bool
    → String
    → List String
    → Option (Result ActionError (Unit {0}) × List Line)
unfolding after_cat
cat_action show stat run n program args =
    let ended : Option (Result ActionError (Unit {0}) × List Line) =
      after_cat show n (run (last_arg program args)) in
    if stat (last_arg program args) then ended else some (err stat_error, [])

-- The lines of all records, numbered from i + 1 on if asked for.
abbrev pub lines_from : Bool → ℕ → List String → List Line
lines_from n i [] = []
lines_from true i (r ∷ rs) = numbered (suc i) r ∷ lines_from true (suc i) rs
lines_from false i (r ∷ rs) = plain r ∷ lines_from false i rs

print_batch-lines_from :
    (n : Bool) (i : ℕ) (res more : List String)
    → (print_batch n i res).0 ++ lines_from n (print_batch n i res).1 more
      ≡ lines_from n i (res ++ more)
unfolding print_batch
print_batch-lines_from n i [] more = refl
print_batch-lines_from true i (r ∷ res) more =
    ap (◌∷◌ (numbered (suc i) r)) (print_batch-lines_from true (suc i) res more)
print_batch-lines_from false i (r ∷ res) more =
    ap (◌∷◌ (plain r)) (print_batch-lines_from false i res more)

print_batches-lines_from :
    (n : Bool) (i : ℕ) (batches : List (List String))
    → (print_batches n i batches).0 ≡ lines_from n i (concat batches)
unfolding print_batches
print_batches-lines_from true i [] = refl
print_batches-lines_from false i [] = refl
print_batches-lines_from n i (res ∷ more) =
    ap (◌++◌ (print_batch n i res).0) (print_batches-lines_from n (print_batch n i res).1 more)
    ∙ print_batch-lines_from n i res (concat more)

map-concat :
    (f : BfeLog → String) (rs : List (List BfeLog)) → concat (map (map f) rs) ≡ map f (concat rs)
map-concat f [] = refl
map-concat f (r ∷ rs) = ap (◌++◌ (map f r)) (map-concat f rs) ∙ sym (map-append f r (concat rs))

-- For a codec that frames the stream however it is cut, a path that names a file which can be
-- opened, and reads that find the given bytes and then the end: whatever turns the two goroutines of
-- `PblogCat` have taken, at most 2 n + 1 further turns of each, with n the number of reads, bring the
-- command to its end: both goroutines have returned. There is then no error, and it has printed the records of the file, one in a line,
-- each once and in order, with consecutive numbers from 1 on if the flag n is set, and as the last
-- line the time that was taken.
pub cat_action-completes :
    (codec : Codec) (close_ok from_begin : Bool) (law : Framing codec) (cs : List (ℕ × List ℕ))
    (es : List CatEvent) (info : ℕ) (counters : Counters) (show : BfeLog → String)
    (stat : String → Bool) (n : Bool) (program : String) (args : List String)
    → codec.buff_parse [] ≡ ([], [])
    → stat (last_arg program args) ≡ true
    → let opening : OpenAnswers = record {
      open_ok = true;
      seek_ok = true;
      stat = some info;
      close_ok = true;
    } in
      cat_action show stat
        (λ path.
          pblog_cat codec close_ok from_begin opening counters true
            (reads cs)
            (es ++ rounds (2 * length cs + 1)))
        n
        program
        args
      ≡ some (
        ok tt,
        lines_from n 0 (map show (pb_buff_parse codec (all_bytes cs)).0) ++ (time_taken ∷ []),
      )
unfolding cat_action after_cat
cat_action-completes codec close_ok from_begin law cs es info counters show stat n program args
      nothing found =
    let (s, lr, ended, shown) =
      pblog_cat-completes codec close_ok from_begin law cs es info counters nothing in
    rw (found, ended)
      (ap (λ (l : List Line). some (ok tt, l ++ (time_taken ∷ [])))
        (print_batches-lines_from n 0 (map (map show) s.shown)
          ∙ ap (lines_from n 0) (map-concat show s.shown ∙ ap (map show) shown)))
