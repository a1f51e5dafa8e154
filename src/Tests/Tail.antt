-- ===== src/Tests/Tail.antt =====
-- The theorems on the command `tail`, at frames of two bytes.
use log_reader.Prelude.{
  ℕ, ◌≤◌, String, leb, length, take, map, ◌≡◌, refl, List, [], ◌∷◌, ◌++◌, true, false, some, none,
  ok, pos, arith,
}
use log_reader.Reader.Parse.{pb_buff_parse}
use log_reader.Tail.Options.{
  TailOptions, OptionsVerdict, validate_tail_options, validate_tail_options-OptionsVerdict,
}
use log_reader.Tail.LastN.{TailFile, Access, works, tail_chunks}
use log_reader.Tail.LastN.OneChunk.{readable}
use log_reader.Tail.LastN.Repeats.{tail_chunks-two}
use log_reader.Tail.Follow.{follow_from}
use log_reader.Tail.Follow.Parsing.{at, always}
use log_reader.Tail.Follow.Growth.{growing, follow_from-grows, follow_from-rotates}
use log_reader.Tail.Command.{FollowInput, CommandEnd, following, pblog_tail, pblog_tail-follows}
use log_reader.Fields.Log.{BfeLog}
use log_reader.Tail.Action.{callback, options_of, ends, tail_action}
use log_reader.Tail.Action.Interrupt.{tail_action-stops}
use log_reader.Tests.Samples.{sample_log}
use log_reader.Tests.Reader.{codec, framing}

abbrev options : TailOptions
options = record { n = pos 2; follow = true; interval = pos 0 }

abbrev accepted : TailOptions
accepted = record { n = pos 2; follow = true; interval = pos 500000000 }

abbrev all_work : ℕ → Access
all_work k = works

abbrev three_records : List ℕ
three_records = 1 ∷ 2 ∷ 3 ∷ 4 ∷ 5 ∷ 6 ∷ []

abbrev turns : List (List ℕ × List ℕ)
turns = (7 ∷ [], 8 ∷ []) ∷ (8 ∷ 9 ∷ [], []) ∷ []

validate_tail_options-OptionsVerdict_test : OptionsVerdict options (validate_tail_options options)
validate_tail_options-OptionsVerdict_test = validate_tail_options-OptionsVerdict options

-- Three records, of which five are shown.
tail_chunks-two_example :
    tail_chunks codec 4 64 (λ k. false) (readable three_records 5 all_work) 9
    ≡ some (record {
      emitted = sample_log ∷ sample_log ∷ sample_log ∷ sample_log ∷ sample_log ∷ [];
      answer = ok (6, 5);
    })
unfolding pb_buff_parse
tail_chunks-two_example =
    tail_chunks-two codec framing 64 9 5 all_work 1 3 (2 ∷ []) (4 ∷ 5 ∷ 6 ∷ []) (omega arith) refl
      (omega arith) refl refl

follow_from-grows_example :
    follow_from codec always 1 true true 6 5 (growing 5 three_records turns)
    ≡ some (at 9 5 (9 ∷ []) (sample_log ∷ []), none)
unfolding pb_buff_parse
follow_from-grows_example =
    follow_from-grows codec framing 1 5 three_records turns (omega arith) refl

follow_from-rotates_example :
    follow_from codec always 1 true true 6 5
      (growing 5 three_records turns ++ growing 6 [] ((1 ∷ [], []) ∷ turns))
    ≡ some (at 4 6 [] (sample_log ∷ sample_log ∷ sample_log ∷ []), none)
unfolding pb_buff_parse
follow_from-rotates_example =
    follow_from-rotates codec framing 1 5 6 three_records (1 ∷ []) [] turns turns (omega arith) refl
      refl

pblog_tail-follows_example :
    pblog_tail codec always
      (readable three_records 5 all_work)
      (record { opens = true; seeks = true; polls = growing 5 three_records turns })
      options
    ≡ some (sample_log ∷ sample_log ∷ sample_log ∷ [], following)
unfolding pb_buff_parse validate_tail_options
pblog_tail-follows_example =
    pblog_tail-follows codec framing options accepted 1 1 5 (2 ∷ 3 ∷ 4 ∷ 5 ∷ 6 ∷ []) all_work turns
      refl refl refl refl (omega arith) refl

abbrev show : BfeLog → String
show r = "record"

abbrev files : String → TailFile × FollowInput
files path = (
  readable three_records 5 all_work,
  record { opens = true; seeks = true; polls = growing 5 three_records turns },
)

-- The interrupt comes before the second line.
tail_action-stops_example :
    (rs : List BfeLog) × (e : CommandEnd) × (pblog_tail codec
        (callback (leb 1))
        (files "a.log").0
        (files "a.log").1
        (options_of (pos 2) true (pos 200))
      ≡ some (rs, e))
    × (tail_action codec show (leb 1) (λ path. true) files ("a.log" ∷ []) (pos 2) true (pos 200)
        ≡ some (map show (take 1 rs), ends e))
    × (length rs ≤ 2)
    × (e ≡ following → length rs ≤ 1)
tail_action-stops_example =
    tail_action-stops codec framing show 1 (λ path. true) files ("a.log" ∷ []) (pos 2) true
      (pos 200) refl refl
