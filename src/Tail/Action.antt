-- ===== src/Tail/Action.antt =====
-- The command line of `tail`: cmd/bfe-pblog-tool/tail/tail.go. What `os.Stat` says of a path is an
-- argument; the signal that sets `canceled` comes before some call of the callback, or never.
pub mod Stops
pub mod Last
pub mod Interrupt
use log_reader.Prelude.{
  to_int64, ℕ, suc, ◌+◌, ◌-◌, ◌*◌, ◌%◌, ◌^◌, ◌≤◌, ◌<◌, String, Bool, ◌&&◌, List, [], ◌∷◌, Option,
  none, some, Result, ℤ, pos, negsuc, ltb, str_eq, if◌then◌else◌,
}
use log_reader.Fields.Log.{BfeLog}
use log_reader.Reader.Parse.{Codec}
use log_reader.Tail.Command.{FollowInput, CommandEnd, pblog_tail}
use log_reader.Tail.Follow.{Answer, goes_on, tail_stop}
use log_reader.Tail.LastN.{TailFile}
use log_reader.Tail.Options.{TailOptions, OptionsError, default_follow_interval}

-- ctx.Args().First(), the empty text if there is none.
abbrev pub first_arg : List String → String
first_arg [] = ""
first_arg (a ∷ more) = a

-- time.Duration(i) * time.Millisecond, in the 64 bits of Go's `int64`.
abbrev pub milliseconds : ℕ → ℤ
milliseconds i = to_int64 ((i * 1000000) % 2 ^ 64)

-- if follow && intervalMs > 0 { opts.Interval = … }
unfoldable pub options_of : ℤ → Bool → ℤ → TailOptions
options_of n follow (negsuc i) = record { n = n; follow = follow; interval = pos 0 }
options_of n follow (pos i) = record {
  n = n;
  follow = follow;
  interval = if follow && ltb 0 i then milliseconds i else pos 0;
}

-- The callback: `ErrTailStop` once `canceled` is set, else the line is printed.
abbrev pub callback : (ℕ → Bool) → ℕ → Answer
callback canceled k = if canceled k then tail_stop else goes_on

-- The lines printed for the records that the callback is given, from its k-th call on.
unfoldable pub printed : (BfeLog → String) → (ℕ → Bool) → ℕ → List BfeLog → List String
printed show canceled k [] = []
printed show canceled k (r ∷ rs) =
    let rest : List String = printed show canceled (suc k) rs in
    if canceled k then rest else show r ∷ rest

pub data ActionEnd : Type 0 where
  no_path stat_error : ActionEnd
  ends : CommandEnd → ActionEnd

abbrev pub print_shown :
    (BfeLog → String)
    → (ℕ → Bool)
    → Option (List BfeLog × CommandEnd)
    → Option (List String × ActionEnd)
print_shown show canceled none = none
print_shown show canceled (some (rs, e)) = some (printed show canceled 0 rs, ends e)

-- `Action`: the lines printed, and how it ends; `none` does not occur.
unfoldable pub tail_action :
    Codec
    → (BfeLog → String)
    → (ℕ → Bool)
    → (String → Bool)
    → (String → TailFile × FollowInput)
    → List String
    → ℤ
    → Bool
    → ℤ
    → Option (List String × ActionEnd)
unfolding options_of printed pblog_tail
tail_action codec show canceled stat file args n follow interval_ms =
    let fp : String = first_arg args in
    if str_eq fp ""
    then some ([], no_path)
    else if stat fp
    then print_shown show canceled (
        pblog_tail codec (callback canceled) (file fp).0 (file fp).1
          (options_of n follow interval_ms))
    else some ([], stat_error)

-- The interval in nanoseconds that is used where the file is followed.
abbrev pub effective : ℤ → ℕ
effective (negsuc i) = default_follow_interval
effective (pos i) = if ltb 0 i then i * 1000000 else default_follow_interval

-- An interval that fits into 64 bits.
abbrev pub IsShort : ℤ → Type 0
IsShort (negsuc i) = Unit {0}
IsShort (pos i) = i * 1000000 < 2 ^ 63
