-- ===== src/Tail/Action/Interrupt.antt =====
-- An interrupt while `tail` runs: cmd/bfe-pblog-tool/tail/tail.go.
use log_reader.Prelude.{
  ℕ, zero, suc, ◌+◌, ◌-◌, ◌≤◌, take, map, String, Bool, true, false, List, [], ◌∷◌, Option, none,
  some, Result, ok, err, ◌≡◌, refl, ap, ◌∙◌, arith, leb, str_eq, if_elim, length, length-append, ℤ,
}
use log_reader.Fields.Log.{BfeLog}
use log_reader.Reader.Framing.{Framing}
use log_reader.Reader.Parse.{Codec}
use log_reader.Reader.{max_buff_size}
use log_reader.Tail.Action.{
  first_arg, callback, options_of, printed, ends, tail_action, print_shown,
}
use log_reader.Tail.Action.Stops.{Bounded, follow_from-Bounded}
use log_reader.Tail.Command.{
  FollowInput, CommandEnd, following, returns_nil, not_nil, command_end, with_shown, follow_after,
  tail_then, tail_with, pblog_tail,
}
use log_reader.Tail.Follow.{
  Answer, tail_stop, FollowEnd, open_fails, initial_seek_fails, reopen_fails, seek_append_fails,
  read_append_fails, stopped, emit_error, Turn,
}
use log_reader.Tail.LastN.{TailError, TailFile, TailOutcome}
use log_reader.Tail.Options.{TailOptions, OptionsError, validate_tail_options}
use log_reader.Tail.Action.Last.{LastBound, tail_last_n-LastBound}
use log_reader.Tail.Total.{IsTotal}
use log_reader.Tail.Total.Following.{follow_from-IsTotal}
use log_reader.Tail.Total.Last.{tail_last_n-IsTotal}

-- What the command has shown: at most c records, and one more if it has then come to an end.
abbrev Shows : ℕ → Option (List BfeLog × CommandEnd) → Type 0
Shows c none = ⊥
Shows c (some (rs, e)) = (length rs ≤ suc c) × (e ≡ following → length rs ≤ c)

not_following : (e : FollowEnd) → ¬ (command_end (some e) ≡ following)
not_following open_fails q = cc
not_following initial_seek_fails q = cc
not_following reopen_fails q = cc
not_following seek_append_fails q = cc
not_following read_append_fails q = cc
not_following stopped q = cc
not_following emit_error q = cc

with_shown-Shows :
    (c : ℕ) (shown : List BfeLog) (o : Option Turn)
    → length shown ≤ c
    → IsTotal o
    → Bounded (c - length shown) o
    → Shows c (with_shown shown o)
with_shown-Shows c shown none le total b = total
with_shown-Shows c shown (some (s, none)) le total b = (
  omega (arith, le, b, length-append shown s.emitted),
  λ e. omega (arith, le, b, length-append shown s.emitted),
)
with_shown-Shows c shown (some (s, some e)) le total b =
    (omega (arith, le, b, length-append shown s.emitted), λ q. absurd (not_following e q))

module _ (codec : Codec) (law : Framing codec) (answers : ℕ → Answer) (c : ℕ)
    (stops : (k : ℕ) → c ≤ k → answers k ≡ tail_stop) where
  follow_after-Shows :
      (input : FollowInput) (follow : Bool) (out : TailOutcome)
      → LastBound c (some out)
      → Shows c (follow_after codec answers input follow out.emitted out.answer)
  follow_after-Shows input follow out b = go out.answer refl
    where
      go :
          (r : Result TailError (ℕ × ℕ))
          → out.answer ≡ r
          → Shows c (follow_after codec answers input follow out.emitted r)
      go (err e) q = (b.0, λ u. cc)
      go (ok (offset, inode)) q =
          let k : ℕ = length out.emitted in
          let shown : k ≤ c = b.1 (offset, inode) q in
          if_elim (Shows c) follow _ (some (out.emitted, returns_nil))
            (with_shown-Shows c out.emitted _ shown
              (follow_from-IsTotal codec law (λ j. answers (k + j)) max_buff_size input.opens
                input.seeks offset inode input.polls)
              (follow_from-Bounded codec (λ j. answers (k + j)) max_buff_size (c - k)
                (λ j le. stops (k + j) (omega (arith, le, shown))) input.opens input.seeks offset
                inode input.polls))
            (b.0, λ u. cc)

  tail_then-Shows :
      (input : FollowInput) (follow : Bool) (o : Option TailOutcome)
      → IsTotal o
      → LastBound c o
      → Shows c (tail_then codec answers input follow o)
  tail_then-Shows input follow none total b = total
  tail_then-Shows input follow (some out) total b = follow_after-Shows input follow out b

  pblog_tail-Shows :
      (f : TailFile) (input : FollowInput) (o : TailOptions)
      → Shows c (pblog_tail codec answers f input o)
  unfolding pblog_tail
  pblog_tail-Shows f input o = go (validate_tail_options o)
    where
      go : (r : Result OptionsError TailOptions) → Shows c (tail_with codec answers f input r)
      go (err e) = (omega arith, λ u. cc)
      go (ok d) =
          tail_then-Shows input d.follow _
            (tail_last_n-IsTotal codec law (λ k. not_nil (answers k)) f d.n)
            (tail_last_n-LastBound (λ k. not_nil (answers k)) c (λ j le. ap not_nil (stops j le))
              codec f d.n)

printed-none :
    (show : BfeLog → String) (c k : ℕ) (rs : List BfeLog) → c ≤ k → printed show (leb c) k rs ≡ []
unfolding printed
printed-none show c k [] le = refl
printed-none show c k (r ∷ rs) le =
    let t : leb c k ≡ true = ground arith in rw t (printed-none show c (suc k) rs (omega arith))

-- The lines of the records that come before the interrupt.
printed-take :
    (show : BfeLog → String) (c k d : ℕ) (rs : List BfeLog)
    → c ≡ k + d
    → printed show (leb c) k rs ≡ map show (take d rs)
unfolding printed
printed-take show c k zero rs e = printed-none show c k rs (omega arith)
printed-take show c k (suc d) [] e = refl
printed-take show c k (suc d) (r ∷ rs) e =
    let f : leb c k ≡ false = ground arith in
    rw f (ap (◌∷◌ (show r)) (printed-take show c (suc k) d rs (omega arith)))

-- For a codec that frames the stream however it is cut, any flags, any file and answers of the
-- operating system, a path that is given and exists, and an interrupt before the callback's call number
-- c (counted from 0): every loop of the command ends. It prints the lines of the first c of the records
-- that it finds, in order, or of all if there are no more, and nothing after the interrupt. At most one
-- more record is given to the callback, and then the command is over: where it still follows the
-- file, the interrupt has not been noticed yet.
pub tail_action-stops :
    (codec : Codec) (law : Framing codec) (show : BfeLog → String) (c : ℕ) (stat : String → Bool)
    (file : String → TailFile × FollowInput) (args : List String) (n : ℤ) (follow : Bool)
    (interval_ms : ℤ)
    → str_eq (first_arg args) "" ≡ false
    → stat (first_arg args) ≡ true
    → (rs : List BfeLog) × (e : CommandEnd) × (pblog_tail codec
          (callback (leb c))
          (file (first_arg args)).0
          (file (first_arg args)).1
          (options_of n follow interval_ms)
        ≡ some (rs, e))
      × (tail_action codec show (leb c) stat file args n follow interval_ms
          ≡ some (map show (take c rs), ends e))
      × (length rs ≤ suc c)
      × (e ≡ following → length rs ≤ c)
unfolding tail_action
tail_action-stops codec law show c stat file args n follow interval_ms given found =
    let fp : String = first_arg args in
    let o : TailOptions = options_of n follow interval_ms in
    let r : Option (List BfeLog × CommandEnd) =
      pblog_tail codec (callback (leb c)) (file fp).0 (file fp).1 o in
    let (rs, e, same, bound, more) = result r (shows (file fp).0 (file fp).1 o) in
    (
      rs,
      e,
      same,
      rw (given, found)
          (ap (print_shown show (leb c)) same
            ∙ ap (λ lines. some (lines, ends e)) (printed-take show c 0 c rs (omega arith))),
      bound,
      more,
    )
  where
    stops : (k : ℕ) → c ≤ k → callback (leb c) k ≡ tail_stop
    stops k le = let t : leb c k ≡ true = ground arith in rw t refl

    shows :
        (f : TailFile) (input : FollowInput) (o : TailOptions)
        → Shows c (pblog_tail codec (callback (leb c)) f input o)
    shows f input o = pblog_tail-Shows codec law (callback (leb c)) c stops f input o

    result :
        (r : Option (List BfeLog × CommandEnd))
        → Shows c r
        → (rs : List BfeLog) × (e : CommandEnd) × (r ≡ some (rs, e))
          × (length rs ≤ suc c)
          × (e ≡ following → length rs ≤ c)
    result none h = absurd h
    result (some (rs, e)) h = (rs, e, refl, h.0, h.1)
