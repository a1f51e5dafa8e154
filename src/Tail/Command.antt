-- ===== src/Tail/Command.antt =====
-- `PblogTail`: the last records, and then what follows.
use log_reader.Prelude.{
  ℕ, suc, ◌+◌, ◌≤◌, Bool, true, false, List, [], ◌∷◌, ◌++◌, Option, none, some, Result, ok, err,
  ◌≡◌, refl, arith, pos, if◌then◌else◌, length,
}
use log_reader.Fields.Log.{BfeLog}
use log_reader.Reader.Parse.{Codec, pb_buff_parse}
use log_reader.Reader.Framing.{Framing}
use log_reader.Reader.{max_buff_size}
use log_reader.Tail.Options.{TailOptions, OptionsError, validate_tail_options}
use log_reader.Tail.LastN.{
  TailError, Access, works, TailFile, TailOutcome, keep_last, tail_last_n, initial_chunk, max_chunk,
}
use log_reader.Tail.LastN.OneChunk.{readable, tail_chunks-one}
use log_reader.Tail.Follow.{
  Answer, goes_on, tail_stop, refuses, FollowEnd, stopped, Poll, Turn, follow_from,
}
use log_reader.Tail.Follow.Parsing.{always}
use log_reader.Tail.Follow.Growth.{growing, appended, follow_from-grows}

-- What the operating system answers to `followFrom`.
pub record FollowInput : Type 0 where
  pub opens : Bool
  pub seeks : Bool
  pub polls : List Poll

-- How the command ends; `following` is after the last of the given turns.
pub data CommandEnd : Type 0 where
  following returns_nil : CommandEnd
  bad_options : OptionsError → CommandEnd
  tail_error : TailError → CommandEnd
  follow_error : FollowEnd → CommandEnd

abbrev pub not_nil : Answer → Bool
not_nil goes_on = false
not_nil tail_stop = true
not_nil refuses = true

-- if errors.Is(fErr, ErrTailStop) { return nil }
abbrev pub command_end : Option FollowEnd → CommandEnd
command_end none = following
command_end (some stopped) = returns_nil
command_end (some e) = follow_error e

-- What the command has shown when the loop is left, or goes on.
abbrev pub with_shown : List BfeLog → Option Turn → Option (List BfeLog × CommandEnd)
with_shown shown none = none
with_shown shown (some (s, e)) = some (shown ++ s.emitted, command_end e)

module _ (codec : Codec) (answers : ℕ → Answer) where
  abbrev pub follow_after :
      FollowInput
      → Bool
      → List BfeLog
      → Result TailError (ℕ × ℕ)
      → Option (List BfeLog × CommandEnd)
  follow_after input follow shown (err e) = some (shown, tail_error e)
  follow_after input follow shown (ok (offset, inode)) =
      if follow
      then with_shown shown (
          follow_from codec (λ k. answers (length shown + k)) max_buff_size input.opens input.seeks
            offset inode input.polls)
      else some (shown, returns_nil)

  abbrev pub tail_then : FollowInput → Bool → Option TailOutcome → Option (List BfeLog × CommandEnd)
  tail_then input follow none = none
  tail_then input follow (some out) = follow_after input follow out.emitted out.answer

  abbrev pub tail_with :
      TailFile → FollowInput → Result OptionsError TailOptions → Option (List BfeLog × CommandEnd)
  tail_with f input (err e) = some ([], bad_options e)
  tail_with f input (ok o) =
      tail_then input o.follow (tail_last_n codec (λ k. not_nil (answers k)) f o.n)

  -- The records that were given to the callback, and how the command ends.
  unfoldable pub pblog_tail :
      TailFile → FollowInput → TailOptions → Option (List BfeLog × CommandEnd)
  unfolding tail_last_n follow_from
  pblog_tail f input o = tail_with f input (validate_tail_options o)

module _ (codec : Codec) (law : Framing codec) where
  -- For a codec that frames the stream however it is cut and finds nothing in no bytes, a callback
  -- that never fails, accepted options that follow, and a file that is not empty, fits into the first
  -- chunk and can be read: the command first shows the last n records of the file, and then the
  -- records of what is appended while it follows, in order and each once. The bytes after the last
  -- complete record of the file at the start are not part of what is followed: the records that are
  -- shown later are those of the appended bytes alone.
  pub pblog_tail-follows :
      (o d : TailOptions) (k b inode : ℕ) (xs : List ℕ) (access : ℕ → Access)
      (ps : List (List ℕ × List ℕ))
      → codec.buff_parse [] ≡ ([], [])
      → validate_tail_options o ≡ ok d
      → d.n ≡ pos (suc k)
      → d.follow ≡ true
      → suc (length xs) ≤ initial_chunk
      → access 0 ≡ works
      → pblog_tail codec always
          (readable (b ∷ xs) inode access)
          (record { opens = true; seeks = true; polls = growing inode (b ∷ xs) ps })
          o
        ≡ some (
          keep_last (suc k) (pb_buff_parse codec (b ∷ xs)).0
              ++ (pb_buff_parse codec (appended ps)).0,
          following,
        )
  unfolding pblog_tail tail_last_n
  pblog_tail-follows o d k b inode xs access ps nothing valid n follows fits w =
      rw
        (
          valid,
          n,
          follows,
          tail_chunks-one codec initial_chunk max_chunk (suc k) inode access law b xs (omega arith)
              fits w,
          follow_from-grows codec law max_buff_size inode (b ∷ xs) ps (omega arith) nothing,
        )
        refl
