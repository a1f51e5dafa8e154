-- ===== src/Tail/Total/Following.antt =====
-- The loops of `followFrom` end.
use log_reader.Prelude.{
  ℕ, zero, suc, ◌+◌, ◌-◌, ◌<◌, min, is_nil, take, drop, Bool, false, ◌&&◌, not, List, [], ◌∷◌, ◌++◌,
  Option, none, some, ◌≡◌, arith, ltb, ◌==◌, ==-self, if◌then◌else◌, if_elim, if_elim_eq, length,
  ltb→lt,
}
use log_reader.Fields.Log.{BfeLog}
use log_reader.Reader.Framing.{Framing, no_more, same_rest}
use log_reader.Reader.Parse.{Codec, pb_buff_parse}
use log_reader.Tail.Follow.{
  Answer, FollowState, Turn, and_then, emit_records, parse_emit, read_chunks, append_data,
  poll_once, follow_polls, follow_from, Poll, rotated, read_append_fails, seek_append_fails,
  reopen_fails, initial_seek_fails, open_fails,
}
use log_reader.Tail.Total.{IsTotal}

module _ (codec : Codec) (law : Framing codec) where
  module _ (answers : ℕ → Answer) (max_buff : ℕ) where
    and_then-IsTotal :
        (o : Option Turn) (k : FollowState → Option Turn)
        → IsTotal o
        → ((s : FollowState) → IsTotal (k s))
        → IsTotal (and_then o k)
    and_then-IsTotal (some (s, some e)) k h g = tt
    and_then-IsTotal (some (s, none)) k h g = g s
    and_then-IsTotal none k h g = absurd h

    -- What a parse leaves holds nothing more, so the next round is the last.
    parse_rest-IsTotal :
        (fuel : ℕ) (xs : List ℕ) (s : FollowState)
        → IsTotal (parse_emit codec answers max_buff (suc fuel) (pb_buff_parse codec xs).1 s)
    unfolding parse_emit
    parse_rest-IsTotal fuel xs s =
        rw
          (
            no_more codec law xs,
            same_rest codec law xs,
            ==-self (length (pb_buff_parse codec xs).1),
          )
          (if_elim IsTotal (ltb 0 (length (pb_buff_parse codec xs).1)) _ _ tt tt)

    parse_emit-IsTotal :
        (fuel : ℕ) (buf : List ℕ) (s : FollowState)
        → IsTotal (parse_emit codec answers max_buff (suc (suc fuel)) buf s)
    unfolding parse_emit
    parse_emit-IsTotal fuel buf s =
        let p : List BfeLog × List ℕ × ℕ = pb_buff_parse codec buf in
        if_elim IsTotal (ltb 0 (length buf)) _ (some (s, none))
          (if_elim IsTotal (is_nil p.0 && length p.1 == length buf)
            (some (record s { remainder = p.1 }, none)) _ tt
            (and_then-IsTotal (some (emit_records codec answers max_buff p.0 s)) _ tt
              (λ s'. parse_rest-IsTotal fuel buf (record s' { remainder = p.1 }))))
          tt

    read_chunks-IsTotal :
        (fuel k to_read : ℕ) (poll : Poll) (s : FollowState)
        → to_read < fuel
        → IsTotal (read_chunks codec answers max_buff fuel k to_read poll s)
    unfolding read_chunks
    read_chunks-IsTotal zero k to_read poll s h = absurd (omega arith)
    read_chunks-IsTotal (suc fuel) k to_read poll s h =
        let chunk : List ℕ = take (min to_read max_buff) (drop s.current_offset poll.content) in
        let buffer : List ℕ = s.remainder ++ chunk in
        if_elim_eq IsTotal (ltb 0 to_read) _ (some (s, none))
          (λ pos.
            if_elim IsTotal (poll.read_ok k) _ (some (s, some read_append_fails))
              (if_elim_eq IsTotal (is_nil chunk) (some (s, none)) _ (λ t. tt)
                (λ f.
                  and_then-IsTotal _ _
                    (parse_emit-IsTotal (length buffer) buffer
                      (record s { current_offset = s.current_offset + length chunk }))
                    (λ s'.
                      read_chunks-IsTotal fuel (suc k) (to_read - length chunk) poll s'
                        (omega (arith, ltb→lt 0 to_read pos, not_empty chunk f)))))
              tt)
          (λ f. tt)
      where
        not_empty : (xs : List ℕ) → is_nil xs ≡ false → 0 < length xs
        not_empty [] e = cc
        not_empty (x ∷ xs) e = omega arith

    append_data-IsTotal :
        (size : ℕ) (poll : Poll) (s : FollowState)
        → IsTotal (append_data codec answers max_buff size poll s)
    unfolding append_data
    append_data-IsTotal size poll s =
        if_elim IsTotal (ltb s.current_offset size) _ (some (s, none))
          (if_elim IsTotal poll.seeks _ (some (s, some seek_append_fails))
            (read_chunks-IsTotal (suc (size - s.current_offset)) 0 (size - s.current_offset) poll s
              (omega arith))
            tt)
          tt

    poll_once-IsTotal :
        (poll : Poll) (s : FollowState) → IsTotal (poll_once codec answers max_buff poll s)
    unfolding poll_once
    poll_once-IsTotal poll s = go poll.stat
      where
        go :
            (o : Option (ℕ × ℕ))
            → IsTotal {A = Turn} (elim o [
              | none ↦ some (s, none)
              | some (size, inode) ↦
                  if rotated size inode s
                  then if poll.reopens
                    then append_data codec answers max_buff size poll
                        (record s { current_offset = 0; current_inode = inode; remainder = [] })
                    else some (s, some reopen_fails)
                  else append_data codec answers max_buff size poll s
            ])
        go none = tt
        go (some (size, inode)) =
            if_elim IsTotal (rotated size inode s) _ _
              (if_elim IsTotal poll.reopens _ (some (s, some reopen_fails))
                (append_data-IsTotal size poll
                  (record s { current_offset = 0; current_inode = inode; remainder = [] }))
                tt)
              (append_data-IsTotal size poll s)

    follow_polls-IsTotal :
        (polls : List Poll) (s : FollowState)
        → IsTotal (follow_polls codec answers max_buff polls s)
    unfolding follow_polls
    follow_polls-IsTotal [] s = tt
    follow_polls-IsTotal (poll ∷ polls) s =
        and_then-IsTotal _ _ (poll_once-IsTotal poll s) (follow_polls-IsTotal polls)

    pub follow_from-IsTotal :
        (opens seeks : Bool) (offset inode : ℕ) (polls : List Poll)
        → IsTotal (follow_from codec answers max_buff opens seeks offset inode polls)
    unfolding follow_from
    follow_from-IsTotal opens seeks offset inode polls =
        if_elim IsTotal opens _ (some (_, some open_fails))
          (if_elim IsTotal (ltb 0 offset && not seeks) (some (_, some initial_seek_fails)) _ tt
            (follow_polls-IsTotal polls _))
          tt
