-- ===== src/Tail/Action/Stops.antt =====
-- What an interrupt does to the command `tail`.
use log_reader.Prelude.{
  ℕ, zero, suc, ◌+◌, ◌-◌, ◌≤◌, min, is_nil, take, drop, Bool, ◌&&◌, not, List, [], ◌∷◌, ◌++◌,
  Option, none, some, ◌≡◌, refl, arith, ltb, leb, leb→le, ◌==◌, if◌then◌else◌, if_elim, length,
  length-append, Bool-cases, inl, inr,
}
use log_reader.Fields.Log.{BfeLog}
use log_reader.Reader.Parse.{Codec, pb_buff_parse}
use log_reader.Tail.Follow.{
  Answer, goes_on, tail_stop, refuses, ending, FollowState, Turn, and_then, emit_records,
  parse_emit, read_chunks, append_data, poll_once, follow_polls, follow_from, Poll, rotated,
  read_append_fails, seek_append_fails, reopen_fails, initial_seek_fails, open_fails,
}

-- While the loop goes on, at most c records have been given out, and at its end at most one more.
abbrev pub Bounded : ℕ → Option Turn → Type 0
Bounded c none = Unit {0}
Bounded c (some (s, none)) = length s.emitted ≤ c
Bounded c (some (s, some e)) = length s.emitted ≤ suc c

module _ (codec : Codec) (answers : ℕ → Answer) (max_buff c : ℕ)
    (stops : (k : ℕ) → c ≤ k → answers k ≡ tail_stop) where
  two_answers : (k : ℕ) → c ≤ k → ¬ (answers k ≡ goes_on)
  two_answers k le e = cc (stops k le)

  and_then-Bounded :
      (o : Option Turn) (k : FollowState → Option Turn)
      → Bounded c o
      → ((s : FollowState) → length s.emitted ≤ c → Bounded c (k s))
      → Bounded c (and_then o k)
  and_then-Bounded none k h g = tt
  and_then-Bounded (some (s, some e)) k h g = h
  and_then-Bounded (some (s, none)) k h g = g s h

  emit_records-Bounded :
      (rs : List BfeLog) (s : FollowState)
      → length s.emitted ≤ c
      → Bounded c (some (emit_records codec answers max_buff rs s))
  unfolding emit_records
  emit_records-Bounded [] s h = h
  emit_records-Bounded (r ∷ rs) s h =
      go (answers (length s.emitted)) refl (emit_records-Bounded rs s')
    where
      s' : FollowState
      s' = record s { emitted = s.emitted ++ (r ∷ []) }

      longer : length s'.emitted ≡ suc (length s.emitted)
      longer = omega (arith, length-append s.emitted (r ∷ []))

      go :
          (a : Answer)
          → answers (length s.emitted) ≡ a
          → (length s'.emitted ≤ c → Bounded c (some (emit_records codec answers max_buff rs s')))
          → Bounded c (
              some (elim (ending a) [
                | none ↦ emit_records codec answers max_buff rs s'
                | some e ↦ (s', some e)
              ]))
      go goes_on e rest = elim (Bool-cases (leb c (length s.emitted))) [
        | inl t ↦ absurd (two_answers (length s.emitted) (leb→le c (length s.emitted) t) e)
        | inr f ↦ rest (ground (arith, longer, f))
      ]
      go tail_stop e rest = omega (arith, longer)
      go refuses e rest = omega (arith, longer)

  parse_emit-Bounded :
      (fuel : ℕ) (buf : List ℕ) (s : FollowState)
      → length s.emitted ≤ c
      → Bounded c (parse_emit codec answers max_buff fuel buf s)
  unfolding parse_emit
  parse_emit-Bounded zero buf s h = tt
  parse_emit-Bounded (suc fuel) buf s h =
      let p : List BfeLog × List ℕ × ℕ = pb_buff_parse codec buf in
      if_elim (Bounded c) (ltb 0 (length buf)) _ (some (s, none))
        (if_elim (Bounded c) (is_nil p.0 && length p.1 == length buf)
          (some (record s { remainder = p.1 }, none)) _ h
          (and_then-Bounded (some (emit_records codec answers max_buff p.0 s)) _
            (emit_records-Bounded p.0 s h)
            (λ s' h'. parse_emit-Bounded fuel p.1 (record s' { remainder = p.1 }) h')))
        h

  read_chunks-Bounded :
      (fuel k to_read : ℕ) (poll : Poll) (s : FollowState)
      → length s.emitted ≤ c
      → Bounded c (read_chunks codec answers max_buff fuel k to_read poll s)
  unfolding read_chunks
  read_chunks-Bounded zero k to_read poll s h = tt
  read_chunks-Bounded (suc fuel) k to_read poll s h =
      let chunk : List ℕ = take (min to_read max_buff) (drop s.current_offset poll.content) in
      let buffer : List ℕ = s.remainder ++ chunk in
      if_elim (Bounded c) (ltb 0 to_read) _ (some (s, none))
        (if_elim (Bounded c) (poll.read_ok k) _ (some (s, some read_append_fails))
          (if_elim (Bounded c) (is_nil chunk) (some (s, none)) _ h (
            and_then-Bounded _ _
              (parse_emit-Bounded (suc (suc (length buffer))) buffer
                (record s { current_offset = s.current_offset + length chunk }) h)
              (λ s' h'. read_chunks-Bounded fuel (suc k) (to_read - length chunk) poll s' h')))
          (omega (arith, h)))
        h

  append_data-Bounded :
      (size : ℕ) (poll : Poll) (s : FollowState)
      → length s.emitted ≤ c
      → Bounded c (append_data codec answers max_buff size poll s)
  unfolding append_data
  append_data-Bounded size poll s h =
      if_elim (Bounded c) (ltb s.current_offset size) _ (some (s, none))
        (if_elim (Bounded c) poll.seeks _ (some (s, some seek_append_fails))
          (read_chunks-Bounded (suc (size - s.current_offset)) 0 (size - s.current_offset) poll s h)
          (omega (arith, h)))
        h

  poll_once-Bounded :
      (poll : Poll) (s : FollowState)
      → length s.emitted ≤ c
      → Bounded c (poll_once codec answers max_buff poll s)
  unfolding poll_once
  poll_once-Bounded poll s h = go poll.stat
    where
      go :
          (o : Option (ℕ × ℕ))
          → Bounded c (elim o [
            | none ↦ some (s, none)
            | some (size, inode) ↦
                if rotated size inode s
                then if poll.reopens
                  then append_data codec answers max_buff size poll
                      (record s { current_offset = 0; current_inode = inode; remainder = [] })
                  else some (s, some reopen_fails)
                else append_data codec answers max_buff size poll s
          ])
      go none = h
      go (some (size, inode)) =
          if_elim (Bounded c) (rotated size inode s) _ _
            (if_elim (Bounded c) poll.reopens _ (some (s, some reopen_fails))
              (append_data-Bounded size poll
                (record s { current_offset = 0; current_inode = inode; remainder = [] }) h)
              (omega (arith, h)))
            (append_data-Bounded size poll s h)

  follow_polls-Bounded :
      (polls : List Poll) (s : FollowState)
      → length s.emitted ≤ c
      → Bounded c (follow_polls codec answers max_buff polls s)
  unfolding follow_polls
  follow_polls-Bounded [] s h = h
  follow_polls-Bounded (poll ∷ polls) s h =
      and_then-Bounded _ _ (poll_once-Bounded poll s h) (λ s' h'. follow_polls-Bounded polls s' h')

  pub follow_from-Bounded :
      (opens seeks : Bool) (offset inode : ℕ) (polls : List Poll)
      → Bounded c (follow_from codec answers max_buff opens seeks offset inode polls)
  unfolding follow_from
  follow_from-Bounded opens seeks offset inode polls =
      if_elim (Bounded c) opens _ (some (start, some open_fails))
        (if_elim (Bounded c) (ltb 0 offset && not seeks) (some (start, some initial_seek_fails)) _
          (omega arith) (follow_polls-Bounded polls start (omega arith)))
        (omega arith)
    where
      start : FollowState
      start = record {
        current_offset = offset;
        current_inode = inode;
        remainder = [];
        emitted = [];
      }
