-- ===== src/Tail/Follow.antt =====
-- `followFrom`: the records that are appended to a file, poll by poll.
pub mod Parsing
pub mod Chunks
pub mod Growth
use log_reader.Prelude.{
  is_nil, ℕ, zero, suc, ◌+◌, ◌-◌, ◌*◌, min, Bool, true, false, not, ◌&&◌, ◌||◌, List, [], ◌∷◌, ◌++◌,
  Option, none, some, ltb, ◌==◌, if◌then◌else◌, length, take, drop,
}
use log_reader.Fields.Log.{BfeLog}
use log_reader.Reader.Parse.{Codec, pb_buff_parse}

-- What the callback answers: `nil`, `ErrTailStop` or another error.
pub data Answer : Type 0 where
  goes_on tail_stop refuses : Answer

-- Why the function returns.
pub data FollowEnd : Type 0 where
  open_fails initial_seek_fails reopen_fails seek_append_fails read_append_fails : FollowEnd
  stopped emit_error : FollowEnd

-- The variables of the loop, and the records that were given to the callback.
pub record FollowState : Type 0 where
  pub current_offset : ℕ
  pub current_inode : ℕ
  pub remainder : List ℕ
  pub emitted : List BfeLog

-- The answers to the calls of one turn: the size and the inode of `os.Stat`, whether the file opens
-- again and the seek succeeds, the bytes of the open file while they are read, and whether the k-th
-- read succeeds.
pub record Poll : Type 0 where
  pub stat : Option (ℕ × ℕ)
  pub reopens : Bool
  pub seeks : Bool
  pub content : List ℕ
  pub read_ok : ℕ → Bool

-- Why the callback ends the loop, if it does.
abbrev pub ending : Answer → Option FollowEnd
ending goes_on = none
ending tail_stop = some stopped
ending refuses = some emit_error

-- A result is the state, and why the loop has ended, if it has.
abbrev pub Turn : Type 0
Turn = FollowState × Option FollowEnd

abbrev pub and_then : Option Turn → (FollowState → Option Turn) → Option Turn
and_then none k = none
and_then (some (s, some e)) k = some (s, some e)
and_then (some (s, none)) k = k s

-- Rotation or truncate detection.
abbrev pub rotated : ℕ → ℕ → FollowState → Bool
rotated size inode s =
    (not (inode == 0) && not (s.current_inode == 0) && not (inode == s.current_inode))
    || ltb size s.current_offset

module _ (codec : Codec) (answers : ℕ → Answer) (max_buff : ℕ) where
  -- The records of one parse, up to the one at which the callback fails.
  unfoldable pub emit_records : List BfeLog → FollowState → Turn
  emit_records [] s = (s, none)
  emit_records (r ∷ rs) s =
      let s' : FollowState = record s { emitted = s.emitted ++ (r ∷ []) } in
      let rest : Turn = emit_records rs s' in
      elim (ending (answers (length s.emitted))) [ none ↦ rest | some e ↦ (s', some e) ]

  -- The innermost loop. `none` is out of fuel.
  unfoldable pub parse_emit : ℕ → List ℕ → FollowState → Option Turn
  unfolding pb_buff_parse emit_records
  parse_emit zero buf s = none
  parse_emit (suc fuel) buf s =
      let p : List BfeLog × List ℕ × ℕ = pb_buff_parse codec buf in
      let more : Option Turn =
        and_then (some (emit_records p.0 s))
          (λ s'. parse_emit fuel p.1 (record s' { remainder = p.1 })) in
      if ltb 0 (length buf)
      then if is_nil p.0 && length p.1 == length buf
        then some (record s { remainder = p.1 }, none)
        else more
      else some (s, none)

  -- The loop over the chunks. A read that is cut short returns what there is, and the next one, which
  -- finds nothing, ends the loop.
  unfoldable pub read_chunks : ℕ → ℕ → ℕ → Poll → FollowState → Option Turn
  unfolding parse_emit
  read_chunks zero k to_read poll s = none
  read_chunks (suc fuel) k to_read poll s =
      let chunk : List ℕ = take (min to_read max_buff) (drop s.current_offset poll.content) in
      let buffer : List ℕ = s.remainder ++ chunk in
      let more : Option Turn =
        and_then
          (parse_emit (suc (suc (length buffer))) buffer
            (record s { current_offset = s.current_offset + length chunk }))
          (λ s'. read_chunks fuel (suc k) (to_read - length chunk) poll s') in
      if ltb 0 to_read
      then if poll.read_ok k
        then if is_nil chunk then some (s, none) else more
        else some (s, some read_append_fails)
      else some (s, none)

  -- Its fuel is the number of bytes to read and one, since each round reads at least one.
  unfoldable pub append_data : ℕ → Poll → FollowState → Option Turn
  unfolding read_chunks
  append_data size poll s =
      if ltb s.current_offset size
      then if poll.seeks
        then read_chunks (suc (size - s.current_offset)) 0 (size - s.current_offset) poll s
        else some (s, some seek_append_fails)
      else some (s, none)

  -- One turn of the loop.
  unfoldable pub poll_once : Poll → FollowState → Option Turn
  unfolding append_data
  poll_once poll s = elim poll.stat [
    | none ↦ some (s, none)
    | some (size, inode) ↦
        if rotated size inode s
        then if poll.reopens
          then append_data size poll
              (record s { current_offset = 0; current_inode = inode; remainder = [] })
          else some (s, some reopen_fails)
        else append_data size poll s
  ]

  -- The loop over the turns whose answers are given.
  unfoldable pub follow_polls : List Poll → FollowState → Option Turn
  unfolding poll_once
  follow_polls [] s = some (s, none)
  follow_polls (poll ∷ polls) s = and_then (poll_once poll s) (follow_polls polls)

  -- `followFrom`, if the file opens and the first seek succeeds as told.
  unfoldable pub follow_from : Bool → Bool → ℕ → ℕ → List Poll → Option Turn
  unfolding follow_polls
  follow_from opens seeks start_offset start_inode polls =
      let s : FollowState = record {
        current_offset = start_offset;
        current_inode = start_inode;
        remainder = [];
        emitted = [];
      } in
      if opens
      then if ltb 0 start_offset && not seeks
        then some (s, some initial_seek_fails)
        else follow_polls polls s
      else some (s, some open_fails)
