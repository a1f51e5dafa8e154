-- ===== src/Tail/Follow/Parsing.antt =====
-- The innermost loop of `followFrom`, over what is left of a buffer.
use log_reader.Prelude.{
  is_nil, ℕ, suc, ◌<◌, true, ◌&&◌, List, [], ◌∷◌, ◌++◌, append-nil, append_assoc, Option, none,
  some, ◌≡◌, refl, ◌∙◌, arith, ltb, ◌==◌, ==-self, if◌then◌else◌, if_elim, Bool-cases, inl, inr,
  length,
}
use log_reader.Fields.Log.{BfeLog}
use log_reader.Reader.Parse.{Codec, pb_buff_parse}
use log_reader.Reader.Framing.{Framing, no_more, same_rest}
use log_reader.Tail.Follow.{Answer, goes_on, FollowState, Turn, emit_records, parse_emit}

abbrev pub at : ℕ → ℕ → List ℕ → List BfeLog → FollowState
at offset inode remainder emitted = record {
  current_offset = offset;
  current_inode = inode;
  remainder = remainder;
  emitted = emitted;
}

-- The callback never fails.
abbrev pub always : ℕ → Answer
always k = goes_on

module _ (codec : Codec) (max_buff offset inode : ℕ) where
  emit_records-always :
      (rest : List ℕ) (rs emitted : List BfeLog)
      → emit_records codec always max_buff rs (at offset inode rest emitted)
        ≡ (at offset inode rest (emitted ++ rs), none)
  unfolding emit_records
  emit_records-always rest [] emitted = rw (append-nil emitted) refl
  emit_records-always rest (r ∷ rs) emitted =
      emit_records-always rest rs (emitted ++ (r ∷ [])) ∙ rw (append_assoc emitted (r ∷ []) rs) refl

  -- After the rest of a parse the loop ends.
  parse_emit-rest :
      (law : Framing codec) (fuel : ℕ) (xs : List ℕ) (emitted : List BfeLog)
      → let r : List ℕ = (pb_buff_parse codec xs).1 in
        parse_emit codec always max_buff (suc fuel) r (at offset inode r emitted)
        ≡ some (at offset inode r emitted, none)
  unfolding parse_emit
  parse_emit-rest law fuel xs emitted =
      let r : List ℕ = (pb_buff_parse codec xs).1 in
      elim (Bool-cases (ltb 0 (length r))) [
        | inl t ↦ rw (t, no_more codec law xs, same_rest codec law xs, ==-self (length r)) refl
        | inr t ↦ rw t refl
      ]

  pub parse_emit-once :
      (law : Framing codec) (fuel : ℕ) (xs before : List ℕ) (emitted : List BfeLog)
      → 0 < length xs
      → let p : List BfeLog × List ℕ × ℕ = pb_buff_parse codec xs in
        parse_emit codec always max_buff (suc (suc fuel)) xs (at offset inode before emitted)
        ≡ some (at offset inode p.1 (emitted ++ p.0), none)
  unfolding parse_emit
  parse_emit-once law fuel xs before emitted some_bytes =
      let p : List BfeLog × List ℕ × ℕ = pb_buff_parse codec xs in
      let t : ltb 0 (length xs) ≡ true = ground arith in
      rw (t, emit_records-always before p.0 emitted)
        (go p.0 p.1 (parse_emit-rest law fuel xs (emitted ++ p.0)))
    where
      go :
          (records : List BfeLog) (rest : List ℕ)
          → parse_emit codec always max_buff
              (suc fuel)
              rest
              (at offset inode rest (emitted ++ records))
            ≡ some (at offset inode rest (emitted ++ records), none)
          → (if is_nil records && length rest == length xs
              then some (at offset inode rest emitted, none)
              else parse_emit codec always max_buff
                  (suc fuel)
                  rest
                  (at offset inode rest (emitted ++ records)))
            ≡ some (at offset inode rest (emitted ++ records), none)
      go [] rest h =
          if_elim (λ (o : Option Turn). o ≡ some (at offset inode rest (emitted ++ []), none))
            (length rest == length xs) (some (at offset inode rest emitted, none)) _
            (rw (append-nil emitted) refl) h
      go (r ∷ rs) rest h = h
