-- ===== src/Tail/Follow/Chunks.antt =====
-- The loop of `followFrom` over the chunks of what was appended.
use log_reader.Prelude.{
  ℕ, zero, suc, ◌+◌, ◌-◌, ◌≤◌, ◌<◌, min, lt→ltb, true, List, [], ◌∷◌, ◌++◌, append-nil,
  append_assoc, none, some, ◌≡◌, refl, ap, ◌∙◌, sym, subst, arith, ltb, length, take, drop,
  length-append, drop-append, take-append-drop, length-drop,
}
use log_reader.Fields.Log.{BfeLog}
use log_reader.Reader.Parse.{Codec, pb_buff_parse}
use log_reader.Reader.Framing.{Framing, frameless, decode-chunked, rest-chunked}
use log_reader.Tail.Follow.{FollowState, Poll, read_chunks}
use log_reader.Tail.Follow.Parsing.{at, always, parse_emit-once}

-- A poll at which all calls succeed.
abbrev pub healthy : ℕ → ℕ → List ℕ → Poll
healthy size inode content = record {
  stat = some (size, inode);
  reopens = true;
  seeks = true;
  content = content;
  read_ok = λ k. true;
}

-- A prefix of a list, cut again.
take-prefix {ℓ} :
    {A : Type ℓ} (n : ℕ) (xs ys : List A) → n ≤ length xs → take n (xs ++ ys) ≡ take n xs
take-prefix zero xs ys le = refl
take-prefix (suc n) [] ys le = absurd (omega arith)
take-prefix (suc n) (x ∷ xs) ys le = rw (take-prefix n xs ys (omega arith))

module _ (codec : Codec) (law : Framing codec) (max_buff inode : ℕ) where
  -- The state after bytes were delivered: their frames are given out, and the rest is kept.
  abbrev pub after_bytes : ℕ → List ℕ → List BfeLog → FollowState
  after_bytes offset bytes emitted =
      at offset inode (pb_buff_parse codec bytes).1 (emitted ++ (pb_buff_parse codec bytes).0)

  pub join_bytes :
      (offset : ℕ) (xs ys : List ℕ) (emitted : List BfeLog)
      → let p : List BfeLog × List ℕ × ℕ = pb_buff_parse codec xs in
        after_bytes offset (p.1 ++ ys) (emitted ++ p.0) ≡ after_bytes offset (xs ++ ys) emitted
  join_bytes offset xs ys emitted =
      let p : List BfeLog × List ℕ × ℕ = pb_buff_parse codec xs in
      rw
        (
          decode-chunked codec law xs ys,
          rest-chunked codec law xs ys,
          append_assoc emitted p.0 (pb_buff_parse codec (p.1 ++ ys)).0,
        )
        refl

  pub nothing_new :
      (offset : ℕ) (xs : List ℕ) (emitted : List BfeLog)
      → codec.buff_parse xs ≡ ([], xs)
      → after_bytes offset (xs ++ []) emitted ≡ at offset inode xs emitted
  nothing_new offset xs emitted w =
      let (r, b) = frameless codec xs w in rw (append-nil xs, r, b, append-nil emitted) refl

  -- One round of the loop over the chunks.
  read_chunks-step :
      (fuel k b size seen : ℕ) (before c new ahead : List ℕ) (rest : List ℕ) (emitted : List BfeLog)
      → take (min (length (b ∷ c ++ new)) max_buff) ((b ∷ c ++ new) ++ ahead) ≡ b ∷ c
      → let content : List ℕ = before ++ ((b ∷ c ++ new) ++ ahead) in
        let p : List BfeLog × List ℕ × ℕ = pb_buff_parse codec (rest ++ (b ∷ c)) in
        let poll : Poll = healthy size seen content in
        read_chunks codec always max_buff
          (suc fuel)
          k
          (length (b ∷ c ++ new))
          poll
          (at (length before) inode rest emitted)
        ≡ read_chunks codec always max_buff fuel
            (suc k)
            (length new)
            poll
            (at (length before + length (b ∷ c)) inode p.1 (emitted ++ p.0))
  unfolding read_chunks
  read_chunks-step fuel k b size seen before c new ahead rest emitted cut =
      let n : length (b ∷ c ++ new) - length (b ∷ c) ≡ length new =
        omega (arith, length-append c new) in
      let t : ltb 0 (length (b ∷ c ++ new)) ≡ true =
        lt→ltb 0 (length (b ∷ c ++ new)) (omega arith) in
      let some_bytes : 0 < length (rest ++ (b ∷ c)) = omega (arith, length-append rest (b ∷ c)) in
      rw
        (
          drop-append before ((b ∷ c ++ new) ++ ahead),
          cut,
          parse_emit-once codec max_buff (length before + length (b ∷ c)) inode law
              (length (rest ++ (b ∷ c))) (rest ++ (b ∷ c)) rest emitted some_bytes,
          n,
          t,
        )
        refl

  -- The loop over the chunks delivers all the bytes that it is to read.
  unfoldable pub AllRead : ℕ → Type 0
  AllRead fuel =
      (k size seen : ℕ) (before new ahead rest : List ℕ) (emitted : List BfeLog)
      → codec.buff_parse rest ≡ ([], rest)
      → length new < fuel
      → read_chunks codec always max_buff fuel k (length new)
          (healthy size seen (before ++ (new ++ ahead))) (at (length before) inode rest emitted)
        ≡ some (after_bytes (length before + length new) (rest ++ new) emitted, none)

  read_chunks-round :
      (fuel : ℕ)
      → AllRead fuel
      → (k size seen x : ℕ) (before c new ahead rest : List ℕ) (emitted : List BfeLog)
      → take (min (length (x ∷ c ++ new)) max_buff) ((x ∷ c ++ new) ++ ahead) ≡ x ∷ c
      → length new < fuel
      → read_chunks codec always max_buff
          (suc fuel)
          k
          (length (x ∷ c ++ new))
          (healthy size seen (before ++ ((x ∷ c ++ new) ++ ahead)))
          (at (length before) inode rest emitted)
        ≡ some (
          after_bytes (length before + length (x ∷ c ++ new)) (rest ++ (x ∷ c ++ new)) emitted,
          none,
        )
  unfolding AllRead pb_buff_parse
  read_chunks-round fuel all k size seen x before c new ahead rest emitted cut few =
      let p : List BfeLog × List ℕ × ℕ = pb_buff_parse codec (rest ++ (x ∷ c)) in
      let content : before ++ ((x ∷ c ++ new) ++ ahead) ≡ (before ++ (x ∷ c)) ++ (new ++ ahead) =
        rw (append_assoc c new ahead) (sym (append_assoc before (x ∷ c) (new ++ ahead))) in
      let offset : length before + length (x ∷ c) ≡ length (before ++ (x ∷ c)) =
        sym (length-append before (x ∷ c)) in
      let end : length (before ++ (x ∷ c)) + length new ≡ length before + length (x ∷ c ++ new) =
        omega (arith, length-append before (x ∷ c), length-append c new) in
      let finish : after_bytes (length (before ++ (x ∷ c)) + length new) (p.1 ++ new)
            (emitted ++ p.0)
          ≡ after_bytes (length before + length (x ∷ c ++ new)) (rest ++ (x ∷ c ++ new)) emitted =
        rw end (join_bytes _ (rest ++ (x ∷ c)) new emitted)
        ∙ ap (λ ys. after_bytes (length before + length (x ∷ c ++ new)) ys emitted)
            (append_assoc rest (x ∷ c) new) in
      let others =
        all (suc k) size seen (before ++ (x ∷ c)) new ahead p.1 (emitted ++ p.0)
          (law.remains (rest ++ (x ∷ c))) few
        ∙ ap (λ s. some (s, none)) finish in
      read_chunks-step fuel k x size seen before c new ahead rest emitted cut
      ∙ rw (content, offset) others

  -- The first chunk of what is to be read.
  first_chunk :
      (q x : ℕ) (xs ahead : List ℕ)
      → q ≡ min (length xs) (max_buff - 1)
      → 0 < max_buff
      → take
          (min (length (x ∷ take q xs ++ drop q xs)) max_buff)
          ((x ∷ take q xs ++ drop q xs) ++ ahead)
        ≡ x ∷ take q xs
  first_chunk q x xs ahead e room =
      let m : min (suc (length xs)) max_buff ≡ suc q = omega arith in
      let le : q ≤ length xs = omega arith in
      rw (take-append-drop q xs, m, take-prefix q xs ahead le) refl

  pub read_chunks-all : (fuel : ℕ) → 0 < max_buff → AllRead fuel
  unfolding read_chunks pb_buff_parse AllRead
  read_chunks-all zero room k size seen before new ahead rest emitted w enough =
      absurd (omega arith)
  read_chunks-all (suc fuel) room k size seen before [] ahead rest emitted w enough =
      let n : length before + 0 ≡ length before = omega arith in
      rw n (ap (λ s. some (s, none)) (sym (nothing_new (length before) rest emitted w)))
  read_chunks-all (suc fuel) room k size seen before (x ∷ xs) ahead rest emitted w enough =
      let q : ℕ = min (length xs) (max_buff - 1) in
      let few : length (drop q xs) < fuel = omega (arith, length-drop q xs) in
      subst
        (λ (ys : List ℕ).
          read_chunks codec always max_buff (suc fuel) k (length (x ∷ ys))
            (healthy size seen (before ++ ((x ∷ ys) ++ ahead)))
            (at (length before) inode rest emitted)
          ≡ some (after_bytes (length before + length (x ∷ ys)) (rest ++ (x ∷ ys)) emitted, none))
        (take-append-drop q xs)
        (read_chunks-round fuel (read_chunks-all fuel room) k size seen x before (take q xs)
          (drop q xs) ahead rest emitted (first_chunk q x xs ahead refl room) few)
