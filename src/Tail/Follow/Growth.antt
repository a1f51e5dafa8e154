-- ===== src/Tail/Follow/Growth.antt =====
-- What `followFrom` gives to its callback while the file grows, and when it is replaced.
use log_reader.Prelude.{
  and-false, ℕ, suc, ◌+◌, ◌-◌, ◌<◌, true, false, List, [], ◌∷◌, ◌++◌, append_assoc, Option, none,
  some, ◌≡◌, refl, ap, ◌∙◌, sym, arith, ltb, length, concat, length-append, map,
}
use log_reader.Fields.Log.{BfeLog}
use log_reader.Reader.Parse.{Codec, pb_buff_parse}
use log_reader.Reader.Framing.{Framing}
use log_reader.Tail.Follow.{
  Turn, Poll, FollowState, and_then, append_data, rotated, poll_once, follow_polls, follow_from,
}
use log_reader.Tail.Follow.Parsing.{at, always}
use log_reader.Tail.Follow.Chunks.{
  healthy, after_bytes, join_bytes, nothing_new, AllRead, read_chunks-all,
}

-- The turns at a file that grows: what is appended before a turn looks at the file, and what is
-- appended after that, while the turn reads.
abbrev pub growing : ℕ → List ℕ → List (List ℕ × List ℕ) → List Poll
growing inode before [] = []
growing inode before ((new, ahead) ∷ ps) =
    healthy (length before + length new) inode (before ++ (new ++ ahead))
    ∷ growing inode (before ++ new) ps

abbrev pub appended : List (List ℕ × List ℕ) → List ℕ
appended ps = concat (map (λ (p : List ℕ × List ℕ). p.0) ps)

module _ (codec : Codec) (law : Framing codec) (max_buff inode : ℕ) where
  append_data-grows :
      (size seen : ℕ) (before new ahead rest : List ℕ) (emitted : List BfeLog)
      → 0 < max_buff
      → codec.buff_parse rest ≡ ([], rest)
      → append_data codec always max_buff
          (length before + length new)
          (healthy size seen (before ++ (new ++ ahead)))
          (at (length before) inode rest emitted)
        ≡ some (
          after_bytes codec law max_buff inode (length before + length new) (rest ++ new) emitted,
          none,
        )
  unfolding append_data AllRead
  append_data-grows size seen before [] ahead rest emitted room w =
      let t : ltb (length before) (length before + 0) ≡ false = ground arith in
      let n : length before + 0 ≡ length before = omega arith in
      rw (t, n)
        (ap (λ s. some (s, none)) (sym (nothing_new codec law max_buff inode _ rest emitted w)))
  append_data-grows size seen before (x ∷ xs) ahead rest emitted room w =
      let t : ltb (length before) (length before + length (x ∷ xs)) ≡ true = ground arith in
      let n : (length before + length (x ∷ xs)) - length before ≡ length (x ∷ xs) = omega arith in
      rw (t, n)
        (read_chunks-all codec law max_buff inode (suc (length (x ∷ xs))) room 0 size seen before
          (x ∷ xs) ahead rest emitted w (omega arith))

  poll_once-grows :
      (before new ahead rest : List ℕ) (emitted : List BfeLog)
      → 0 < max_buff
      → codec.buff_parse rest ≡ ([], rest)
      → poll_once codec always max_buff
          (healthy (length before + length new) inode (before ++ (new ++ ahead)))
          (at (length before) inode rest emitted)
        ≡ some (
          after_bytes codec law max_buff inode (length before + length new) (rest ++ new) emitted,
          none,
        )
  unfolding poll_once
  poll_once-grows before new ahead rest emitted room w =
      let r : rotated (length before + length new) inode (at (length before) inode rest emitted)
          ≡ false =
        ground arith in
      rw r (append_data-grows _ _ before new ahead rest emitted room w)

  follow_polls-grows :
      (before rest : List ℕ) (ps : List (List ℕ × List ℕ)) (emitted : List BfeLog)
      → 0 < max_buff
      → codec.buff_parse rest ≡ ([], rest)
      → follow_polls codec always max_buff
          (growing inode before ps)
          (at (length before) inode rest emitted)
        ≡ some (
          after_bytes codec law max_buff inode
              (length before + length (appended ps))
              (rest ++ appended ps)
              emitted,
          none,
        )
  unfolding follow_polls pb_buff_parse
  follow_polls-grows before rest [] emitted room w =
      let n : length before + 0 ≡ length before = omega arith in
      rw n (ap (λ s. some (s, none)) (sym (nothing_new codec law max_buff inode _ rest emitted w)))
  follow_polls-grows before rest ((new, ahead) ∷ ps) emitted room w =
      let p : List BfeLog × List ℕ × ℕ = pb_buff_parse codec (rest ++ new) in
      let here : length before + length new ≡ length (before ++ new) =
        sym (length-append before new) in
      let there : length (before ++ new) + length (appended ps)
          ≡ length before + length (new ++ appended ps) =
        omega (arith, length-append before new, length-append new (appended ps)) in
      let finish : after_bytes codec law max_buff inode
            (length (before ++ new) + length (appended ps)) (p.1 ++ appended ps) (emitted ++ p.0)
          ≡ after_bytes codec law max_buff inode (length before + length (new ++ appended ps))
              (rest ++ (new ++ appended ps)) emitted =
        rw there (join_bytes codec law max_buff inode _ (rest ++ new) (appended ps) emitted)
        ∙ ap
            (λ ys.
              after_bytes codec law max_buff inode (length before + length (new ++ appended ps)) ys
                emitted)
            (append_assoc rest new (appended ps)) in
      let others =
        follow_polls-grows (before ++ new) p.1 ps (emitted ++ p.0) room (law.remains (rest ++ new))
        ∙ ap (λ s. some (s, none)) finish in
      rw (poll_once-grows before new ahead rest emitted room w, here) others

module _ (codec : Codec) (law : Framing codec) (max_buff : ℕ) where
  -- For a codec that frames the stream however it is cut, which finds nothing in no bytes, and a
  -- callback that never fails: over any number of turns at which bytes are appended to the file, and
  -- none of whose calls fail, `followFrom` gives out the records of all that was appended since the
  -- start, in order, however the turns and the chunks cut them; it keeps the bytes of the record that
  -- is not complete, and stands at the end of what it has read. Bytes that are appended while a turn
  -- reads are left to the next turn.
  pub follow_from-grows :
      (inode : ℕ) (before : List ℕ) (ps : List (List ℕ × List ℕ))
      → 0 < max_buff
      → codec.buff_parse [] ≡ ([], [])
      → let p : List BfeLog × List ℕ × ℕ = pb_buff_parse codec (appended ps) in
        follow_from codec always max_buff true true (length before) inode (growing inode before ps)
        ≡ some (at (length before + length (appended ps)) inode p.1 p.0, none)
  unfolding follow_from
  follow_from-grows inode before ps room w =
      rw (and-false (ltb 0 (length before)))
        (follow_polls-grows codec law max_buff inode before [] ps [] room w)

  follow_polls-append :
      (xs ys : List Poll) (s : FollowState)
      → follow_polls codec always max_buff (xs ++ ys) s
        ≡ and_then (follow_polls codec always max_buff xs s) (follow_polls codec always max_buff ys)
  unfolding follow_polls
  follow_polls-append [] ys s = refl
  follow_polls-append (x ∷ xs) ys s =
      go (poll_once codec always max_buff x s) (follow_polls-append xs ys)
    where
      go :
          (o : Option Turn)
          → ((t : FollowState)
              → follow_polls codec always max_buff (xs ++ ys) t
                ≡ and_then
                    (follow_polls codec always max_buff xs t)
                    (follow_polls codec always max_buff ys))
          → and_then o (follow_polls codec always max_buff (xs ++ ys))
            ≡ and_then
                (and_then o (follow_polls codec always max_buff xs))
                (follow_polls codec always max_buff ys)
      go none h = refl
      go (some (t, some e)) h = refl
      go (some (t, none)) h = h t

  -- A turn at which the file is found to be another one.
  follow_polls-rotates :
      (inode inode' offset : ℕ) (rest new ahead : List ℕ) (qs : List (List ℕ × List ℕ))
      (emitted : List BfeLog)
      → 0 < max_buff
      → codec.buff_parse [] ≡ ([], [])
      → rotated (length new) inode' (at offset inode rest emitted) ≡ true
      → follow_polls codec always max_buff
          (growing inode' [] ((new, ahead) ∷ qs))
          (at offset inode rest emitted)
        ≡ follow_polls codec always max_buff
            (growing inode' [] ((new, ahead) ∷ qs))
            (at 0 inode' [] emitted)
  unfolding follow_polls poll_once
  follow_polls-rotates inode inode' offset rest new ahead qs emitted room w r =
      let still : rotated (length new) inode' (at 0 inode' [] emitted) ≡ false = ground arith in
      let n : 0 + length new ≡ length new = omega arith in rw (n, r, still) refl

  -- In the same way, if the file has grown and then is another one, told by its inode or by its being
  -- shorter than what was read: what follows is read from the beginning of the new file, and no
  -- byte of the old file is taken for the beginning of a record of the new one. Given out are the
  -- records of what was appended to the old file before its last turn looked at its size, and then
  -- those of what was in the new file when its last turn looked. The old file is not read again: what
  -- is appended to it while its last turn reads, or later, is lost.
  pub follow_from-rotates :
      (inode inode' : ℕ) (before new ahead : List ℕ) (ps qs : List (List ℕ × List ℕ))
      → 0 < max_buff
      → codec.buff_parse [] ≡ ([], [])
      → let old : List BfeLog × List ℕ × ℕ = pb_buff_parse codec (appended ps) in
        let p : List BfeLog × List ℕ × ℕ = pb_buff_parse codec (new ++ appended qs) in
        rotated (length new) inode' (at (length before + length (appended ps)) inode old.1 old.0)
          ≡ true
        → follow_from codec always max_buff true true
            (length before)
            inode
            (growing inode before ps ++ growing inode' [] ((new, ahead) ∷ qs))
          ≡ some (at (length (new ++ appended qs)) inode' p.1 (old.0 ++ p.0), none)
  unfolding follow_from
  follow_from-rotates inode inode' before new ahead ps qs room w r =
      let old : List BfeLog × List ℕ × ℕ = pb_buff_parse codec (appended ps) in
      let n : 0 + length (new ++ appended qs) ≡ length (new ++ appended qs) = omega arith in
      rw (and-false (ltb 0 (length before))) (
        follow_polls-append (growing inode before ps) (growing inode' [] ((new, ahead) ∷ qs))
          (at (length before) inode [] [])
        ∙ rw (follow_polls-grows codec law max_buff inode before [] ps [] room w) (
            follow_polls-rotates inode inode' (length before + length (appended ps)) old.1 new ahead
              qs old.0 room w r
            ∙ follow_polls-grows codec law max_buff inode' [] [] ((new, ahead) ∷ qs) old.0 room w
            ∙ ap
                (λ k.
                  some (after_bytes codec law max_buff inode' k (new ++ appended qs) old.0, none))
                n))
