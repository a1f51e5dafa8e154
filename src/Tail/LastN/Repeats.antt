-- ===== src/Tail/LastN/Repeats.antt =====
-- `tailLastN` on a file that needs a second chunk.
use log_reader.Prelude.{
  ℕ, suc, ◌+◌, ◌-◌, ◌*◌, ◌≤◌, ◌<◌, min, false, List, [], ◌∷◌, ◌++◌, append-nil, some, ok, ◌≡◌, refl,
  ap, ◌∙◌, sym, subst, arith, ◌==◌, length, take, drop, length-append, take-append, drop-append,
  take-length,
}
use log_reader.Fields.Log.{BfeLog}
use log_reader.Reader.Parse.{Codec, pb_buff_parse}
use log_reader.Reader.Framing.{Framing}
use log_reader.Tail.LastN.{Access, works, keep_last, chunk_loop, tail_chunks}
use log_reader.Tail.LastN.OneChunk.{readable, emit_all-never, chunk_loop-step, chunk_loop-end}

module _ (codec : Codec) (law : Framing codec) (largest n inode : ℕ) (access : ℕ → Access) where
  two_chunks :
      (b c : ℕ) (bs cs : List ℕ)
      → let older : List ℕ = b ∷ bs in
        let newer : List ℕ = c ∷ cs in
        let first : ℕ = length newer in
        length older ≤ min (first * 2) largest
        → (pb_buff_parse codec newer).1 ≡ []
        → length (pb_buff_parse codec newer).0 < n
        → access 0 ≡ works
        → access 1 ≡ works
        → (fuel : ℕ)
        → chunk_loop codec n largest
            (older ++ newer)
            access
            (suc (suc (suc fuel)))
            0
            (length (older ++ newer))
            first
            []
            []
            []
          ≡ some (ok ((pb_buff_parse codec newer).0 ++ (pb_buff_parse codec (older ++ newer)).0))
  two_chunks b c bs cs fits whole few w w' fuel =
      let older : List ℕ = b ∷ bs in
      let newer : List ℕ = c ∷ cs in
      let l : length (older ++ newer) ≡ length older + length newer = length-append older newer in
      let size : min (length newer) (length (older ++ newer)) ≡ length newer = omega (arith, l) in
      let start : length (older ++ newer) - length newer ≡ length older = omega (arith, l) in
      let size' : min (min (length newer * 2) largest) (length older) ≡ length older =
        omega arith in
      let start' : length older - length older ≡ 0 = omega arith in
      let last : take (length newer) (drop (length older) (older ++ newer)) ++ [] ≡ newer =
        rw (drop-append older newer) (ap (λ ys. ys ++ []) (take-length newer) ∙ append-nil newer) in
      let found : List BfeLog = (pb_buff_parse codec newer).0 in
      let then : take (length older) (older ++ newer) ++ newer ≡ older ++ newer =
        rw (take-append bs newer) refl in
      chunk_loop-step codec n largest (older ++ newer) access law (suc (suc fuel)) 0
        (length (older ++ newer)) (length newer) c [] cs [] [] w (omega arith) (omega arith)
        (rw (size, start) last)
      ∙ rw (size, start, whole)
          (chunk_loop-step codec n largest (older ++ newer) access law (suc fuel) 1 (length older)
              (min (length newer * 2) largest) b newer (bs ++ newer) [] found w' (omega arith) few
              (rw (size', start') then)
            ∙ rw (size', start')
                (chunk_loop-end codec n largest (older ++ newer) access _ _ _ _ _ _))

  -- For a codec that frames the stream however it is cut: from a readable file that consists of a
  -- second chunk `b ∷ bs` and of a first one `c ∷ cs`, which holds whole frames, but fewer than n
  -- records: the callback, if it never fails, is given the last n of the records of the first chunk
  -- followed by those of the whole file. The newest records come twice, the first time before older
  -- ones, unless the file alone has n records.
  pub tail_chunks-two :
      (b c : ℕ) (bs cs : List ℕ)
      → suc (length bs) ≤ min (suc (length cs) * 2) largest
      → (pb_buff_parse codec (c ∷ cs)).1 ≡ []
      → length (pb_buff_parse codec (c ∷ cs)).0 < n
      → access 0 ≡ works
      → access 1 ≡ works
      → tail_chunks codec
          (suc (length cs))
          largest
          (λ k. false)
          (readable ((b ∷ bs) ++ (c ∷ cs)) inode access)
          n
        ≡ some (record {
          emitted =
              keep_last n (
                (pb_buff_parse codec (c ∷ cs)).0 ++ (pb_buff_parse codec ((b ∷ bs) ++ (c ∷ cs))).0);
          answer = ok (length ((b ∷ bs) ++ (c ∷ cs)), inode);
        })
  unfolding tail_chunks
  tail_chunks-two b c bs cs fits whole few w w' =
      let full : (length ((b ∷ bs) ++ (c ∷ cs)) == 0) ≡ false = ground arith in
      let content : List ℕ = (b ∷ bs) ++ (c ∷ cs) in
      let fuel : suc (length content) ≡ suc (suc (suc (length bs + length cs))) =
        omega (arith, length-append bs (c ∷ cs)) in
      let both =
        subst
          (λ f.
            chunk_loop codec n largest content access f 0 (length content) (suc (length cs)) [] []
              []
            ≡ some (ok ((pb_buff_parse codec (c ∷ cs)).0 ++ (pb_buff_parse codec content).0)))
          (sym fuel) (two_chunks b c bs cs fits whole few w w' (length bs + length cs)) in
      rw (full, both, emit_all-never) refl
