-- ===== src/Tail/LastN/OneChunk.antt =====
-- `tailLastN` on a file that fits into the first chunk.
use log_reader.Prelude.{
  is_nil, ℕ, suc, ◌+◌, ◌-◌, ◌*◌, ◌≤◌, ◌<◌, min, true, false, ◌&&◌, List, [], ◌∷◌, ◌++◌, append-nil,
  Option, some, ok, ◌≡◌, refl, ◌∙◌, arith, ltb, ◌==◌, ==-self, if◌then◌else◌, if_elim, take-length,
  Bool-cases, inl, inr, length, take, drop,
}
use log_reader.Fields.Log.{BfeLog}
use log_reader.Reader.Parse.{Codec, pb_buff_parse}
use log_reader.Reader.Framing.{Framing, no_more, same_rest}
use log_reader.Tail.LastN.{
  Access, works, TailFile, keep_last, emit_all, parse_all, chunk_loop, tail_chunks,
}

module _ (codec : Codec) (law : Framing codec) where
  -- After the rest of a parse the loop ends.
  parse_all-rest :
      (fuel n : ℕ) (xs : List ℕ) (parsed : List BfeLog)
      → let r : List ℕ = (pb_buff_parse codec xs).1 in
        parse_all codec n (suc fuel) r parsed r ≡ some (parsed, r)
  unfolding parse_all
  parse_all-rest fuel n xs parsed =
      let r : List ℕ = (pb_buff_parse codec xs).1 in
      elim (Bool-cases (ltb 0 (length r) && ltb (length parsed) n)) [
        | inl t ↦ rw (t, no_more codec law xs, same_rest codec law xs, ==-self (length r)) refl
        | inr t ↦ rw t refl
      ]

  -- One parse of the buffer is enough.
  parse_all-once :
      (fuel n b : ℕ) (xs : List ℕ) (parsed : List BfeLog) (leftover : List ℕ)
      → length parsed < n
      → let p : List BfeLog × List ℕ × ℕ = pb_buff_parse codec (b ∷ xs) in
        parse_all codec n (suc (suc fuel)) (b ∷ xs) parsed leftover ≡ some (parsed ++ p.0, p.1)
  unfolding parse_all
  parse_all-once fuel n b xs parsed leftover room =
      let p : List BfeLog × List ℕ × ℕ = pb_buff_parse codec (b ∷ xs) in
      let t : (ltb 0 (length (b ∷ xs)) && ltb (length parsed) n) ≡ true = ground arith in
      rw t (go p.0 p.1 (parse_all-rest fuel n (b ∷ xs) (parsed ++ p.0)))
    where
      go :
          (records : List BfeLog) (rest : List ℕ)
          → parse_all codec n (suc fuel) rest (parsed ++ records) rest
            ≡ some (parsed ++ records, rest)
          → (if is_nil records && length rest == length (b ∷ xs)
              then some (parsed, rest)
              else parse_all codec n (suc fuel) rest (parsed ++ records) rest)
            ≡ some (parsed ++ records, rest)
      go [] rest h =
          if_elim (λ (o : Option (List BfeLog × List ℕ)). o ≡ some (parsed ++ [], rest))
            (length rest == length (b ∷ xs)) (some (parsed, rest)) _ (rw (append-nil parsed) refl) h
      go (r ∷ rs) rest h = h

-- A file that can be opened and known.
abbrev pub readable : List ℕ → ℕ → (ℕ → Access) → TailFile
readable content inode access = record {
  opens = true;
  stats = true;
  content = content;
  inode = inode;
  access = access;
}

-- A callback that never fails is given every record.
pub emit_all-never : (k : ℕ) (rs : List BfeLog) → emit_all (λ j. false) k rs ≡ (rs, true)
unfolding emit_all
emit_all-never k [] = refl
emit_all-never k (r ∷ rs) = rw (emit_all-never (suc k) rs) refl

module _ (codec : Codec) (n largest : ℕ) (content : List ℕ) (access : ℕ → Access) where
  -- A round whose chunk can be read, and which finds more than nothing to parse.
  pub chunk_loop-step :
      (law : Framing codec) (fuel round offset chunk_size b : ℕ) (buffer ys leftover : List ℕ)
      (parsed : List BfeLog)
      → access round ≡ works
      → 0 < offset
      → length parsed < n
      → let size : ℕ = min chunk_size offset in
        let p : List BfeLog × List ℕ × ℕ = pb_buff_parse codec (b ∷ ys) in
        take size (drop (offset - size) content) ++ (leftover ++ buffer) ≡ b ∷ ys
        → chunk_loop codec n largest content access
            (suc fuel)
            round
            offset
            chunk_size
            buffer
            parsed
            leftover
          ≡ chunk_loop codec n largest content access fuel
              (suc round)
              (offset - size)
              (min (size * 2) largest)
              (b ∷ ys)
              (parsed ++ p.0)
              p.1
  unfolding chunk_loop
  chunk_loop-step law fuel round offset chunk_size b buffer ys leftover parsed w more room e =
      let t : (ltb 0 offset && ltb (length parsed) n) ≡ true = ground arith in
      let m : n + length (b ∷ ys) ≡ suc (n + length ys) = omega arith in
      rw (t, w, e, m, parse_all-once codec law (n + length ys) n b ys parsed leftover room, e) refl

  -- At the beginning of the file the loop ends.
  pub chunk_loop-end :
      (fuel round chunk_size : ℕ) (buffer leftover : List ℕ) (parsed : List BfeLog)
      → chunk_loop codec n largest content access
          (suc fuel)
          round
          0
          chunk_size
          buffer
          parsed
          leftover
        ≡ some (ok parsed)
  unfolding chunk_loop
  chunk_loop-end fuel round chunk_size buffer leftover parsed = refl

module _ (codec : Codec) (first largest n inode : ℕ) (access : ℕ → Access) where
  one_chunk :
      (law : Framing codec) (b : ℕ) (xs : List ℕ)
      → 0 < n
      → suc (length xs) ≤ first
      → access 0 ≡ works
      → chunk_loop codec n largest
          (b ∷ xs)
          access
          (suc (suc (length xs)))
          0
          (suc (length xs))
          first
          []
          []
          []
        ≡ some (ok (pb_buff_parse codec (b ∷ xs)).0)
  one_chunk law b xs some_n fits w =
      let l : ℕ = suc (length xs) in
      let size : min first l ≡ l = omega arith in
      let start : l - l ≡ 0 = omega arith in
      let whole : take (min first l) (drop (l - min first l) (b ∷ xs)) ++ [] ≡ b ∷ xs =
        rw (size, start, take-length xs) (append-nil (b ∷ xs)) in
      chunk_loop-step codec n largest (b ∷ xs) access law l 0 l first b [] xs [] [] w (omega arith)
        some_n whole
      ∙ rw (size, start) (chunk_loop-end codec n largest (b ∷ xs) access _ _ _ _ _ _)

  -- For a codec that frames the stream however it is cut: from a file that is not empty, fits into
  -- the first chunk and can be read, the callback, if it never fails, is given the last n of the
  -- file's records, or all if there are fewer, in the order of the file; the result is the size of the
  -- file and its inode, from which the file is then followed.
  pub tail_chunks-one :
      (law : Framing codec) (b : ℕ) (xs : List ℕ)
      → 0 < n
      → suc (length xs) ≤ first
      → access 0 ≡ works
      → tail_chunks codec first largest (λ k. false) (readable (b ∷ xs) inode access) n
        ≡ some (record {
          emitted = keep_last n (pb_buff_parse codec (b ∷ xs)).0;
          answer = ok (suc (length xs), inode);
        })
  unfolding tail_chunks
  tail_chunks-one law b xs some_n fits w =
      let full : (length (b ∷ xs) == 0) ≡ false = ground arith in
      rw (full, one_chunk law b xs some_n fits w, emit_all-never) refl
