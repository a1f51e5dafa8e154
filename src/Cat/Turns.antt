-- ===== src/Cat/Turns.antt =====
-- The turns of the two goroutines of `PblogCat`, and how much work they leave.
use log_reader.Prelude.{
  ℕ, zero, suc, ◌+◌, ◌≤◌, ◌<◌, Bool, true, false, List, [], ◌∷◌, ◌++◌, append-nil, append_assoc,
  ◌≡◌, refl, ap, ◌∙◌, sym, subst, ◌⊎◌, inl, inr, arith, ltb, if◌then◌else◌, if_elim_eq, Bool-cases,
  false≢true, length, length-append, concat, map,
}
use log_reader.Fields.Log.{BfeLog}
use log_reader.Reader.Parse.{Codec, pb_buff_parse}
use log_reader.Reader.Framing.{Framing, decode-chunked, rest-chunked}
use log_reader.Reader.Stream.{chunk}
use log_reader.Reader.{
  LogFileReader, ReadAnswer, bytes, file_read, f_read, check_read, data_buffer_parse,
}
use log_reader.Cat.{CatState, produce, consume, channel_size, produced, consumed, cat_step}

-- The answers of reads that find bytes.
abbrev pub reads : List (ℕ × List ℕ) → List ReadAnswer
reads cs = map (λ (c : ℕ × List ℕ). bytes (chunk c)) cs

abbrev pub all_bytes : List (ℕ × List ℕ) → List ℕ
all_bytes cs = concat (map chunk cs)

abbrev pub open_work : Bool → ℕ
open_work closed = if closed then 0 else 1

-- What is still to be done: two turns for each read to come, one for each buffer in the channel, and
-- one for the end of the file.
abbrev pub work : CatState → ℕ
work s = length s.answers + length s.answers + length s.channel + open_work s.closed

module _ (codec : Codec) (close_ok : Bool) where
  -- The bytes that were parsed are `done`, and the reads to come are those of `rest`.
  pub record CatInv (cs : List (ℕ × List ℕ)) (s : CatState) : Type 0 where
    pub done : List ℕ
    pub rest : List (ℕ × List ℕ)
    pub answers : s.answers ≡ reads rest
    pub whole : done ++ (concat s.channel ++ all_bytes rest) ≡ all_bytes cs
    pub shown : concat s.shown ≡ (pb_buff_parse codec done).0
    pub buffer : s.pbr.data_buffer ≡ (pb_buff_parse codec done).1
    pub last : s.closed ≡ true → rest ≡ []

  produce-eof :
      (s : CatState)
      → s.closed ≡ false
      → s.answers ≡ []
      → cat_step codec close_ok s produce ≡ record s { closed = true }
  unfolding cat_step produced file_read f_read check_read
  produce-eof s c a = rw (c, a) refl

  produce-data :
      (s : CatState) (c : ℕ × List ℕ) (more : List ReadAnswer)
      → s.closed ≡ false
      → s.answers ≡ bytes (chunk c) ∷ more
      → cat_step codec close_ok s produce ≡ (
          if ltb (length s.channel) channel_size
          then record s { channel = s.channel ++ (chunk c ∷ []); answers = more }
          else s)
  unfolding cat_step produced file_read f_read check_read
  produce-data s (b, d) more c a = rw (c, a) refl

  produce-closed : (s : CatState) → s.closed ≡ true → cat_step codec close_ok s produce ≡ s
  unfolding cat_step
  produce-closed s c = rw c refl

  pub consume-none : (s : CatState) → s.channel ≡ [] → cat_step codec close_ok s consume ≡ s
  unfolding cat_step consumed
  consume-none s e = rw e refl

  consume-some :
      (s : CatState) (buf : List ℕ) (rest : List (List ℕ))
      → s.channel ≡ buf ∷ rest
      → let p : List BfeLog × LogFileReader = data_buffer_parse codec false buf s.pbr in
        cat_step codec close_ok s consume
        ≡ record s { channel = rest; pbr = p.1; shown = s.shown ++ (p.0 ∷ []) }
  unfolding cat_step consumed
  consume-some s buf rest e = rw e refl

  concat-last :
      {A : Type 0} (xss : List (List A)) (xs : List A)
      → concat (xss ++ (xs ∷ [])) ≡ concat xss ++ xs
  concat-last [] xs = append-nil xs
  concat-last (ys ∷ xss) xs = rw (concat-last xss xs) (sym (append_assoc ys (concat xss) xs))

  -- A turn that parses a buffer keeps the invariant and is less work.
  pub consume-CatInv :
      (law : Framing codec) (cs : List (ℕ × List ℕ)) (s : CatState)
      → CatInv cs s
      → CatInv cs (cat_step codec close_ok s consume)
        × ((s.channel ≡ []) ⊎ (work (cat_step codec close_ok s consume) < work s))
  unfolding data_buffer_parse
  consume-CatInv law cs s h = go s.channel refl
    where
      go :
          (ch : List (List ℕ))
          → s.channel ≡ ch
          → CatInv cs (cat_step codec close_ok s consume)
            × ((s.channel ≡ []) ⊎ (work (cat_step codec close_ok s consume) < work s))
      go [] e = rw (consume-none s e) (h, inl e)
      go (buf ∷ rest) e =
          let p : List BfeLog × LogFileReader = data_buffer_parse codec false buf s.pbr in
          let parts : h.done ++ (buf ++ (concat rest ++ all_bytes h.rest)) ≡ all_bytes cs =
            ap (λ ys. h.done ++ ys) (sym (append_assoc buf (concat rest) (all_bytes h.rest)))
            ∙ subst (λ ch. h.done ++ (concat ch ++ all_bytes h.rest) ≡ all_bytes cs) e h.whole in
          let records : concat (s.shown ++ (p.0 ∷ [])) ≡ (pb_buff_parse codec (h.done ++ buf)).0 =
            concat-last s.shown p.0
            ∙ rw (h.shown, h.buffer) (sym (decode-chunked codec law h.done buf)) in
          let left : p.1.data_buffer ≡ (pb_buff_parse codec (h.done ++ buf)).1 =
            rw h.buffer (sym (rest-chunked codec law h.done buf)) in
          rw (consume-some s buf rest e) (
            record {
              done = h.done ++ buf;
              rest = h.rest;
              answers = h.answers;
              whole = append_assoc h.done buf (concat rest ++ all_bytes h.rest) ∙ parts;
              shown = records;
              buffer = left;
              last = h.last;
            },
            inr (rw e (omega arith)),
          )

  zero_or_more : (n : ℕ) → (n ≡ 0) ⊎ (0 < n)
  zero_or_more zero = inl refl
  zero_or_more (suc n) = inr (omega arith)

  -- What a turn of the first goroutine does: less work, unless all is done or the channel holds a
  -- buffer.
  abbrev pub Advances : List (ℕ × List ℕ) → CatState → CatState → Type 0
  Advances cs s t =
      CatInv cs t
      × (work t ≤ work s)
      × ((work s ≡ 0) ⊎ ((work t < work s) ⊎ (0 < length s.channel)))

  produce-data-Advances :
      (cs : List (ℕ × List ℕ)) (s : CatState) (h : CatInv cs s) (c : ℕ × List ℕ)
      → (rest : List (ℕ × List ℕ)) → s.closed ≡ false
      → h.rest ≡ c ∷ rest
      → Advances cs s (cat_step codec close_ok s produce)
  produce-data-Advances cs s h c rest o e =
      let now : s.answers ≡ bytes (chunk c) ∷ reads rest = h.answers ∙ ap reads e in
      let n : length s.answers ≡ suc (length (reads rest)) = ap length now in
      let m : length (s.channel ++ (chunk c ∷ [])) ≡ length s.channel + 1 =
        length-append s.channel (chunk c ∷ []) in
      let parts : h.done ++ (concat (s.channel ++ (chunk c ∷ [])) ++ all_bytes rest)
          ≡ all_bytes cs =
        rw
          (
            concat-last s.channel (chunk c),
            append_assoc (concat s.channel) (chunk c) (all_bytes rest),
          )
          (subst (λ r. h.done ++ (concat s.channel ++ all_bytes r) ≡ all_bytes cs) e h.whole) in
      rw (produce-data s c (reads rest) o now) (
        if_elim_eq (Advances cs s) (ltb (length s.channel) channel_size) _ s
          (λ t. (
            record {
              done = h.done;
              rest = rest;
              answers = refl;
              whole = parts;
              shown = h.shown;
              buffer = h.buffer;
              last = λ closed. absurd (false≢true (sym o ∙ closed));
            },
            omega (arith, n, m),
            inr (inl (omega (arith, n, m))),
          ))
          (λ f. (h, omega arith, inr (inr (ground arith)))))

  pub produce-Advances :
      (cs : List (ℕ × List ℕ)) (s : CatState)
      → CatInv cs s
      → Advances cs s (cat_step codec close_ok s produce)
  produce-Advances cs s h = elim (Bool-cases s.closed) [
    | inl c ↦
        let n : length s.answers ≡ 0 = ap length (h.answers ∙ ap reads (h.last c)) in
        rw (produce-closed s c) (
          h,
          omega arith,
          elim (zero_or_more (length s.channel)) [
            | inl z ↦ inl (rw c (omega (arith, n, z)))
            | inr p ↦ inr (inr p)
          ],
        )
    | inr o ↦ go h.rest refl o
  ]
    where
      go :
          (rest : List (ℕ × List ℕ))
          → h.rest ≡ rest
          → s.closed ≡ false
          → Advances cs s (cat_step codec close_ok s produce)
      go [] e o = rw (produce-eof s o (h.answers ∙ ap reads e)) (
        record {
          done = h.done;
          rest = h.rest;
          answers = h.answers;
          whole = h.whole;
          shown = h.shown;
          buffer = h.buffer;
          last = λ closed. e;
        },
        rw o (omega arith),
        inr (inl (rw o (omega arith))),
      )
      go (c ∷ rest) e o = produce-data-Advances cs s h c rest o e
