-- ===== src/Cat/Completes.antt =====
-- Runs of the two goroutines of `PblogCat` up to their end.
use log_reader.Prelude.{
  ℕ, zero, suc, ◌+◌, ◌-◌, ◌*◌, ◌≤◌, Bool, true, false, List, [], ◌∷◌, ◌++◌, append-nil, some, ok,
  ◌≡◌, refl, ap, ◌∙◌, sym, subst, ◌⊎◌, inl, inr, arith, Bool-cases, false≢true, length, concat,
  length-map,
}
use log_reader.Reader.Parse.{Codec, pb_buff_parse}
use log_reader.Reader.Framing.{Framing, frameless}
use log_reader.Reader.Stream.{chunk}
use log_reader.Reader.{
  Counters, LogFileReader, OpenAnswers, bytes, log_file_open, save_info, close_file_and_init,
}
use log_reader.Cat.{
  CatState, CatEvent, produce, consume, cat_step, cat_run, cat_start, wait, cat_waited, pblog_cat,
  new_pb_log_reader,
}
use log_reader.Cat.Turns.{
  reads, all_bytes, work, open_work, CatInv, consume-none, consume-CatInv, Advances,
  produce-Advances,
}

-- n turns of each goroutine.
abbrev pub rounds : ℕ → List CatEvent
rounds zero = []
rounds (suc n) = consume ∷ produce ∷ rounds n

module _ (codec : Codec) (close_ok : Bool) where
  cat_run-append :
      (es fs : List CatEvent) (s : CatState)
      → cat_run codec close_ok s (es ++ fs)
        ≡ cat_run codec close_ok (cat_run codec close_ok s es) fs
  unfolding cat_run
  cat_run-append [] fs s = refl
  cat_run-append (e ∷ es) fs s = cat_run-append es fs (cat_step codec close_ok s e)

  module _ (law : Framing codec) (cs : List (ℕ × List ℕ)) where
    cat_step-CatInv :
        (s : CatState) (e : CatEvent)
        → CatInv codec close_ok cs s
        → CatInv codec close_ok cs (cat_step codec close_ok s e)
          × (work (cat_step codec close_ok s e) ≤ work s)
    cat_step-CatInv s produce h =
        let (h', le, more) = produce-Advances codec close_ok cs s h in (h', le)
    cat_step-CatInv s consume h =
        let (h', w) = consume-CatInv codec close_ok law cs s h in
        (
          h',
          elim w [
            | inl e ↦ rw (consume-none codec close_ok s e) (omega arith)
            | inr lt ↦ omega arith
          ],
        )

    cat_run-CatInv :
        (es : List CatEvent) (s : CatState)
        → CatInv codec close_ok cs s
        → CatInv codec close_ok cs (cat_run codec close_ok s es)
          × (work (cat_run codec close_ok s es) ≤ work s)
    unfolding cat_run
    cat_run-CatInv [] s h = (h, omega arith)
    cat_run-CatInv (e ∷ es) s h =
        let (h', le) = cat_step-CatInv s e h in
        let (h'', le') = cat_run-CatInv es (cat_step codec close_ok s e) h' in (h'', omega arith)

    -- A turn of each is less work, while there is any.
    round-work :
        (s : CatState)
        → CatInv codec close_ok cs s
        → work (cat_step codec close_ok (cat_step codec close_ok s consume) produce) ≤ work s - 1
    round-work s h =
        let (h', w) = consume-CatInv codec close_ok law cs s h in
        let s' : CatState = cat_step codec close_ok s consume in
        let (h'', le, more) = produce-Advances codec close_ok cs s' h' in
        elim w [
          | inr lt ↦ omega arith
          | inl e ↦
              rw (consume-none codec close_ok s e)
                (empty e (produce-Advances codec close_ok cs s h))
        ]
      where
        empty :
            s.channel ≡ []
            → Advances codec close_ok cs s (cat_step codec close_ok s produce)
            → work (cat_step codec close_ok s produce) ≤ work s - 1
        empty e (h', le, inl z) = omega arith
        empty e (h', le, inr (inl lt)) = omega arith
        empty e (h', le, inr (inr p)) =
            let n : length s.channel ≡ 0 = ap length e in absurd (omega arith)

    rounds-work :
        (n : ℕ) (s : CatState)
        → CatInv codec close_ok cs s
        → work (cat_run codec close_ok s (rounds n)) ≤ work s - n
    unfolding cat_run
    rounds-work zero s h = omega arith
    rounds-work (suc n) s h =
        let (h', le) = cat_run-CatInv (consume ∷ produce ∷ []) s h in
        let once = round-work s h in
        let others =
          rounds-work n (cat_step codec close_ok (cat_step codec close_ok s consume) produce) h' in
        omega arith

    -- Where there is no work left, all is shown.
    done-shows :
        (s : CatState)
        → CatInv codec close_ok cs s
        → work s ≡ 0
        → (s.closed ≡ true)
          × (s.channel ≡ [])
          × (concat s.shown ≡ (pb_buff_parse codec (all_bytes cs)).0)
    done-shows s h none_left =
        let closed : s.closed ≡ true = is_closed (Bool-cases s.closed) in
        let channel : s.channel ≡ [] = is_empty s.channel (omega arith) in
        let whole : h.done ≡ all_bytes cs =
          sym (append-nil h.done)
          ∙ subst (λ r. h.done ++ all_bytes r ≡ all_bytes cs) (h.last closed)
              (subst (λ ch. h.done ++ (concat ch ++ all_bytes h.rest) ≡ all_bytes cs) channel
                h.whole) in
        (closed, channel, h.shown ∙ ap (λ xs. (pb_buff_parse codec xs).0) whole)
      where
        is_closed : (s.closed ≡ true) ⊎ (s.closed ≡ false) → s.closed ≡ true
        is_closed (inl c) = c
        is_closed (inr o) =
            let one : open_work s.closed ≡ 1 = ap open_work o in absurd (omega arith)

        is_empty : (ch : List (List ℕ)) → length ch ≡ 0 → ch ≡ []
        is_empty [] e = refl
        is_empty (x ∷ ch) e = absurd (omega arith)

    start-CatInv :
        (lr : LogFileReader)
        → codec.buff_parse [] ≡ ([], [])
        → lr.data_buffer ≡ []
        → CatInv codec close_ok cs (cat_start codec close_ok lr (reads cs))
    start-CatInv lr nothing clean =
        let (none_shown, none_left) = frameless codec [] nothing in
        record {
          done = [];
          rest = cs;
          answers = refl;
          whole = refl;
          shown = sym none_shown;
          buffer = clean ∙ sym none_left;
          last = λ closed. absurd (false≢true closed);
        }

    run-completes :
        (es : List CatEvent) (lr : LogFileReader)
        → codec.buff_parse [] ≡ ([], [])
        → lr.data_buffer ≡ []
        → let s : CatState =
            cat_run codec close_ok
              (cat_start codec close_ok lr (reads cs))
              (es ++ rounds (2 * length cs + 1)) in
          (s.closed ≡ true)
          × (s.channel ≡ [])
          × (concat s.shown ≡ (pb_buff_parse codec (all_bytes cs)).0)
    run-completes es lr nothing clean =
        let s : CatState = cat_start codec close_ok lr (reads cs) in
        let n : ℕ = 2 * length cs + 1 in
        let (h, le) = cat_run-CatInv es s (start-CatInv lr nothing clean) in
        let (h', le') = cat_run-CatInv (rounds n) (cat_run codec close_ok s es) h in
        let fewer = rounds-work n (cat_run codec close_ok s es) h in
        rw (cat_run-append es (rounds n) s) (
          done-shows (cat_run codec close_ok (cat_run codec close_ok s es) (rounds n)) h'
            (omega (arith, length-map cs (λ (c : ℕ × List ℕ). bytes (chunk c)))))

wait-done :
    (codec : Codec) (close_ok : Bool) (s : CatState)
    → s.closed ≡ true
    → s.channel ≡ []
    → wait codec close_ok s ≡ some s
wait-done codec close_ok s closed channel = rw (closed, channel) refl

-- For a codec that frames the stream however it is cut, a file that can be opened, and reads that
-- find the given bytes and then the end: whatever turns the two goroutines have taken, at most
-- 2 n + 1 further turns of each, with n the number of reads, let `PblogCat` return, without an error:
-- the callback has been given all records of the file, each once and in order.
pub pblog_cat-completes :
    (codec : Codec) (close_ok from_begin : Bool) (law : Framing codec) (cs : List (ℕ × List ℕ))
    → (es : List CatEvent) (info : ℕ) (counters : Counters) → codec.buff_parse [] ≡ ([], [])
    → let opening : OpenAnswers = record {
      open_ok = true;
      seek_ok = true;
      stat = some info;
      close_ok = true;
    } in
      (s : CatState) × (lr : LogFileReader) × (pblog_cat codec close_ok from_begin opening counters
          true
          (reads cs)
          (es ++ rounds (2 * length cs + 1))
        ≡ some (ok s, lr))
      × (concat s.shown ≡ (pb_buff_parse codec (all_bytes cs)).0)
unfolding pblog_cat log_file_open save_info
pblog_cat-completes codec close_ok from_begin law cs es info counters nothing =
    let opening : OpenAnswers = record {
      open_ok = true;
      seek_ok = true;
      stat = some info;
      close_ok = true;
    } in
    let lr : LogFileReader = (log_file_open from_begin opening (new_pb_log_reader counters)).1 in
    let s : CatState =
      cat_run codec close_ok (cat_start codec close_ok lr (reads cs))
        (es ++ rounds (2 * length cs + 1)) in
    let (closed, channel, shown) = run-completes codec close_ok law cs es lr nothing refl in
    (
      s,
      close_file_and_init close_ok s.pbr,
      ap (cat_waited codec close_ok) (wait-done codec close_ok s closed channel),
      shown,
    )
