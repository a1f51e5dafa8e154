-- ===== src/Tail/Total/Last.antt =====
-- The loops of `tailLastN` end.
use log_reader.Prelude.{
  ℕ, zero, suc, ◌+◌, ◌-◌, ◌*◌, ◌<◌, min, is_nil, take, drop, Bool, ◌&&◌, List, [], ◌++◌, Option,
  none, some, Result, ok, err, arith, ltb, ◌==◌, ==-self, if_elim, if_elim_eq, length, ℤ, pos,
  negsuc,
}
use log_reader.Fields.Log.{BfeLog}
use log_reader.Reader.Framing.{Framing, no_more, same_rest}
use log_reader.Reader.Parse.{Codec, pb_buff_parse}
use log_reader.Tail.LastN.{
  TailError, seek_fails, read_fails, stat_fails, TailFile, Access, works, no_seek, no_read,
  parse_all, chunk_loop, give_out, tail_chunks, tail_last_n, initial_chunk, max_chunk,
}
use log_reader.Tail.Total.{IsTotal}

module _ (codec : Codec) (law : Framing codec) where
  module _ (n : ℕ) (positive : 0 < n) where
    parsed_rest-IsTotal :
        (fuel : ℕ) (xs leftover : List ℕ) (parsed : List BfeLog)
        → IsTotal (parse_all codec n (suc fuel) (pb_buff_parse codec xs).1 parsed leftover)
    unfolding parse_all
    parsed_rest-IsTotal fuel xs leftover parsed =
        let rest : List ℕ = (pb_buff_parse codec xs).1 in
        rw (no_more codec law xs, same_rest codec law xs, ==-self (length rest))
          (if_elim IsTotal (ltb 0 (length rest) && ltb (length parsed) n) _ _ tt tt)

    parse_all-IsTotal :
        (fuel : ℕ) (buf leftover : List ℕ) (parsed : List BfeLog)
        → IsTotal (parse_all codec n (suc (suc fuel)) buf parsed leftover)
    unfolding parse_all
    parse_all-IsTotal fuel buf leftover parsed =
        let p : List BfeLog × List ℕ × ℕ = pb_buff_parse codec buf in
        if_elim IsTotal (ltb 0 (length buf) && ltb (length parsed) n) _ (some (parsed, leftover))
          (if_elim IsTotal (is_nil p.0 && length p.1 == length buf) (some (parsed, p.1)) _ tt
            (parsed_rest-IsTotal fuel buf p.1 (parsed ++ p.0)))
          tt

    module _ (largest : ℕ) (content : List ℕ) (access : ℕ → Access) (large : 0 < largest) where
      chunk_loop-IsTotal :
          (fuel round offset chunk_size : ℕ) (buffer leftover : List ℕ) (parsed : List BfeLog)
          → offset < fuel
          → 0 < chunk_size
          → IsTotal (
              chunk_loop codec n largest content access fuel round offset chunk_size buffer parsed
                leftover)
      unfolding chunk_loop
      chunk_loop-IsTotal zero round offset chunk_size buffer leftover parsed h p =
          absurd (omega arith)
      chunk_loop-IsTotal (suc fuel) round offset chunk_size buffer leftover parsed h p =
          if_elim_eq IsTotal (ltb 0 offset && ltb (length parsed) n) _ (some (ok parsed))
            (λ t.
              accessed (access round)
                (parse_all codec n (suc (n + length buffer')) buffer' parsed leftover)
                (enough (n + length buffer') (omega arith))
                (λ parsed' leftover'.
                  chunk_loop-IsTotal fuel (suc round) (offset - size) (min (size * 2) largest)
                    buffer' leftover' parsed' (ground arith) (ground arith)))
            (λ f. tt)
        where
          size : ℕ
          size = min chunk_size offset

          buffer' : List ℕ
          buffer' = take size (drop (offset - size) content) ++ (leftover ++ buffer)

          enough : (m : ℕ) → 0 < m → IsTotal (parse_all codec n (suc m) buffer' parsed leftover)
          enough zero q = absurd (omega arith)
          enough (suc m) q = parse_all-IsTotal m buffer' leftover parsed

          accessed :
              (a : Access) (o : Option (List BfeLog × List ℕ))
              → IsTotal o
              → ((parsed' : List BfeLog) (leftover' : List ℕ)
                  → IsTotal (
                      chunk_loop codec n largest content access fuel
                        (suc round)
                        (offset - size)
                        (min (size * 2) largest)
                        buffer'
                        parsed'
                        leftover'))
              → IsTotal {A = Result TailError (List BfeLog)} (elim a [
                | no_seek ↦ some (err seek_fails)
                | no_read ↦ some (err read_fails)
                | works ↦ elim o [
                  | none ↦ none
                  | some (parsed', leftover') ↦
                      chunk_loop codec n largest content access fuel
                        (suc round)
                        (offset - size)
                        (min (size * 2) largest)
                        buffer'
                        parsed'
                        leftover'
                ]
              ])
          accessed no_seek o h g = tt
          accessed no_read o h g = tt
          accessed works (some (parsed', leftover')) h g = g parsed' leftover'
          accessed works none h g = absurd h

  give_out-IsTotal :
      (fails : ℕ → Bool) (n : ℕ) (f : TailFile) (o : Option (Result TailError (List BfeLog)))
      → IsTotal o
      → IsTotal (give_out fails n f o)
  give_out-IsTotal fails n f none h = h
  give_out-IsTotal fails n f (some (err e)) h = tt
  give_out-IsTotal fails n f (some (ok parsed)) h = tt

  pub tail_last_n-IsTotal :
      (fails : ℕ → Bool) (f : TailFile) (n : ℤ) → IsTotal (tail_last_n codec fails f n)
  unfolding tail_last_n tail_chunks
  tail_last_n-IsTotal fails f (negsuc n) = tt
  tail_last_n-IsTotal fails f (pos zero) = tt
  tail_last_n-IsTotal fails f (pos (suc n)) =
      let size : ℕ = length f.content in
      if_elim IsTotal f.opens _ (some (record { emitted = []; answer = err TailError.open_fails }))
        (if_elim IsTotal f.stats _ (some (record { emitted = []; answer = err stat_fails }))
          (if_elim IsTotal (size == 0) (some (record { emitted = []; answer = ok (0, f.inode) })) _
            tt
            (give_out-IsTotal fails (suc n) f _ (
              chunk_loop-IsTotal (suc n) (omega arith) max_chunk f.content f.access (omega arith)
                (suc size) 0 size initial_chunk [] [] [] (omega arith) (omega arith))))
          tt)
        tt
