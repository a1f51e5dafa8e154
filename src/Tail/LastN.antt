-- ===== src/Tail/LastN.antt =====
-- `tailLastN`: the last n records of a file, read backwards in chunks.
pub mod OneChunk
pub mod Repeats
use log_reader.Prelude.{
  is_nil, ℕ, zero, suc, ◌+◌, ◌-◌, ◌*◌, min, Bool, true, false, ◌&&◌, List, [], ◌∷◌, ◌++◌, Option,
  none, some, Result, ok, err, ltb, ◌==◌, if◌then◌else◌, length, take, drop, ℤ, pos, negsuc,
}
use log_reader.Fields.Log.{BfeLog}
use log_reader.Reader.Parse.{Codec, pb_buff_parse}

-- Why the function returns an error, other than that of the callback.
pub data TailError : Type 0 where
  invalid_n open_fails stat_fails seek_fails read_fails emit_fails : TailError

-- What happens to the seek and the read of a chunk.
pub data Access : Type 0 where
  works no_seek no_read : Access

-- The file: its bytes, its inode, whether it can be opened and known, and the accesses to its chunks.
pub record TailFile : Type 0 where
  pub opens : Bool
  pub stats : Bool
  pub content : List ℕ
  pub inode : ℕ
  pub access : ℕ → Access

-- The records that were given to the callback, and the result.
pub record TailOutcome : Type 0 where
  pub emitted : List BfeLog
  pub answer : Result TailError (ℕ × ℕ)

-- parsedRecords[len(parsedRecords)-n:], if there are more than n.
abbrev pub keep_last {ℓ} : {A : Type ℓ} → ℕ → List A → List A
keep_last n xs = if ltb n (length xs) then drop (length xs - n) xs else xs

-- The last loop: the callback's k-th call fails if `fails k`. The records before it are given out.
unfoldable pub emit_all : (ℕ → Bool) → ℕ → List BfeLog → List BfeLog × Bool
emit_all fails k [] = ([], true)
emit_all fails k (r ∷ rs) =
    let rest : List BfeLog × Bool = emit_all fails (suc k) rs in
    if fails k then (r ∷ [], false) else (r ∷ rest.0, rest.1)

module _ (codec : Codec) (n : ℕ) where
  -- The inner loop: the records so far, and the leftover. `none` is out of fuel.
  unfoldable pub parse_all : ℕ → List ℕ → List BfeLog → List ℕ → Option (List BfeLog × List ℕ)
  unfolding pb_buff_parse
  parse_all zero buf parsed leftover = none
  parse_all (suc fuel) buf parsed leftover =
      let p : List BfeLog × List ℕ × ℕ = pb_buff_parse codec buf in
      let more : Option (List BfeLog × List ℕ) = parse_all fuel p.1 (parsed ++ p.0) p.1 in
      if ltb 0 (length buf) && ltb (length parsed) n
      then if is_nil p.0 && length p.1 == length buf then some (parsed, p.1) else more
      else some (parsed, leftover)

  -- The outer loop from the end of the file backwards. Its fuel is the offset and one, since each
  -- round lowers the offset; that of the inner loop is the missing records and the bytes, since each
  -- of its rounds finds a record or shortens the buffer.
  module _ (max_chunk : ℕ) (content : List ℕ) (access : ℕ → Access) where
    unfoldable pub chunk_loop :
        ℕ → ℕ → ℕ → ℕ → List ℕ → List BfeLog → List ℕ → Option (Result TailError (List BfeLog))
    unfolding parse_all
    chunk_loop zero round offset chunk_size buffer parsed leftover = none
    chunk_loop (suc fuel) round offset chunk_size buffer parsed leftover =
        let size : ℕ = min chunk_size offset in
        let start : ℕ = offset - size in
        let buffer' : List ℕ = take size (drop start content) ++ (leftover ++ buffer) in
        let rest : Option (Result TailError (List BfeLog)) =
          elim (parse_all (suc (n + length buffer')) buffer' parsed leftover) [
            | none ↦ none
            | some (parsed', leftover') ↦
                chunk_loop fuel (suc round) start (min (size * 2) max_chunk) buffer' parsed'
                  leftover'
          ] in
        if ltb 0 offset && ltb (length parsed) n
        then elim (access round) [
          | no_seek ↦ some (err seek_fails)
          | no_read ↦ some (err read_fails)
          | works ↦ rest
        ]
        else some (ok parsed)

abbrev pub initial_chunk : ℕ
initial_chunk = 8 * 1024 * 1024

abbrev pub max_chunk : ℕ
max_chunk = 64 * 1024 * 1024

abbrev pub give_out :
    (ℕ → Bool) → ℕ → TailFile → Option (Result TailError (List BfeLog)) → Option TailOutcome
give_out fails n f none = none
give_out fails n f (some (err e)) = some (record { emitted = []; answer = err e })
give_out fails n f (some (ok parsed)) =
    let out : List BfeLog × Bool = emit_all fails 0 (keep_last n parsed) in
    some (record {
      emitted = out.0;
      answer = if out.1 then ok (length f.content, f.inode) else err emit_fails;
    })

module _ (codec : Codec) (first largest : ℕ) (fails : ℕ → Bool) where
  -- `tailLastN` for a positive n, with the sizes of the first and of the largest chunk.
  unfoldable pub tail_chunks : TailFile → ℕ → Option TailOutcome
  unfolding chunk_loop emit_all
  tail_chunks f n =
      let size : ℕ = length f.content in
      if f.opens
      then if f.stats
        then if size == 0
          then some (record { emitted = []; answer = ok (0, f.inode) })
          else give_out fails n f
              (chunk_loop codec n largest f.content f.access (suc size) 0 size first [] [] [])
        else some (record { emitted = []; answer = err stat_fails })
      else some (record { emitted = []; answer = err open_fails })

-- `tailLastN` itself.
unfoldable pub tail_last_n : Codec → (ℕ → Bool) → TailFile → ℤ → Option TailOutcome
unfolding tail_chunks
tail_last_n codec fails f (negsuc n) = some (record { emitted = []; answer = err invalid_n })
tail_last_n codec fails f (pos zero) = some (record { emitted = []; answer = err invalid_n })
tail_last_n codec fails f (pos (suc n)) = tail_chunks codec initial_chunk max_chunk fails f (suc n)
