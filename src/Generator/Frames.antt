-- ===== src/Generator/Frames.antt =====
-- The bytes that the log generator writes, and the records that `PbBuffParse` finds in them.
use log_reader.Prelude.{
  ℕ, zero, suc, ◌+◌, List, [], ◌∷◌, ◌++◌, append-nil, append_assoc, Option, none, some, ◌≡◌, refl,
  sym, ap, ◌∙◌, arith, length, length-drop, take-append, drop-append, take-length, drop, replicate,
  map, All,
}
use mathlib.Core.Option.{some-injective, none-ne-some}
use log_reader.Fields.Log.{BfeLog}
use log_reader.Reader.Parse.{Codec, decode, pb_buff_parse}
use log_reader.Generator.{
  Encoder, WriteIo, copied, append_file, write_marshaled, write_headed, write_bfe_log, or_fatal,
  must_write_bfe_log, after_call, must_write_all,
}

-- What b2log says of its frames: `HeaderWrite` puts a header of `HEADER_SIZE` bytes before the rest
-- of the buffer, and `BuffParse` finds what stands behind it, if it has the size that the header was
-- written for. Two headers for one size may differ.
pub record Wire (codec : Codec) (enc : Encoder) : Type 0 where
  pub headed :
      (moment n : ℕ) (buf buf' : List ℕ)
      → enc.header_write moment buf n ≡ some buf'
      → (head : List ℕ) × (length head ≡ enc.header_size)
        × (buf' ≡ head ++ drop enc.header_size buf)
        × ((raw rest : List ℕ)
            → length raw ≡ n
            → codec.buff_parse (head ++ (raw ++ rest))
              ≡ (raw ∷ (codec.buff_parse rest).0, (codec.buff_parse rest).1))

-- What proto says of a record: whenever it is marshalled, it is decoded to itself, and `Size` is the
-- length of its bytes.
abbrev pub Restored : Codec → Encoder → BfeLog → Type 0
Restored codec enc log =
    (moment : ℕ) (raw : List ℕ)
    → enc.marshal moment log ≡ some raw
    → (length raw ≡ enc.size log) × (codec.unmarshal raw ≡ some log)

-- A call that does not end the test: what `HeaderWrite` and `Marshal` have given.
abbrev Written : Encoder → ℕ → BfeLog → List ℕ → List ℕ → Type 0
Written enc moment log file file' =
    (raw : List ℕ) × (buf : List ℕ) × (enc.marshal moment log ≡ some raw)
    × (enc.header_write moment (replicate (enc.header_size + enc.size log) 0) (enc.size log)
        ≡ some buf)
    × (file' ≡ file ++ copied enc.header_size raw buf)

append_file-fatal :
    (short : Option ℕ) (bs file file' : List ℕ)
    → or_fatal (append_file short bs file) ≡ some file'
    → file' ≡ file ++ bs
append_file-fatal none bs file file' e = sym (some-injective _ _ e)
append_file-fatal (some n) bs file file' e = absurd (none-ne-some _ e)

after_call-some :
    (o : Option (List ℕ)) (next : List ℕ → Option (List ℕ)) (file' : List ℕ)
    → after_call o next ≡ some file'
    → (middle : List ℕ) × (o ≡ some middle) × (next middle ≡ some file')
after_call-some none next file' e = absurd (none-ne-some _ e)
after_call-some (some middle) next file' e = (middle, refl, e)

module _ (enc : Encoder) where
  write_bfe_log-Written :
      (io : WriteIo) (log : BfeLog) (file file' : List ℕ)
      → or_fatal (write_bfe_log enc io log file) ≡ some file'
      → Written enc io.moment log file file'
  unfolding write_bfe_log
  write_bfe_log-Written io log file file' =
      after_header
        (enc.header_write io.moment (replicate (enc.header_size + enc.size log) 0) (enc.size log))
        refl
    where
      after_marshal :
          (buf : List ℕ) (m : Option (List ℕ))
          → enc.header_write io.moment (replicate (enc.header_size + enc.size log) 0) (enc.size log)
            ≡ some buf
          → enc.marshal io.moment log ≡ m
          → or_fatal (write_marshaled enc.header_size m io.short buf file) ≡ some file'
          → Written enc io.moment log file file'
      after_marshal buf none h m e = absurd (none-ne-some _ e)
      after_marshal buf (some raw) h m e =
          (raw, buf, m, h, append_file-fatal io.short _ file file' e)

      after_header :
          (h : Option (List ℕ))
          → enc.header_write io.moment (replicate (enc.header_size + enc.size log) 0) (enc.size log)
            ≡ h
          → or_fatal (write_headed enc h io log file) ≡ some file'
          → Written enc io.moment log file file'
      after_header none h e = absurd (none-ne-some _ e)
      after_header (some buf) h e = after_marshal buf (enc.marshal io.moment log) h refl e

length-replicate : (n : ℕ) → length {A = ℕ} (replicate n 0) ≡ n
length-replicate zero = refl
length-replicate (suc n) = ap suc (length-replicate n)

drop-length : (xs : List ℕ) → drop (length xs) xs ≡ []
drop-length [] = refl
drop-length (x ∷ xs) = drop-length xs

-- What is copied fills the room behind the header.
copied-append :
    (head raw room : List ℕ)
    → length raw ≡ length room
    → copied (length head) raw (head ++ room) ≡ head ++ raw
unfolding copied
copied-append head raw room e =
    rw
      (
        take-append head room,
        drop-append head room,
        ← e,
        take-length raw,
        ap (λ n. drop n room) e,
        drop-length room,
        append-nil raw,
      )
      refl

module _ (codec : Codec) (enc : Encoder) (wire : Wire codec enc) where
  -- The frame of a record: a header, and its bytes.
  Written-framed :
      (moment : ℕ) (log : BfeLog) (file file' : List ℕ)
      → Restored codec enc log
      → Written enc moment log file file'
      → (head : List ℕ) × (raw : List ℕ) × (file' ≡ file ++ (head ++ raw))
        × (codec.unmarshal raw ≡ some log)
        × ((rest : List ℕ)
            → codec.buff_parse (head ++ (raw ++ rest))
              ≡ (raw ∷ (codec.buff_parse rest).0, (codec.buff_parse rest).1))
  Written-framed moment log file file' back (raw, buf, m, h, w) =
      let zeros : List ℕ = replicate (enc.header_size + enc.size log) 0 in
      let (sized, decoded) = back moment raw m in
      let (head, long, whole, framed) = wire.headed moment (enc.size log) zeros buf h in
      let room : List ℕ = drop enc.header_size zeros in
      let same : (length raw) ≡ length room = omega (
        arith,
        sized,
        length-drop enc.header_size zeros,
        length-replicate (enc.header_size + enc.size log),
      ) in
      let frame : copied enc.header_size raw buf ≡ head ++ raw =
        ap (copied enc.header_size raw) whole
        ∙ (ap (λ k. copied k raw (head ++ room)) (sym long) ∙ copied-append head raw room same) in
      (head, raw, w ∙ ap (◌++◌ file) frame, decoded, λ rest. framed raw rest sized)

  -- Calls that do not end the test append bytes in which `PbBuffParse` finds their records, and
  -- nothing else.
  pub must_write_all-parsed :
      codec.buff_parse [] ≡ ([], [])
      → (calls : List (WriteIo × BfeLog)) (file file' : List ℕ)
      → All (Restored codec enc) (map (λ (c : WriteIo × BfeLog). c.1) calls)
      → must_write_all enc calls file ≡ some file'
      → (new : List ℕ) × (file' ≡ file ++ new)
        × ((pb_buff_parse codec new).0 ≡ map (λ (c : WriteIo × BfeLog). c.1) calls)
  unfolding must_write_all pb_buff_parse decode must_write_bfe_log
  must_write_all-parsed nothing [] file file' back e =
      ([], sym (some-injective _ _ e) ∙ sym (append-nil file), rw nothing refl)
  must_write_all-parsed nothing ((io, log) ∷ calls) file file' back e =
      let (middle, written, later) =
        after_call-some (must_write_bfe_log enc io log file) (must_write_all enc calls) file' e in
      let (head, raw, added, decoded, framed) =
        Written-framed io.moment log file middle back.0
          (write_bfe_log-Written enc io log file middle written) in
      let (new, rest, parsed) = must_write_all-parsed nothing calls middle file' back.1 later in
      let frame : List ℕ = head ++ raw in
      (
        frame ++ new,
        rest ∙ (ap (λ (l : List ℕ). l ++ new) added ∙ append_assoc file frame new),
        rw (append_assoc head raw new, framed new, decoded, parsed) refl,
      )
