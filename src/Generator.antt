-- ===== src/Generator.antt =====
-- `WriteBfeLog` and `MustWriteBfeLog` of tests/integration/common/log_generator.go, which append the
-- frame of a record to a log. The packages b2log and proto are not part of the repository.
pub mod RequestLog
pub mod Frames
pub mod RoundTrip
pub mod FromStart
pub mod Accounted
use log_reader.Prelude.{
  ℕ, ◌+◌, List, [], ◌∷◌, ◌++◌, Option, none, some, Result, ok, err, length, take, drop, replicate,
}
use log_reader.Fields.Log.{BfeLog}

-- The functions of the packages: `header_write` gives the buffer with the header in it, unless
-- `HeaderWrite` fails. What they return may depend on the moment of the call: a header has the time.
pub record Encoder : Type 0 where
  pub header_size : ℕ
  pub header_write : ℕ → List ℕ → ℕ → Option (List ℕ)
  pub size : BfeLog → ℕ
  pub marshal : ℕ → BfeLog → Option (List ℕ)

-- What a call is answered: the moment, and after how many bytes the file fails, if it does.
pub record WriteIo : Type 0 where
  pub moment : ℕ
  pub short : Option ℕ

pub data WriteError : Type 0 where
  header_error : WriteError
  marshal_error : WriteError
  write_error : WriteError

-- `copy(buf[at:], raw)`: as much of it as there is room for.
unfoldable pub copied : ℕ → List ℕ → List ℕ → List ℕ
copied at raw buf =
    take at buf ++ (take (length (drop at buf)) raw ++ drop (length raw) (drop at buf))

-- `Write` of a file that is open for appending fails after some bytes, or writes all.
abbrev pub append_file : Option ℕ → List ℕ → List ℕ → Result WriteError Unit × List ℕ
append_file none buf file = (ok tt, file ++ buf)
append_file (some n) buf file = (err write_error, file ++ take n buf)

-- The header is in the buffer.
abbrev pub write_marshaled :
    ℕ → Option (List ℕ) → Option ℕ → List ℕ → List ℕ → Result WriteError Unit × List ℕ
write_marshaled at none short buf file = (err marshal_error, file)
write_marshaled at (some raw) short buf file = append_file short (copied at raw buf) file

abbrev pub write_headed :
    Encoder → Option (List ℕ) → WriteIo → BfeLog → List ℕ → Result WriteError Unit × List ℕ
write_headed enc none io log file = (err header_error, file)
write_headed enc (some buf) io log file =
    write_marshaled enc.header_size (enc.marshal io.moment log) io.short buf file

unfoldable pub write_bfe_log : Encoder → WriteIo → BfeLog → List ℕ → Result WriteError Unit × List ℕ
unfolding copied
write_bfe_log enc io log file =
    let msize : ℕ = enc.size log in
    let buf : List ℕ = replicate (enc.header_size + msize) 0 in
    write_headed enc (enc.header_write io.moment buf msize) io log file

-- A test goes on only if there was no error.
abbrev pub or_fatal : Result WriteError Unit × List ℕ → Option (List ℕ)
or_fatal (ok u, file) = some file
or_fatal (err e, file) = none

unfoldable pub must_write_bfe_log : Encoder → WriteIo → BfeLog → List ℕ → Option (List ℕ)
unfolding write_bfe_log copied
must_write_bfe_log enc io log file = or_fatal (write_bfe_log enc io log file)

-- The calls of `MustWriteBfeLog` in a test, each with what the file answers: the file after them.
abbrev pub after_call : Option (List ℕ) → (List ℕ → Option (List ℕ)) → Option (List ℕ)
after_call none next = none
after_call (some file) next = next file

unfoldable pub must_write_all : Encoder → List (WriteIo × BfeLog) → List ℕ → Option (List ℕ)
unfolding must_write_bfe_log write_bfe_log copied
must_write_all enc [] file = some file
must_write_all enc ((io, log) ∷ calls) file =
    after_call (must_write_bfe_log enc io log file) (must_write_all enc calls)
