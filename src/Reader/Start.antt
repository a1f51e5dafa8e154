-- ===== src/Reader/Start.antt =====
-- The loop of `Start` (bfe_log_reader/pb_log_reader.go): what is read goes to the modules. The sleeps
-- of the loop are left out.
pub mod Counts
pub mod Delivery
pub mod Turns
pub mod Opening
pub mod Files
use log_reader.Prelude.{
  ℕ, suc, ◌+◌, String, Bool, List, [], ◌∷◌, ◌++◌, Option, none, some, Result, ok, err, ℤ, length,
}
use log_reader.Fields.Log.{BfeLog}
use log_reader.Reader.Batch.{batches, dispatch}
use log_reader.Reader.Dispatch.{ModuleMap}
use log_reader.Reader.Parse.{Codec}
use log_reader.Reader.{LogFileReader, Io, ReadError, log_read}

-- `PbLogReader` once the modules are bound, with the two counters that the loop increments.
pub record PbLogReader (M : Type 0) : Type 0 where
  pub file : LogFileReader
  pub modules : Option (ModuleMap M)
  pub max_size_per_batch : ℤ
  pub sum_read_records_empty : ℕ
  pub sum_pb_batch_count : ℕ

-- The calls of `Update` that the loop starts, each with its module.
abbrev pub Calls : Type 0 → Type 0
Calls M = List ((String × M) × List BfeLog)

module _ {M : Type 0} where
  -- Records without modules to take them are dropped, with an error in the log.
  unfoldable pub to_modules :
      Option (ModuleMap M) → List BfeLog → PbLogReader M → Calls M × PbLogReader M
  to_modules none records s = ([], s)
  to_modules (some ms) records s =
      let bs : List (List BfeLog) = batches s.max_size_per_batch records in
      (dispatch ms bs, record s { sum_pb_batch_count = s.sum_pb_batch_count + length bs })

  unfoldable pub after_read :
      Result ReadError (List BfeLog) → PbLogReader M → Calls M × PbLogReader M
  unfolding to_modules
  after_read (err e) s = ([], s)
  after_read (ok []) s = ([], record s { sum_read_records_empty = suc s.sum_read_records_empty })
  after_read (ok (r ∷ records)) s = to_modules s.modules (r ∷ records) s

  module _ (codec : Codec) (from_begin : Bool) where
    unfoldable pub start_turn : Io → PbLogReader M → Calls M × PbLogReader M
    unfolding after_read
    start_turn io s =
        let r : Result ReadError (List BfeLog) × LogFileReader =
          log_read codec from_begin io s.file in
        after_read r.0 (record s { file = r.1 })

    -- `Start`, for the answers of the operating system in each turn.
    unfoldable pub start_loop : List Io → PbLogReader M → Calls M × PbLogReader M
    unfolding start_turn
    start_loop [] s = ([], s)
    start_loop (io ∷ ios) s =
        let t : Calls M × PbLogReader M = start_turn io s in
        let rest : Calls M × PbLogReader M = start_loop ios t.1 in (t.0 ++ rest.0, rest.1)
