-- ===== src/Reader/Parse.antt =====
-- `PbBuffParse` of bfe_log_reader/pb_buff_parse.go. `b2log.BuffParse` and `proto.Unmarshal` are not
-- part of the repository.
use log_reader.Prelude.{ℕ, suc, List, [], ◌∷◌, Option, none, some}
use log_reader.Fields.Log.{BfeLog}

-- `buff_parse` cuts a buffer into the frames that it holds whole and the bytes that are left.
pub record Codec : Type 0 where
  pub buff_parse : List ℕ → List (List ℕ) × List ℕ
  pub unmarshal : List ℕ → Option BfeLog

-- One turn of the loop: the record joins the others, or `ERR_PB_DECODE` is counted.
abbrev pub add_record : Option BfeLog → List BfeLog × ℕ → List BfeLog × ℕ
add_record none (records, errors) = (records, suc errors)
add_record (some r) (records, errors) = (r ∷ records, errors)

-- The records that decode, and how many frames do not.
unfoldable pub decode : (List ℕ → Option BfeLog) → List (List ℕ) → List BfeLog × ℕ
decode unmarshal [] = ([], 0)
decode unmarshal (frame ∷ frames) = add_record (unmarshal frame) (decode unmarshal frames)

-- The records, the bytes that are left, and the increments of `ERR_PB_DECODE`.
unfoldable pub pb_buff_parse : Codec → List ℕ → List BfeLog × List ℕ × ℕ
unfolding decode
pb_buff_parse codec buffer =
    let (frames, rest) = codec.buff_parse buffer in
    let (records, errors) = decode codec.unmarshal frames in (records, rest, errors)
