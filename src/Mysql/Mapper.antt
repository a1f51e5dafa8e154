-- ===== src/Mysql/Mapper.antt =====
-- `FieldMapper` of reader_modules/mod_log_mysql/field_mapper.go: a record becomes a row. `marshal` is
-- the `json.Marshal` that the mapper calls, with `none` for an error; `reg` is the registry.
pub mod Cells
pub mod Row
pub mod Tags
pub mod Errors
use log_reader.Prelude.{
  to_int64, ℕ, ◌-◌, ◌^◌, String, Bool, List, [], ◌∷◌, Option, none, some, Result, ok, err, ◌>>=◌, ℤ,
  pos, negsuc, ltb, str_eq, if◌then◌else◌, lookup,
}
use log_reader.Fields.Log.{BfeLog}
use log_reader.Fields.Value.{Value, nil, string, uint64, int64, bool, object, time, ApikeyTagJson}
use log_reader.Fields.Extractors.{level_key}
use log_reader.Fields.Registry.{FieldRegistry, extract}
use log_reader.Mysql.Columns.{
  ColumnDef, ColumnKind, scalar, bool_tiny, json, log_time, tag_name, tag_value, column_defs,
}

unfoldable pub bool_to_tiny_int : Value → Value
bool_to_tiny_int v = elim v [
  | bool b ↦ if b then int64 (pos 1) else int64 (pos 0)
  | nil ↦ nil
  | other ↦ other
]

-- tags, _ = v.(map[string]interface{}): `none` is the nil map.
abbrev pub tags_of : Value → Option (List (String × Option ApikeyTagJson))
tags_of v = elim v [ object m ↦ some m | _ ↦ none ]

abbrev pub non_empty : String → Value
non_empty s = if str_eq s "" then nil else string s

unfoldable pub flatten_tag : Option (List (String × Option ApikeyTagJson)) → ℕ → Value × Value
unfolding level_key
flatten_tag none level = (nil, nil)
flatten_tag (some tags) level = elim (lookup (level_key (pos level)) tags) [
  | none ↦ (nil, nil)
  | some none ↦ (nil, nil)
  | some (some tag) ↦ (non_empty tag.tagname, non_empty tag.tagvalue)
]

-- The value of a `json` column, or the name of the column that cannot be marshalled.
unfoldable pub json_cell : (Value → Option String) → String → Value × Bool → Result String Value
json_cell marshal name (v, is_zero) = if is_zero then ok nil else elim v [
  | nil ↦ ok nil
  | v' ↦ elim (marshal v') [ none ↦ err name | some b ↦ ok (string b) ]
]

unfoldable pub scalar_cell : Value × Bool → Value
scalar_cell (v, is_zero) = if is_zero then elim v [ string s ↦ nil | other ↦ other ] else v

module _ (marshal : Value → Option String) (reg : FieldRegistry) (log : BfeLog) where
  unfoldable pub cell_of : ColumnKind → ColumnDef → Result String Value
  unfolding extract json_cell scalar_cell bool_to_tiny_int flatten_tag
  cell_of log_time col =
      ok (elim (extract reg "timestamp" log).0 [ uint64 ts ↦ time (to_int64 ts) | _ ↦ nil ])
  cell_of bool_tiny col = ok (bool_to_tiny_int (extract reg col.field log).0)
  cell_of json col = json_cell marshal col.name (extract reg col.field log)
  cell_of tag_name col = ok (flatten_tag (tags_of (extract reg "ai_apikeytags" log).0) col.level).0
  cell_of tag_value col = ok (flatten_tag (tags_of (extract reg "ai_apikeytags" log).0) col.level).1
  cell_of scalar col = ok (scalar_cell (extract reg col.field log))

  unfoldable pub cell : ColumnDef → Result String Value
  unfolding cell_of
  cell col = cell_of col.kind col

  unfoldable pub cells : List ColumnDef → Result String (List Value)
  cells [] = ok []
  cells (col ∷ cols) = do v ← cell col; row ← cells cols; ok (v ∷ row)

  unfoldable pub to_row : Result String (List Value)
  unfolding cell cells column_defs
  to_row = cells column_defs
