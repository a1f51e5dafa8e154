-- ===== src/Mysql/Mapper/Cells.antt =====
-- What the cells of `ToRow` (reader_modules/mod_log_mysql/field_mapper.go) may hold.
use log_reader.Prelude.{
  to_int64, ℕ, String, Bool, true, false, ◌≡◌, ◌≢◌, refl, ◌⊎◌, inl, inr, List, Option, none, some,
  Option-cases, Bool-cases, str_eq, ok, ℤ, pos, arith, lookup, eq_iff,
}
use log_reader.Fields.Types.{FieldType}
use log_reader.Fields.Value.{
  ApikeyTagJson, Value, nil, string, uint64, int64, time, type_of, is_zero_value,
}
use log_reader.Fields.Extractors.{level_key}
use log_reader.Mysql.Columns.{ColumnKind, scalar, bool_tiny, json, log_time, tag_name, tag_value}
use log_reader.Mysql.Mapper.{bool_to_tiny_int, non_empty, flatten_tag, json_cell, scalar_cell}

-- What a column of each kind may hold.
abbrev pub CellFits : (Value → Option String) → ColumnKind → Value → Type 0
CellFits marshal scalar v = v ≢ string ""
CellFits marshal bool_tiny v = (v ≡ int64 (pos 0)) ⊎ (v ≡ int64 (pos 1))
CellFits marshal json v =
    (v ≡ nil) ⊎ ((x : Value) × (b : String) × (marshal x ≡ some b) × (v ≡ string b))
CellFits marshal log_time v = (s : ℤ) × (v ≡ time s)
CellFits marshal tag_name v = (v ≡ nil) ⊎ ((s : String) × (s ≢ "") × (v ≡ string s))
CellFits marshal tag_value v = (v ≡ nil) ⊎ ((s : String) × (s ≢ "") × (v ≡ string s))

pub scalar_cell-fits : (v : Value) (z : Bool) → z ≡ is_zero_value v → scalar_cell (v, z) ≢ string ""
unfolding scalar_cell is_zero_value
scalar_cell-fits (string s) z e h = ground (arith, eq_iff s "")
scalar_cell-fits nil z e h = ground arith
scalar_cell-fits _ z e h = ground arith

pub json_cell-fits :
    (marshal : Value → Option String) (name : String) (v : Value) (z : Bool) (c : Value)
    → json_cell marshal name (v, z) ≡ ok c
    → CellFits marshal json c
unfolding json_cell
json_cell-fits marshal name v true c h = inl (ground arith)
json_cell-fits marshal name nil false c h = inl (ground arith)
json_cell-fits marshal name v false c h = elim (Option-cases (marshal v)) [
  | inl e ↦ absurd (ground arith)
  | inr (b, e) ↦ inr (v, b, e, ground arith)
]

pub bool_cell-fits :
    (v : Value)
    → type_of v ≡ some FieldType.bool
    → (bool_to_tiny_int v ≡ int64 (pos 0)) ⊎ (bool_to_tiny_int v ≡ int64 (pos 1))
unfolding bool_to_tiny_int type_of
bool_cell-fits v h = ground arith

pub time_cell-fits :
    (v : Value)
    → type_of v ≡ some FieldType.uint64
    → (s : ℤ) × (elim v [ uint64 ts ↦ time (to_int64 ts) | _ ↦ nil ] ≡ time s)
unfolding type_of
time_cell-fits (uint64 n) h = (to_int64 n, refl)
time_cell-fits nil h = cc
time_cell-fits _ h = cc

text_fits :
    (s : String) → (non_empty s ≡ nil) ⊎ ((t : String) × (t ≢ "") × (non_empty s ≡ string t))
text_fits s = elim (Bool-cases (str_eq s "")) [
  | inl e ↦ inl (rw e)
  | inr e ↦ inr (s, (λ h. ground (arith, eq_iff s "")), rw e)
]

pub flatten_tag-fits :
    (tags : Option (List (String × Option ApikeyTagJson))) (l : ℕ)
    → CellFits (λ v. none) tag_name (flatten_tag tags l).0
      × CellFits (λ v. none) tag_value (flatten_tag tags l).1
unfolding flatten_tag
flatten_tag-fits none l = (inl refl, inl refl)
flatten_tag-fits (some m) l = go (lookup (level_key (pos l)) m)
  where
    go :
        (o : Option (Option ApikeyTagJson))
        → let p : Value × Value = elim o [
          | none ↦ (nil, nil)
          | some none ↦ (nil, nil)
          | some (some tag) ↦ (non_empty tag.tagname, non_empty tag.tagvalue)
        ] in
          CellFits (λ v. none) tag_name p.0 × CellFits (λ v. none) tag_value p.1
    go none = (inl refl, inl refl)
    go (some none) = (inl refl, inl refl)
    go (some (some tag)) = (text_fits tag.tagname, text_fits tag.tagvalue)
