-- ===== src/Mysql/Mapper/Row.antt =====
-- The rows that `ToRow` of reader_modules/mod_log_mysql/field_mapper.go makes.
use mathlib.Core.Option
use log_reader.Prelude.{
  String, Bool, true, false, ◌&&◌, ◌≡◌, refl, inl, inr, List, [], ◌∷◌, Option, some, All, subst,
  Option-cases, >>=-eq-ok, ok_inj, ok, ◌>>=◌, arith, lookup,
}
use log_reader.Fields.Types.{FieldType}
use log_reader.Fields.Log.{BfeLog}
use log_reader.Fields.Value.{Value, type_of, is_zero_value}
use log_reader.Fields.Entry.{FieldEntry}
use log_reader.Fields.Registry.{FieldRegistry, register_all_fields, extract}
use log_reader.Fields.Sound.{extract-typed, extract_unknown}
use log_reader.Mysql.Columns.{
  ColumnDef, ColumnKind, scalar, bool_tiny, json, log_time, tag_name, tag_value, column_defs,
}
use log_reader.Mysql.Mapper.{tags_of, cell_of, cell, cells, to_row}
use log_reader.Mysql.Mapper.Cells.{
  CellFits, scalar_cell-fits, json_cell-fits, bool_cell-fits, time_cell-fits, flatten_tag-fits,
}

-- A value belongs to a list of columns, place by place.
abbrev pub Rowwise : (ColumnDef → Value → Type 0) → List ColumnDef → List Value → Type 0
Rowwise P [] [] = Unit
Rowwise P (c ∷ cs) (v ∷ vs) = P c v × Rowwise P cs vs
Rowwise P _ _ = ⊥

-- The type that a field is registered with.
abbrev declared : String → String → Option FieldType
declared host name =
    Option.map (λ (e : FieldEntry). e.def.typ) (lookup name (register_all_fields host).fields)

-- A `bool_tiny` column names a field of type "bool".
abbrev SoundColumn : String → ColumnDef → Type 0
SoundColumn host col = col.kind ≡ bool_tiny → declared host col.field ≡ some FieldType.bool

extract-zero :
    (host name : String) (log : BfeLog)
    → (extract (register_all_fields host) name log).1
      ≡ is_zero_value (extract (register_all_fields host) name log).0
unfolding is_zero_value
extract-zero host name log = elim (Option-cases (lookup name (register_all_fields host).fields)) [
  | inl absent ↦ rw (extract_unknown (register_all_fields host) name log absent)
  | inr (e, found) ↦ (extract-typed host name log e found).1
]

extract-declared :
    (host name : String) (log : BfeLog) (t : FieldType)
    → declared host name ≡ some t
    → type_of (extract (register_all_fields host) name log).0 ≡ some t
extract-declared host name log t h =
    elim (Option-cases (lookup name (register_all_fields host).fields)) [
      | inl absent ↦ cc absent
      | inr (e, found) ↦ cc ((extract-typed host name log e found).0, found)
    ]

abbrev is_bool : Option FieldType → Bool
is_bool o = elim o [ some FieldType.bool ↦ true | _ ↦ false ]

abbrev sound_kind : String → ColumnKind → String → Bool
sound_kind host k field = elim k [ bool_tiny ↦ is_bool (declared host field) | _ ↦ true ]

abbrev sound_columns : String → List ColumnDef → Bool
sound_columns host [] = true
sound_columns host (c ∷ cs) = sound_kind host c.kind c.field && sound_columns host cs

is_bool-eq : (o : Option FieldType) → is_bool o ≡ true → o ≡ some FieldType.bool
is_bool-eq o h = ground arith

sound_columns-All :
    (host : String) (cols : List ColumnDef)
    → sound_columns host cols ≡ true
    → All (SoundColumn host) cols
sound_columns-All host [] h = tt
sound_columns-All host (c ∷ cs) h = (
  (λ k. is_bool-eq (declared host c.field) (go c.kind k (both _ _ h).0)),
  sound_columns-All host cs (both _ _ h).1,
)
  where
    both : (a b : Bool) → (a && b) ≡ true → (a ≡ true) × (b ≡ true)
    both a b e = ground arith

    go :
        (k : ColumnKind)
        → k ≡ bool_tiny
        → sound_kind host k c.field ≡ true
        → is_bool (declared host c.field) ≡ true
    go bool_tiny e t = t
    go scalar e t = cc
    go _ e t = cc

column_defs_sound : (host : String) → All (SoundColumn host) column_defs
column_defs_sound host =
    sound_columns-All host column_defs (unfold column_defs register_all_fields in refl)

module _ (marshal : Value → Option String) (host : String) (log : BfeLog) where
  abbrev reg : FieldRegistry
  reg = register_all_fields host

  timestamp_declared : declared host "timestamp" ≡ some FieldType.uint64
  unfolding register_all_fields
  timestamp_declared = refl

  cell_of-fits :
      (k : ColumnKind) (col : ColumnDef) (v : Value)
      → (k ≡ bool_tiny → declared host col.field ≡ some FieldType.bool)
      → cell_of marshal reg log k col ≡ ok v
      → CellFits marshal k v
  unfolding cell_of
  cell_of-fits log_time col v sound h =
      subst (CellFits marshal log_time) (ok_inj h) (
        time_cell-fits _
          (extract-declared host "timestamp" log FieldType.uint64 timestamp_declared))
  cell_of-fits bool_tiny col v sound h =
      subst (CellFits marshal bool_tiny) (ok_inj h)
        (bool_cell-fits _ (extract-declared host col.field log FieldType.bool (sound refl)))
  cell_of-fits json col v sound h =
      let (x, z) = extract reg col.field log in json_cell-fits marshal col.name x z v h
  cell_of-fits tag_name col v sound h =
      subst (CellFits marshal tag_name) (ok_inj h)
        (flatten_tag-fits (tags_of (extract reg "ai_apikeytags" log).0) col.level).0
  cell_of-fits tag_value col v sound h =
      subst (CellFits marshal tag_value) (ok_inj h)
        (flatten_tag-fits (tags_of (extract reg "ai_apikeytags" log).0) col.level).1
  cell_of-fits scalar col v sound h =
      subst (CellFits marshal scalar) (ok_inj h)
        (scalar_cell-fits _ _ (extract-zero host col.field log))

  -- A place of the row: the column's value, of the column's kind.
  abbrev pub Place : ColumnDef → Value → Type 0
  Place col v = (cell marshal reg log col ≡ ok v) × CellFits marshal col.kind v

  cells-Rowwise :
      (cols : List ColumnDef) (row : List Value)
      → All (SoundColumn host) cols
      → cells marshal reg log cols ≡ ok row
      → Rowwise Place cols row
  unfolding cells cell_of cell
  cells-Rowwise [] row s h = subst (Rowwise Place []) (ok_inj h) tt
  cells-Rowwise (col ∷ cols) row s h =
      let (v, hv, h') =
        >>=-eq-ok (cell marshal reg log col) (λ v. cells marshal reg log cols >>= λ r. ok (v ∷ r))
          h in
      let (rest, hr, h'') = >>=-eq-ok (cells marshal reg log cols) (λ r. ok (v ∷ r)) h' in
      subst (Rowwise Place (col ∷ cols)) (ok_inj h'')
        ((hv, cell_of-fits col.kind col v s.0 hv), cells-Rowwise cols rest s.1 hr)

  -- When `ToRow` succeeds, the row has one value for each of the columns, in their order, and the
  -- value fits its column: a scalar column never holds the empty text, a flag is the number 0 or 1, a
  -- JSON column is NULL or a text that `json.Marshal` returned, the time column holds a time, and a
  -- tag column is NULL or a text that is not empty.
  pub to_row-Rowwise :
      (row : List Value) → to_row marshal reg log ≡ ok row → Rowwise Place column_defs row
  unfolding to_row
  to_row-Rowwise row h = cells-Rowwise column_defs row (column_defs_sound host) h
