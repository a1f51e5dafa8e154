-- ===== src/Mysql/Mapper/Errors.antt =====
-- When `ToRow` of reader_modules/mod_log_mysql/field_mapper.go returns an error.
use log_reader.Prelude.{
  String, Bool, true, false, ◌≡◌, refl, inl, inr, List, [], ◌∷◌, Option, none, Result, ok, err,
  ◌>>=◌, Option-cases, ◌≢◌, subst,
}
use log_reader.Fields.Log.{BfeLog}
use log_reader.Fields.Value.{Value, nil}
use log_reader.Fields.Registry.{FieldRegistry, extract}
use log_reader.Mysql.Columns.{
  ColumnDef, ColumnKind, scalar, bool_tiny, json, log_time, tag_name, tag_value, column_defs,
}
use log_reader.Mysql.Mapper.{json_cell, cell_of, cell, cells, to_row}

module _ (marshal : Value → Option String) (reg : FieldRegistry) (log : BfeLog) where
  -- An error names a JSON column whose value `json.Marshal` refuses.
  abbrev pub Refused : String → Type 0
  Refused name =
      (col : ColumnDef) × (col.kind ≡ json)
      × (col.name ≡ name)
      × (marshal (extract reg col.field log).0 ≡ none)

  abbrev pub Explained : {A : Type 0} → Result String A → Type 0
  Explained (ok a) = Unit
  Explained (err name) = Refused name

  >>=-Explained :
      {A B : Type 0} (m : Result String A) (f : A → Result String B)
      → Explained m
      → ((a : A) → Explained (f a))
      → Explained (m >>= f)
  >>=-Explained (ok a) f h k = k a
  >>=-Explained (err e) f h k = h

  json_cell-Explained :
      (col : ColumnDef) (v : Value) (z : Bool)
      → col.kind ≡ json
      → (extract reg col.field log).0 ≡ v
      → Explained (json_cell marshal col.name (v, z))
  unfolding json_cell
  json_cell-Explained col v true k e = tt
  json_cell-Explained col nil false k e = tt
  json_cell-Explained col v false k e = elim (Option-cases (marshal v)) [
    | inl n ↦ rw n (col, k, refl, rw (e, n) refl)
    | inr (b, s) ↦ rw s tt
  ]

  cell_of-Explained :
      (kind : ColumnKind) (col : ColumnDef)
      → col.kind ≡ kind
      → Explained (cell_of marshal reg log kind col)
  unfolding cell_of
  cell_of-Explained log_time col k = tt
  cell_of-Explained bool_tiny col k = tt
  cell_of-Explained tag_name col k = tt
  cell_of-Explained tag_value col k = tt
  cell_of-Explained scalar col k = tt
  cell_of-Explained json col k =
      json_cell-Explained col (extract reg col.field log).0 (extract reg col.field log).1 k refl

  cells-Explained : (cols : List ColumnDef) → Explained (cells marshal reg log cols)
  unfolding cells cell
  cells-Explained [] = tt
  cells-Explained (col ∷ cols) =
      >>=-Explained (cell marshal reg log col) _ (cell_of-Explained col.kind col refl)
        (λ v. >>=-Explained (cells marshal reg log cols) _ (cells-Explained cols) (λ r. tt))

  -- If `ToRow` returns an error, then there is a JSON column, which the error names, and
  -- `json.Marshal` returns an error for the value of this column's field.
  pub to_row-err : (name : String) → to_row marshal reg log ≡ err name → Refused name
  unfolding to_row
  to_row-err name e = subst Explained e (cells-Explained column_defs)

  -- If `json.Marshal` returns no error for any value, `ToRow` returns a row.
  pub to_row-total :
      ((v : Value) → marshal v ≢ none) → (row : List Value) × (to_row marshal reg log ≡ ok row)
  to_row-total total = go (to_row marshal reg log) refl
    where
      go :
          (r : Result String (List Value))
          → to_row marshal reg log ≡ r
          → (row : List Value) × (to_row marshal reg log ≡ ok row)
      go (ok row) e = (row, e)
      go (err name) e = let (col, k, n, m) = to_row-err name e in absurd (total _ m)
