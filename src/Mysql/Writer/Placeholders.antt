-- ===== src/Mysql/Writer/Placeholders.antt =====
-- The placeholders of the statement that `buildStmt` makes, and the arguments of its `Exec`.
use Prim.Native.Char.{code}
use Prim.Native.String.{◌++◌ as ◌⧺◌}
use Prim.Native.String.append
use log_reader.Prelude.{
  ℕ, zero, suc, ◌+◌, ◌*◌, String, List, [], ◌∷◌, Option, ok, ok_inj, >>=-eq-ok, ◌>>=◌, Bool, true,
  false, length-map, ◌≡◌, refl, ◌∙◌, sym, ap, arith, texts, join, length, length-append, concat,
  ◌==◌, if◌then◌else◌, if_elim, All,
}
use log_reader.Fields.Log.{BfeLog}
use log_reader.Fields.Value.{Value}
use log_reader.Fields.Registry.{FieldRegistry}
use log_reader.Mysql.Mapper.{cell, cells, to_row}
use log_reader.Mysql.Columns.{columns, column_defs, ColumnDef}
use log_reader.Mysql.Writer.Statement.{Stmt, new_stmt, rows_text, build_stmt}

-- How often "?" stands in a text.
unfoldable pub marks : String → ℕ
marks String.[] = 0
marks (String.◌∷◌ c s) = let n : ℕ = marks s in if code c == 63 then suc n else n

suc_if : (b : Bool) (m n : ℕ) → (if b then suc (m + n) else m + n) ≡ (if b then suc m else m) + n
suc_if true m n = omega arith
suc_if false m n = refl

marks-append : (s t : String) → marks (s ⧺ t) ≡ marks s + marks t
unfolding marks
marks-append String.[] t = rw (append.nil t) (omega arith)
marks-append (String.◌∷◌ c s) t =
    rw (append.cons c s t, marks-append s t) (suc_if (code c == 63) (marks s) (marks t))

-- The texts of the rows: a comma has no mark.
marks-rows_text : (row : String) (n i : ℕ) → marks (rows_text row n i) ≡ n * marks row
unfolding marks
marks-rows_text row zero i = omega arith
marks-rows_text row (suc n) i =
    let comma : String = if i == 0 then "" else "," in
    let none_there : marks comma ≡ 0 = if_elim (λ t. marks t ≡ 0) (i == 0) "" "," refl refl in
    let whole = marks-append comma (row ⧺ rows_text row n (suc i)) in
    let rest = marks-append row (rows_text row n (suc i)) in
    omega (arith, none_there, whole, rest, marks-rows_text row n (suc i))

abbrev marks_all : List String → ℕ
marks_all [] = 0
marks_all (s ∷ ss) = marks s + marks_all ss

marks-texts : (ss : List String) → marks (texts ss) ≡ marks_all ss
unfolding marks
marks-texts [] = refl
marks-texts (s ∷ ss) = marks-append s (texts ss) ∙ ap (λ n. marks s + n) (marks-texts ss)

marks-head : (table : String) → marks table ≡ 0 → marks (new_stmt table columns).head ≡ 0
unfolding new_stmt marks columns column_defs
marks-head table plain =
    marks-texts ("INSERT INTO " ∷ table ∷ " (" ∷ join "," columns ∷ ") VALUES " ∷ []) ∙ omega arith

marks-row : (table : String) → marks (new_stmt table columns).row ≡ length columns
unfolding new_stmt marks columns column_defs
marks-row table = refl

marks-tail : (table : String) → marks (new_stmt table columns).tail ≡ 0
unfolding new_stmt marks columns column_defs
marks-tail table = refl

marks-build_stmt :
    (table : String) (n : ℕ)
    → marks table ≡ 0
    → marks (build_stmt (new_stmt table columns) n) ≡ n * length columns
unfolding build_stmt
marks-build_stmt table n plain =
    let s : Stmt = new_stmt table columns in
    marks-texts (s.head ∷ rows_text s.row n 0 ∷ s.tail ∷ [])
    ∙ rw (marks-head table plain, marks-tail table, marks-rows_text s.row n 0, marks-row table)
        (omega arith)

module _ (marshal : Value → Option String) (reg : FieldRegistry) where
  length-cells :
      (log : BfeLog) (cols : List ColumnDef) (row : List Value)
      → cells marshal reg log cols ≡ ok row
      → length row ≡ length cols
  unfolding cells
  length-cells log [] row h = sym (ap length (ok_inj h))
  length-cells log (col ∷ cols) row h =
      let (v, hv, h') =
        >>=-eq-ok (cell marshal reg log col) (λ v. cells marshal reg log cols >>= λ r. ok (v ∷ r))
          h in
      let (rest, hr, h'') = >>=-eq-ok (cells marshal reg log cols) (λ r. ok (v ∷ r)) h' in
      sym (ap length (ok_inj h'')) ∙ ap suc (length-cells log cols rest hr)

  -- A row that `ToRow` made of some record.
  abbrev pub OfRecord : List Value → Type 0
  OfRecord row = (log : BfeLog) × (to_row marshal reg log ≡ ok row)

  length-rows :
      (rows : List (List Value))
      → All OfRecord rows
      → length (concat rows) ≡ length rows * length columns
  unfolding to_row columns
  length-rows [] a = omega arith
  length-rows (row ∷ rows) ((log, h), a) = omega (
    arith,
    length-append row (concat rows),
    length-rows rows a,
    length-cells log column_defs row h,
    length-map column_defs (λ (c : ColumnDef). c.name),
  )

  -- For a table whose name has no question mark, and a batch of any number of rows that `ToRow` made: the statement
  -- that is prepared for the batch has as many placeholders as `Exec` is given arguments.
  pub marks-build_stmt-rows :
      (table : String) (rows : List (List Value))
      → marks table ≡ 0
      → All OfRecord rows
      → marks (build_stmt (new_stmt table columns) (length rows)) ≡ length (concat rows)
  marks-build_stmt-rows table rows plain a =
      marks-build_stmt table (length rows) plain ∙ sym (length-rows rows a)
