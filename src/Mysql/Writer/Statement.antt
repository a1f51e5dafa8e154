-- ===== src/Mysql/Writer/Statement.antt =====
-- The texts of the statement that reader_modules/mod_log_mysql/record_writer.go builds.
use Prim.Native.Char.{code}
use Prim.Native.String.{◌++◌}
use log_reader.Prelude.{
  ℕ, zero, suc, String, List, [], ◌∷◌, texts, join, length, replicate, ◌==◌, if◌then◌else◌,
}

pub record Stmt : Type 0 where
  pub head : String
  pub row : String
  pub tail : String

-- strings.TrimSuffix(s, ",")
abbrev pub trim_comma : String → String
trim_comma String.[] = ""
trim_comma (String.◌∷◌ c String.[]) = if code c == 44 then "" else String.◌∷◌ c String.[]
trim_comma (String.◌∷◌ c (String.◌∷◌ d s)) = String.◌∷◌ c (trim_comma (String.◌∷◌ d s))

-- strings.TrimSuffix(strings.Repeat("?,", n), ",")
abbrev pub marks_row : ℕ → String
marks_row n = trim_comma (texts (replicate n "?,"))

-- The pieces that the loop over the columns writes, from the column at index i.
abbrev pub updates : ℕ → List String → String
updates i [] = ""
updates i (col ∷ cols) =
    (if i == 0 then "" else ",")
    ++ (texts (col ∷ "=VALUES(" ∷ col ∷ ")" ∷ []) ++ updates (suc i) cols)

-- `NewRecordWriter` for a table with the given columns.
unfoldable pub new_stmt : String → List String → Stmt
new_stmt table cols = record {
  head = texts ("INSERT INTO " ∷ table ∷ " (" ∷ join "," cols ∷ ") VALUES " ∷ []);
  row = texts ("(" ∷ marks_row (length cols) ∷ ")" ∷ []);
  tail = texts (" ON DUPLICATE KEY UPDATE " ∷ updates 0 cols ∷ []);
}

-- The loop of `buildStmt` from row i on, with n rows left.
abbrev pub rows_text : String → ℕ → ℕ → String
rows_text row zero i = ""
rows_text row (suc n) i = (if i == 0 then "" else ",") ++ (row ++ rows_text row n (suc i))

unfoldable pub build_stmt : Stmt → ℕ → String
build_stmt s n = texts (s.head ∷ rows_text s.row n 0 ∷ s.tail ∷ [])
