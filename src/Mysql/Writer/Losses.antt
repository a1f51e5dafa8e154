-- ===== src/Mysql/Writer/Losses.antt =====
-- What the batches of the writer of reader_modules/mod_log_mysql/record_writer.go add up to.
use log_reader.Prelude.{ℕ, ◌+◌, ◌≡◌, List, [], ◌∷◌, ◌++◌, arith, length}
use log_reader.Mysql.Writer.{Row, Retry, written, dropped, panicked}
use log_reader.Mysql.Writer.Retries.{rows_written}

-- The batches that were not written, and the rows of those that were.
abbrev pub losses : List (List Row × Retry) → ℕ
losses [] = 0
losses ((b, written) ∷ h) = losses h
losses ((b, dropped) ∷ h) = 1 + losses h
losses ((b, panicked) ∷ h) = 1 + losses h

abbrev pub written_rows : List (List Row × Retry) → ℕ
written_rows [] = 0
written_rows ((b, r) ∷ h) = rows_written r (length b) + written_rows h

pub losses-append : (g h : List (List Row × Retry)) → losses (g ++ h) ≡ losses g + losses h
losses-append [] h = omega arith
losses-append ((b, written) ∷ g) h = losses-append g h
losses-append ((b, dropped) ∷ g) h = omega (arith, losses-append g h)
losses-append ((b, panicked) ∷ g) h = omega (arith, losses-append g h)

pub written_rows-append :
    (g h : List (List Row × Retry)) → written_rows (g ++ h) ≡ written_rows g + written_rows h
written_rows-append [] h = omega arith
written_rows-append ((b, r) ∷ g) h = omega (arith, written_rows-append g h)
