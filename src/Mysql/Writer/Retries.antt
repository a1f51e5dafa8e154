-- ===== src/Mysql/Writer/Retries.antt =====
-- What `writeBatchWithRetry` of reader_modules/mod_log_mysql/record_writer.go does with a batch.
use log_reader.Prelude.{
  ℕ, zero, suc, ◌+◌, ◌≤◌, ◌<◌, ◌≡◌, refl, inl, inr, ◌&&◌, List, [], ◌∷◌, ◌++◌, append-nil, none,
  some, arith, ltb, leb, ◌==◌, if◌then◌else◌, Bool-cases, ltb→lt, length,
}
use log_reader.Mysql.Writer.{
  Row, WriterConf, TxnOutcome, Sink, Retry, written, dropped, panicked, is_commits, write_batch,
  sleep_before, attempts, write_batch_with_retry,
}

-- The increments of the two counters that an outcome stands for.
abbrev pub drops : Retry → ℕ
drops r = elim r [ dropped ↦ 1 | _ ↦ 0 ]

abbrev pub rows_written : Retry → ℕ → ℕ
rows_written r n = elim r [ written ↦ n | _ ↦ 0 ]

abbrev pub nap : ℕ → List ℕ
nap zero = []
nap (suc zero) = 200 ∷ []
nap (suc (suc zero)) = 400 ∷ []
nap (suc (suc (suc _))) = 800 ∷ []

module _ (env : ℕ → TxnOutcome) (conf : WriterConf) where
  sleep_before-lt :
      (a : ℕ) (s : Sink)
      → a < 4
      → sleep_before env conf a s ≡ some (record s { slept = s.slept ++ nap a })
  unfolding sleep_before
  sleep_before-lt zero s h = rw append-nil
  sleep_before-lt (suc zero) s h = refl
  sleep_before-lt (suc (suc zero)) s h = refl
  sleep_before-lt (suc (suc (suc zero))) s h = refl
  sleep_before-lt (suc (suc (suc (suc a)))) s h = absurd (omega arith)

  sleep_before-ge : (a : ℕ) (s : Sink) → 4 ≤ a → sleep_before env conf a s ≡ none
  unfolding sleep_before
  sleep_before-ge zero s h = absurd (omega arith)
  sleep_before-ge (suc zero) s h = absurd (omega arith)
  sleep_before-ge (suc (suc zero)) s h = absurd (omega arith)
  sleep_before-ge (suc (suc (suc zero))) s h = absurd (omega arith)
  sleep_before-ge (suc (suc (suc (suc a)))) s h = refl

  write_batch_with_retry_lem :
      (batch : List Row) (s : Sink)
      → write_batch_with_retry env conf batch s ≡ attempts env conf (suc conf.max_retries) 0 batch s
  unfolding write_batch_with_retry
  write_batch_with_retry_lem batch s = refl

  -- How many of the next transactions fail before one commits, of at most so many.
  unfoldable pub failures : ℕ → ℕ → ℕ
  failures zero base = 0
  failures (suc r) base =
      let more : ℕ = suc (failures r (suc base)) in if is_commits (env base) then 0 else more

  abbrev pub verdict : ℕ → ℕ → ℕ → Retry
  verdict attempt rounds k =
      if leb 4 (attempt + k) && leb 5 (attempt + rounds)
      then panicked
      else if k == rounds
      then dropped
      else written

  -- The state in which an attempt that does not commit leaves the loop.
  abbrev after_attempt : ℕ → List Row → Sink → Sink
  after_attempt attempt batch s =
      (write_batch env conf batch (record s { slept = s.slept ++ nap attempt })).1

  -- One round of the loop, for an attempt whose sleep is in the table.
  attempts_round :
      (r attempt : ℕ) (batch : List Row) (s : Sink)
      → attempt < 4
      → attempts env conf (suc r) attempt batch s ≡ (
          if is_commits (env s.txns)
          then (
            written,
            record (after_attempt attempt batch s) {
              write_batch_size = s.write_batch_size + length batch;
            },
          )
          else attempts env conf r (attempt + 1) batch (after_attempt attempt batch s))
  unfolding attempts write_batch
  attempts_round r attempt batch s h = rw (sleep_before-lt attempt s h, attempts) (ground arith)

  attempts_stop :
      (r attempt : ℕ) (batch : List Row) (s : Sink)
      → 4 ≤ attempt
      → attempts env conf (suc r) attempt batch s ≡ (panicked, s)
  unfolding attempts
  attempts_stop r attempt batch s h = rw (sleep_before-ge attempt s h, attempts)

  attempts_end :
      (attempt : ℕ) (batch : List Row) (s : Sink)
      → attempts env conf zero attempt batch s
        ≡ (dropped, record s { send_mysql_failed = s.send_mysql_failed + 1 })
  unfolding attempts
  attempts_end attempt batch s = refl

  attempts-verdict :
      (rounds attempt : ℕ) (batch : List Row) (s : Sink)
      → attempt ≤ 4
      → (attempts env conf rounds attempt batch s).0
        ≡ verdict attempt rounds (failures rounds s.txns)
  unfolding failures write_batch
  attempts-verdict zero attempt batch s h = rw attempts_end (ground arith)
  attempts-verdict (suc r) attempt batch s h = elim (Bool-cases (ltb attempt 4)) [
    | inl lt ↦
        rw (attempts_round r attempt batch s (ltb→lt attempt 4 lt))
          (ground (arith, attempts-verdict r (attempt + 1) batch (after_attempt attempt batch s)))
    | inr ge ↦ rw (attempts_stop r attempt batch s (ground arith)) (ground arith)
  ]

  -- The two counters, whatever the outcome.
  attempts_counters :
      (rounds attempt : ℕ) (batch : List Row) (s : Sink)
      → let (r, s') = attempts env conf rounds attempt batch s in
        (s'.send_mysql_failed ≡ s.send_mysql_failed + drops r)
        × (s'.write_batch_size ≡ s.write_batch_size + rows_written r (length batch))
  unfolding write_batch
  attempts_counters zero attempt batch s = rw attempts_end (ground arith)
  attempts_counters (suc r) attempt batch s = elim (Bool-cases (ltb attempt 4)) [
    | inl lt ↦
        rw (attempts_round r attempt batch s (ltb→lt attempt 4 lt))
          (ground (arith, attempts_counters r (attempt + 1) batch (after_attempt attempt batch s)))
    | inr ge ↦ rw (attempts_stop r attempt batch s (ground arith)) (ground arith)
  ]

  pub write_batch_with_retry-counters :
      (batch : List Row) (s : Sink)
      → let (r, s') = write_batch_with_retry env conf batch s in
        (s'.send_mysql_failed ≡ s.send_mysql_failed + drops r)
        × (s'.write_batch_size ≡ s.write_batch_size + rows_written r (length batch))
  write_batch_with_retry-counters batch s =
      rw write_batch_with_retry_lem (attempts_counters (suc conf.max_retries) 0 batch s)

  -- With k the number of transactions that fail in a row, of the `MaxRetries + 1` that may be tried:
  -- the batch is written if k is less than that number and there was no panic, dropped if all fail,
  -- and the call panics exactly when four fail and a fifth would be tried.
  pub write_batch_with_retry-verdict :
      (batch : List Row) (s : Sink)
      → let k : ℕ = failures (suc conf.max_retries) s.txns in
        (write_batch_with_retry env conf batch s).0 ≡ (
          if leb 4 k && leb 4 conf.max_retries
          then panicked
          else if k == suc conf.max_retries
          then dropped
          else written)
  write_batch_with_retry-verdict batch s =
      rw write_batch_with_retry_lem
        (ground (arith, attempts-verdict (suc conf.max_retries) 0 batch s (omega arith)))
