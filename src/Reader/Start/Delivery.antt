-- ===== src/Reader/Start/Delivery.antt =====
-- What the loop of `Start` gives to each module.
use log_reader.Prelude.{
  zero, suc, ◌+◌, ◌≤◌, String, Bool, true, List, [], ◌∷◌, ◌++◌, some, Result, ok, err, ◌≡◌, refl,
  sym, ap, ◌∙◌, subst, arith, ◌⊎◌, inl, inr, ℤ, pos, negsuc, length, length-append, concat,
  concat-append, All, All-append, All-imp,
}
use log_reader.Fields.Log.{BfeLog}
use log_reader.Fields.Names.{contains, distinct}
use log_reader.Reader.Batch.{batches, batches-split, limit}
use log_reader.Reader.Dispatch.{
  ModuleMap, module_names, calls_of, calls_of-append, calls_of-dispatch,
}
use log_reader.Reader.Parse.{Codec}
use log_reader.Reader.Stream.{delivered}
use log_reader.Reader.{LogFileReader, Io, ReadError, log_read}
use log_reader.Reader.Start.{PbLogReader, Calls, to_modules, after_read, start_turn, start_loop}
use log_reader.Reader.Start.Counts.{log_run, log_run-Counted}

-- A batch has a record, and at most `MaxSizePerBatch` of them if that is positive.
abbrev pub Fits : ℤ → List BfeLog → Type 0
Fits max_size batch = (1 ≤ length batch) × ((length batch ≤ limit max_size) ⊎ (limit max_size ≡ 0))

-- The batches are the records, in order.
abbrev pub Delivers : ℤ → List BfeLog → List (List BfeLog) → Type 0
Delivers max_size records cs = (concat cs ≡ records) × All (Fits max_size) cs

module _ {M : Type 0} (name : String) (ms : ModuleMap M) where
  batches-Fits :
      (max_size : ℤ) (records : List BfeLog) → All (Fits max_size) (batches max_size records)
  batches-Fits (negsuc n) records =
      All-imp (λ batch h. (h.0, inr refl)) (batches (negsuc n) records)
        (batches-split (negsuc n) records).1
  batches-Fits (pos zero) records =
      All-imp (λ batch h. (h.0, inr refl)) (batches (pos 0) records)
        (batches-split (pos 0) records).1
  batches-Fits (pos (suc n)) records =
      All-imp (λ batch h. (h.0, inl (ground (arith, h.1)))) (batches (pos (suc n)) records)
        (batches-split (pos (suc n)) records).1

  concat-batches :
      (max_size : ℤ) (records : List BfeLog) → concat (batches max_size records) ≡ records
  concat-batches max_size records = (batches-split max_size records).0

  no_batches : (max_size : ℤ) → batches {A = BfeLog} max_size [] ≡ []
  unfolding batches
  no_batches max_size = refl

  module _ (d : distinct (module_names ms) ≡ true)
      (listed : contains name (module_names ms) ≡ true) where
    -- One turn: the batches of the records, and the rest of the reader as it was.
    abbrev Gives : List BfeLog → PbLogReader M → Calls M × PbLogReader M → Type 0
    Gives records s t =
        (calls_of name t.0 ≡ batches s.max_size_per_batch records)
        × (t.1.sum_pb_batch_count
            ≡ s.sum_pb_batch_count + length (batches s.max_size_per_batch records))
        × (t.1.file ≡ s.file)
        × (t.1.modules ≡ some ms)
        × (t.1.max_size_per_batch ≡ s.max_size_per_batch)

    after_read-Gives :
        (r : Result ReadError (List BfeLog)) (s : PbLogReader M)
        → s.modules ≡ some ms
        → Gives (delivered r) s (after_read r s)
    unfolding after_read to_modules
    after_read-Gives (err e) s b =
        rw (no_batches s.max_size_per_batch) (refl, omega arith, refl, b, refl)
    after_read-Gives (ok []) s b =
        rw (no_batches s.max_size_per_batch) (refl, omega arith, refl, b, refl)
    after_read-Gives (ok (r ∷ records)) s b =
        subst (λ o. Gives (r ∷ records) s (to_modules o (r ∷ records) s)) (sym b)
          (
            calls_of-dispatch name ms (batches s.max_size_per_batch (r ∷ records)) d listed,
            refl,
            refl,
            b,
            refl,
          )

    module _ (codec : Codec) (from_begin : Bool) where
      start_loop-log_run :
          (ios : List Io) (s : PbLogReader M)
          → s.modules ≡ some ms
          → let q : Calls M × PbLogReader M = start_loop codec from_begin ios s in
            let r : List BfeLog × LogFileReader = log_run codec from_begin ios s.file in
            Delivers s.max_size_per_batch r.0 (calls_of name q.0)
            × (q.1.sum_pb_batch_count ≡ s.sum_pb_batch_count + length (calls_of name q.0))
            × (q.1.file ≡ r.1)
      unfolding start_loop start_turn log_run
      start_loop-log_run [] s b = ((refl, tt), omega arith, refl)
      start_loop-log_run (io ∷ ios) s b =
          let r : Result ReadError (List BfeLog) × LogFileReader =
            log_read codec from_begin io s.file in
          let t : Calls M × PbLogReader M = start_turn codec from_begin io s in
          let rest : Calls M × PbLogReader M = start_loop codec from_begin ios t.1 in
          let (cs, n, f, b', m) = after_read-Gives r.0 (record s { file = r.1 }) b in
          let ((whole, fits), n', f') = start_loop-log_run ios t.1 b' in
          let bs : List (List BfeLog) = batches s.max_size_per_batch (delivered r.0) in
          rw (calls_of-append name t.0 rest.0, cs)
            (
              (
                concat-append bs (calls_of name rest.0)
                    ∙ (ap (λ (l : List BfeLog). l ++ concat (calls_of name rest.0))
                          (concat-batches s.max_size_per_batch (delivered r.0))
                        ∙ ap (◌++◌ (delivered r.0))
                            (whole ∙ ap (λ lr. (log_run codec from_begin ios lr).0) f)),
                All-append (Fits s.max_size_per_batch) bs (calls_of name rest.0)
                    (batches-Fits s.max_size_per_batch (delivered r.0))
                    (subst (λ k. All (Fits k) (calls_of name rest.0)) m fits),
              ),
              omega (arith, n, n', length-append bs (calls_of name rest.0)),
              f' ∙ ap (λ lr. (log_run codec from_begin ios lr).1) f,
            )

      -- For every answer of the operating system in each turn, failures included, and modules with
      -- distinct names that are bound to the reader: the batches that the loop of `Start` gives to any
      -- one module are, put together in order, the records that the calls of `logRead` returned, each
      -- once. Each batch has at least one record and, if `MaxSizePerBatch` is positive, at most so
      -- many. SUM_PB_BATCH_COUNT goes up by the number of these batches and SUM_PB_RECORD by the
      -- number of their records: what is counted is what every module is given.
      pub start_loop-Delivers :
          (ios : List Io) (s : PbLogReader M)
          → s.modules ≡ some ms
          → let q : Calls M × PbLogReader M = start_loop codec from_begin ios s in
            let given : List (List BfeLog) = calls_of name q.0 in
            Delivers s.max_size_per_batch (log_run codec from_begin ios s.file).0 given
            × (q.1.sum_pb_batch_count ≡ s.sum_pb_batch_count + length given)
            × (q.1.file.state.sum_pb_record ≡ s.file.state.sum_pb_record + length (concat given))
      start_loop-Delivers ios s b =
          let ((whole, fits), n, f) = start_loop-log_run ios s b in
          ((whole, fits), n, rw (f, whole) (log_run-Counted codec from_begin ios s.file))
