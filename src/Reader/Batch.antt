-- ===== src/Reader/Batch.antt =====
-- The splitting of records into batches, and their dispatch, in `Start` of
-- bfe_log_reader/pb_log_reader.go.
use log_reader.Prelude.{
  sym, append-nil, ℕ, zero, suc, ◌≤◌, ◌<◌, ◌≡◌, refl, List, [], ◌∷◌, ◌++◌, ℤ, pos, negsuc, arith,
  ltb, lt→ltb, if◌then◌else◌, length, take, drop, concat, take-append-drop, length-take,
  length-drop, All, min,
}

-- MaxSizePerBatch: a size that is not positive sets no limit.
abbrev pub limit : ℤ → ℕ
limit (pos n) = n
limit (negsuc n) = 0

module _ {ℓ} {A : Type ℓ} where
  -- The loop from index i on: `rest` is records[i:]. The fuel is at least the length of `rest`.
  unfoldable pub split : ℕ → ℤ → List A → List A → List (List A)
  split zero max_size records rest = []
  split (suc fuel) max_size records [] = []
  split (suc fuel) max_size records (r ∷ rest) =
      let m : ℕ = limit max_size in
      let size : ℕ = min m (length (r ∷ rest)) in
      let more : List (List A) = split fuel max_size records (drop size (r ∷ rest)) in
      if ltb 0 m then take size (r ∷ rest) ∷ more else records ∷ []

  unfoldable pub batches : ℤ → List A → List (List A)
  unfolding split
  batches max_size records = split (length records) max_size records records

-- The goroutines that one round of `Start` starts, as calls of `Update`: for each batch, each module.
-- Go starts them in this order, up to the order of the modules, and runs them in any.
abbrev pub for_modules {ℓ κ} : {M : Type κ} {A : Type ℓ} → List M → List A → List (M × List A)
for_modules [] batch = []
for_modules (m ∷ ms) batch = (m, batch) ∷ for_modules ms batch

unfoldable pub dispatch {ℓ κ} :
    {M : Type κ} {A : Type ℓ} → List M → List (List A) → List (M × List A)
dispatch modules [] = []
dispatch modules (batch ∷ rest) = for_modules modules batch ++ dispatch modules rest

module _ {ℓ} {A : Type ℓ} where
  concat-split :
      (fuel m : ℕ) (records rest : List A)
      → length rest ≤ fuel
      → 0 < m
      → concat (split fuel (pos m) records rest) ≡ rest
  unfolding split
  concat-split zero m records [] h p = refl
  concat-split zero m records (r ∷ rest) h p = absurd (omega arith)
  concat-split (suc fuel) m records [] h p = refl
  concat-split (suc fuel) m records (r ∷ rest) h p =
      let l : List A = r ∷ rest in
      let size : ℕ = min m (length l) in
      let shorter : length (drop size l) ≤ fuel = omega (arith, length-drop size l) in
      rw (lt→ltb 0 m p, concat-split fuel m records (drop size l) shorter p)
        (take-append-drop size l)

  -- Every batch has a record, and at most `MaxSizePerBatch` of them.
  abbrev pub InLimit : ℕ → List A → Type 0
  InLimit m batch = (1 ≤ length batch) × (length batch ≤ m)

  split-InLimit :
      (fuel m : ℕ) (records rest : List A)
      → 0 < m
      → All (InLimit m) (split fuel (pos m) records rest)
  unfolding split
  split-InLimit zero m records rest p = tt
  split-InLimit (suc fuel) m records [] p = tt
  split-InLimit (suc fuel) m records (r ∷ rest) p =
      let l : List A = r ∷ rest in
      let size : ℕ = min m (length l) in
      let fits : InLimit m (take size l) =
        (omega (arith, length-take size l), omega (arith, length-take size l)) in
      rw (lt→ltb 0 m p) (fits, split-InLimit fuel m records (drop size l) p)

  concat-unlimited :
      (max_size : ℤ) (records rest : List A) (fuel : ℕ)
      → limit max_size ≡ 0
      → length rest ≤ fuel
      → rest ≡ records
      → concat (split fuel max_size records rest) ≡ rest
  unfolding split
  concat-unlimited max_size records [] zero z h e = refl
  concat-unlimited max_size records (r ∷ rest) zero z h e = absurd (omega arith)
  concat-unlimited max_size records [] (suc fuel) z h e = refl
  concat-unlimited max_size records (r ∷ rest) (suc fuel) z h e = rw (z, e) (append-nil records)

  one-InLimit :
      (max_size : ℤ) (records rest : List A) (fuel : ℕ)
      → limit max_size ≡ 0
      → rest ≡ records
      → All (InLimit (length records)) (split fuel max_size records rest)
  unfolding split
  one-InLimit max_size records rest zero z e = tt
  one-InLimit max_size records [] (suc fuel) z e = tt
  one-InLimit max_size records (r ∷ rest) (suc fuel) z e =
      let filled : 1 ≤ length (r ∷ rest) = omega arith in
      rw z ((rw (sym e) filled, omega arith), tt)

  -- The most records that a batch may have.
  abbrev pub bound : ℤ → List A → ℕ
  bound max_size records = if ltb 0 (limit max_size) then limit max_size else length records

  -- For every `MaxSizePerBatch` the batches are, in order, the records: none is lost, repeated or
  -- moved. Each batch has at least one record and, if `MaxSizePerBatch` is positive, at most
  -- `MaxSizePerBatch`; else it has at most all records.
  pub batches-split :
      (max_size : ℤ) (records : List A)
      → (concat (batches max_size records) ≡ records)
        × All (InLimit (bound max_size records)) (batches max_size records)
  unfolding batches
  batches-split (negsuc n) records = (
    concat-unlimited (negsuc n) records records (length records) refl (omega arith) refl,
    one-InLimit (negsuc n) records records (length records) refl refl,
  )
  batches-split (pos zero) records = (
    concat-unlimited (pos 0) records records (length records) refl (omega arith) refl,
    one-InLimit (pos 0) records records (length records) refl refl,
  )
  batches-split (pos (suc m)) records = (
    concat-split (length records) (suc m) records records (omega arith) (omega arith),
    rw (lt→ltb 0 (suc m) (omega arith))
        (split-InLimit (length records) (suc m) records records (omega arith)),
  )
