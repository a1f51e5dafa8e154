-- ===== src/Reader/Dispatch.antt =====
-- Which calls of `Update` a round of `Start` makes for each module.
use log_reader.Prelude.{
  String, Bool, true, false, List, [], ◌∷◌, ◌++◌, ◌≡◌, refl, ap, ◌∙◌, arith, ℤ, str_eq,
  if◌then◌else◌, eq_iff, false≢true, concat, map, All, Bool-cases, inl, inr, subst,
}
use log_reader.Fields.Names.{contains, distinct}
use log_reader.Reader.Batch.{batches, for_modules, dispatch, InLimit, bound, batches-split}

-- `ReaderModules.modules`: the modules of a reader by their names.
abbrev pub ModuleMap : Type 0 → Type 0
ModuleMap M = List (String × M)

abbrev pub module_names : {M : Type 0} → ModuleMap M → List String
module_names {M} ms = map (λ (m : String × M). m.0) ms

module _ {M A : Type 0} where
  -- The batches that the module of a name is given, in the order of the calls.
  abbrev pub calls_of : String → List ((String × M) × List A) → List (List A)
  calls_of name [] = []
  calls_of name ((m, batch) ∷ calls) =
      let rest : List (List A) = calls_of name calls in
      if str_eq m.0 name then batch ∷ rest else rest

  pub calls_of-append :
      (name : String) (xs ys : List ((String × M) × List A))
      → calls_of name (xs ++ ys) ≡ calls_of name xs ++ calls_of name ys
  calls_of-append name [] ys = refl
  calls_of-append name ((m, batch) ∷ xs) ys =
      rw (calls_of-append name xs ys) (both (str_eq m.0 name))
    where
      both :
          (b : Bool)
          → (if b
              then batch ∷ (calls_of name xs ++ calls_of name ys)
              else calls_of name xs ++ calls_of name ys)
            ≡ (if b then batch ∷ calls_of name xs else calls_of name xs) ++ calls_of name ys
      both true = refl
      both false = refl

  no_calls :
      (name : String) (ms : ModuleMap M) (batch : List A)
      → contains name (module_names ms) ≡ false
      → calls_of name (for_modules ms batch) ≡ []
  no_calls name [] batch n = refl
  no_calls name (m ∷ ms) batch n = elim (Bool-cases (str_eq m.0 name)) [
    | inl t ↦ absurd (ground (arith, t, n))
    | inr f ↦ rw f (no_calls name ms batch (ground arith))
  ]

  one_call :
      (name : String) (ms : ModuleMap M) (batch : List A)
      → distinct (module_names ms) ≡ true
      → contains name (module_names ms) ≡ true
      → calls_of name (for_modules ms batch) ≡ batch ∷ []
  one_call name [] batch d c = absurd (false≢true c)
  one_call name (m ∷ ms) batch d c = elim (Bool-cases (str_eq m.0 name)) [
    | inl t ↦
        let absent : contains m.0 (module_names ms) ≡ false = ground arith in
        rw t (
          ap (◌∷◌ batch) (
            no_calls name ms batch
              (subst (λ k. contains k (module_names ms) ≡ false) ((eq_iff m.0 name).0 t) absent)))
    | inr f ↦ rw f (one_call name ms batch (ground arith) (ground arith))
  ]

  pub calls_of-dispatch :
      (name : String) (ms : ModuleMap M) (bs : List (List A))
      → distinct (module_names ms) ≡ true
      → contains name (module_names ms) ≡ true
      → calls_of name (dispatch ms bs) ≡ bs
  unfolding dispatch
  calls_of-dispatch name ms [] d c = refl
  calls_of-dispatch name ms (b ∷ bs) d c =
      calls_of-append name (for_modules ms b) (dispatch ms bs)
      ∙ rw (one_call name ms b d c) (ap (◌∷◌ b) (calls_of-dispatch name ms bs d c))

  -- For every `MaxSizePerBatch`, and modules with distinct names: the batches with which `Start` calls
  -- `Update` of any one module are, put together in the order of the calls, all the records that
  -- were read, each once. Each batch has at least one record and, if `MaxSizePerBatch` is positive,
  -- at most `MaxSizePerBatch`; else it has at most all records.
  pub calls_of-dispatch-batches :
      (name : String) (ms : ModuleMap M) (max_size : ℤ) (records : List A)
      → distinct (module_names ms) ≡ true
      → contains name (module_names ms) ≡ true
      → let calls : List (List A) = calls_of name (dispatch ms (batches max_size records)) in
        (concat calls ≡ records) × All (InLimit (bound max_size records)) calls
  calls_of-dispatch-batches name ms max_size records d c =
      rw (calls_of-dispatch name ms (batches max_size records) d c) (batches-split max_size records)
