-- ===== src/App/Orderly.antt =====
-- What a process leaves behind: the modules that it started and those that it closed.
use log_reader.Prelude.{ℕ, zero, suc, String, true, List, [], Option, none, some, ◌≡◌, All}
use log_reader.Fields.Names.{contains}
use log_reader.App.{Process, names}

-- A loop over a map takes each entry, in some order.
abbrev pub KeepsNames : {M : Type 0} → (List (String × M) → List (String × M)) → Type 0
KeepsNames {M} order =
    (name : String) (ms : List (String × M))
    → contains name (names (order ms)) ≡ contains name (names ms)

-- What the exit code says: with none, nothing was started; with 0, the modules closed are those
-- started; with another, no reader was started.
abbrev pub CodeSays : {M : Type 0} → Process M → Option ℕ → Type 0
CodeSays p none = (p.started ≡ []) × (p.reading ≡ [])
CodeSays p (some zero) = (name : String) → contains name p.closed ≡ contains name p.started
CodeSays p (some (suc c)) = p.reading ≡ []

abbrev pub IsOrderly : {M : Type 0} → Process M → Type 0
IsOrderly p = All (λ name. contains name p.closed ≡ true) p.started × CodeSays p p.code
