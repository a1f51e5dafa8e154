-- ===== src/Tail/Total.antt =====
-- The loops of `tail` end: each has fuel enough, for any file, any answers of the operating system and
-- any callback.
pub mod Following
pub mod Last
use log_reader.Prelude.{Option, none, some}

-- There is a result.
abbrev pub IsTotal {ℓ} : {A : Type ℓ} → Option A → Type 0
IsTotal none = ⊥
IsTotal (some a) = Unit {0}
