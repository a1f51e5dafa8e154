-- ===== src/Prelude/Int.antt =====
-- Signed machine integers (Go's `int`, `int64`), as integers over the native numbers.
use Prim.Native.Nat.{ℕ, suc, ◌<◌, ◌-◌, ◌^◌}
use mathlib.Core.Path.{◌≡◌, refl}
use mathlib.Core.Logic.{inl, inr}
use native.Mathlib.Omega.{arith}
use mathlib.Core.Bool.{Bool, true, false}
use log_reader.Prelude.Tests.{leb, ltb, if◌then◌else◌, Bool-cases}

-- `negsuc n` is -(n + 1).
pub data ℤ : Type 0 where
  pos : ℕ → ℤ
  negsuc : ℕ → ℤ

-- A value of 64 bits, read as an `int64`.
abbrev pub to_int64 : ℕ → ℤ
to_int64 v = if ltb v (2 ^ 63) then pos v else negsuc (2 ^ 64 - v - 1)

-- `a <= n` and `a < n` against a constant that is not negative.
abbrev pub le_const : ℤ → ℕ → Bool
le_const (pos a) n = leb a n
le_const (negsuc a) n = true

abbrev pub lt_const : ℤ → ℕ → Bool
lt_const (pos a) n = leb (suc a) n
lt_const (negsuc a) n = true

-- if n <= 0 { n = d }
abbrev pub default_to : ℕ → ℤ → ℤ
default_to d n = if le_const n 0 then pos d else n

abbrev pub IsPositive : ℤ → Type 0
IsPositive n = le_const n 0 ≡ false

pub default_to-IsPositive : (d : ℕ) (n : ℤ) → 0 < d → IsPositive (default_to d n)
default_to-IsPositive d (negsuc n) h = ground arith
default_to-IsPositive d (pos n) h = elim (Bool-cases (leb n 0)) [
  | inl e ↦ rw e (ground arith)
  | inr e ↦ rw e e
]

pub default_to-default_to : (d : ℕ) (n : ℤ) → 0 < d → default_to d (default_to d n) ≡ default_to d n
default_to-default_to d n h = rw (default_to-IsPositive d n h) refl
