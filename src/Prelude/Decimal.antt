-- ===== src/Prelude/Decimal.antt =====
-- Go's `%d` of a number that is not negative.
use Prim.Native.Nat.{ℕ, zero, suc, ◌+◌, ◌*◌, ◌/◌, ◌%◌, ◌<◌}
use Prim.Native.String.{String, ◌++◌}
use mathlib.Core.Path.{◌≡◌, refl}
use mathlib.Core.List.{List, [], ◌∷◌}
use native.Mathlib.Omega.{arith}
use log_reader.Prelude.Tests.{ltb, ◌==◌, if◌then◌else◌}

-- The decimal digits of a number, the last first. The fuel `n + 1` is enough: each digit divides.
unfoldable pub digits_of : ℕ → ℕ → List ℕ
digits_of zero n = []
digits_of (suc f) n = let rest = digits_of f (n / 10) in if ltb n 10 then n ∷ [] else n % 10 ∷ rest

abbrev pub value_of : List ℕ → ℕ
value_of [] = 0
value_of (d ∷ ds) = d + 10 * value_of ds

pub value_of-digits_of : (f n : ℕ) → n < f → value_of (digits_of f n) ≡ n
unfolding digits_of
value_of-digits_of zero n h = elim h [ ]
value_of-digits_of (suc f) n h = ground (arith, value_of-digits_of f (n / 10))

digit_char : ℕ → String
digit_char d =
    if d == 0
    then "0"
    else if d == 1
    then "1"
    else if d == 2
    then "2"
    else if d == 3
    then "3"
    else if d == 4
    then "4"
    else if d == 5
    then "5"
    else if d == 6
    then "6"
    else if d == 7
    then "7"
    else if d == 8
    then "8"
    else "9"

render : List ℕ → String → String
unfolding digit_char
render [] acc = acc
render (d ∷ ds) acc = render ds (digit_char d ++ acc)

unfoldable pub decimal : ℕ → String
unfolding render digits_of
decimal n = render (digits_of (suc n) n) ""

decimal_runs : decimal 65535 ≡ "65535"
unfolding decimal
decimal_runs = refl
