-- ===== src/Prelude/Texts.antt =====
-- Texts built from parts: Go's `+` on strings and functions of its package `strings`.
use Prim.Native.Char.{Char, code}
use Prim.Native.Nat.{ℕ}
use Prim.Native.String.{String, ◌++◌}
use Prim.Native.String as S
use mathlib.Core.List.{List, [], ◌∷◌}
use log_reader.Prelude.Int.{ℤ, pos, negsuc}
use log_reader.Prelude.Tests.{◌==◌, if◌then◌else◌}
use log_reader.Prelude.Decimal.{decimal}

-- s + t + …
abbrev pub texts : List String → String
texts [] = ""
texts (s ∷ ss) = s ++ texts ss

-- The texts after the first of a `strings.Join`, each behind the separator.
abbrev pub join_rest : String → List String → String
join_rest sep [] = ""
join_rest sep (s ∷ ss) = sep ++ (s ++ join_rest sep ss)

-- strings.Join
abbrev pub join : String → List String → String
join sep [] = ""
join sep (s ∷ ss) = s ++ join_rest sep ss

-- fmt.Sprintf("%d", n)
unfoldable pub decimal_ℤ : ℤ → String
unfolding decimal
decimal_ℤ (pos n) = decimal n
decimal_ℤ (negsuc n) = "-" ++ decimal (Prim.Native.Nat.suc n)

-- The first part gets a further character.
abbrev pub in_first : Char → List String → List String
in_first c [] = S.◌∷◌ c "" ∷ []
in_first c (w ∷ ws) = S.◌∷◌ c w ∷ ws

-- strings.Split(s, sep) for a separator of one character, given by its code.
unfoldable pub split_by : ℕ → String → List String
split_by sep S.[] = "" ∷ []
split_by sep (S.◌∷◌ c s) =
    let rest : List String = split_by sep s in if code c == sep then "" ∷ rest else in_first c rest
