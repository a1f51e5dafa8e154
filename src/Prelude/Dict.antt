-- ===== src/Prelude/Dict.antt =====
-- Go's maps with string keys, as association lists in which a key stands once. Where the program
-- ranges over a map, Go fixes no order; the models then say which order they use.
use Prim.Native.String.{String}
use mathlib.Core.Path.{◌≡◌, refl, subst}
use mathlib.Core.Bool.{Bool, true, false}
use mathlib.Core.Option.{Option, none, some, some-injective, none-ne-some}
use mathlib.Core.List.{List, [], ◌∷◌}
use native.Mathlib.Omega.{arith}
use text.Mathlib.TextEquality.{eq_iff}
use log_reader.Prelude.Tests.{str_eq, if◌then◌else◌}

module _ {ℓ} {V : Type ℓ} where
  -- val, ok := dict[key]
  abbrev pub lookup : String → List (String × V) → Option V
  lookup key [] = none
  lookup key ((name, val) ∷ rest) = if str_eq name key then some val else lookup key rest

  -- dict[key] = val
  abbrev pub insert : String → V → List (String × V) → List (String × V)
  insert key val [] = (key, val) ∷ []
  insert key val ((name, old) ∷ rest) =
      if str_eq name key then (key, val) ∷ rest else (name, old) ∷ insert key val rest

  pub lookup-insert :
      (key other : String) (val : V) (dict : List (String × V))
      → lookup other (insert key val dict)
        ≡ (if str_eq key other then some val else lookup other dict)
  lookup-insert key other val [] = refl
  lookup-insert key other val ((name, old) ∷ rest) =
      let ih : lookup other (insert key val rest)
          ≡ (if str_eq key other then some val else lookup other rest) =
        lookup-insert key other val rest in
      ground (arith, eq_iff key other, eq_iff name key, eq_iff name other, ih)

module _ {ℓ κ} {V : Type ℓ} (P : V → Type κ) where
  abbrev pub AllValues : List (String × V) → Type κ
  AllValues [] = Unit
  AllValues ((k, v) ∷ m) = P v × AllValues m

  insert_by :
      (b : Bool) (k j : String) (v w : V) (m n : List (String × V))
      → P v
      → P w
      → AllValues m
      → AllValues n
      → AllValues (if b then (k, v) ∷ m else (j, w) ∷ n)
  insert_by true k j v w m n pv pw pm pn = (pv, pm)
  insert_by false k j v w m n pv pw pm pn = (pw, pn)

  pub insert-AllValues :
      (k : String) (v : V) (m : List (String × V)) → P v → AllValues m → AllValues (insert k v m)
  insert-AllValues k v [] pv pm = (pv, tt)
  insert-AllValues k v ((j, w) ∷ m) pv pm =
      insert_by (str_eq j k) k j v w m (insert k v m) pv pm.0 pm.1 (insert-AllValues k v m pv pm.1)

  lookup_by :
      (b : Bool) (v w : V) (o : Option V)
      → P w
      → (o ≡ some v → P v)
      → (if b then some w else o) ≡ some v
      → P v
  lookup_by true v w o pw ih e = subst P (some-injective w v e) pw
  lookup_by false v w o pw ih e = ih e

  pub lookup-AllValues :
      (k : String) (m : List (String × V)) {v : V} → AllValues m → lookup k m ≡ some v → P v
  lookup-AllValues k [] pm e = absurd (none-ne-some _ e)
  lookup-AllValues k ((j, w) ∷ m) {v} pm e =
      lookup_by (str_eq j k) v w (lookup k m) pm.0 (lookup-AllValues k m pm.1) e
