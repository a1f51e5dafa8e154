-- ===== src/Conf/Modules.antt =====
-- `ParseModule` of reader_conf/conf_access_pb.go, with what it uses of the package strings, and the
-- supported modules of reader_conf/conf_load.go.
use Prim.Native.Char.{Char, code}
use log_reader.Prelude.{
  ℕ, String, Bool, true, false, ◌&&◌, ◌||◌, List, [], ◌∷◌, Option, none, some, leb, ◌==◌, str_eq,
  if◌then◌else◌,
}

-- The characters that strings.TrimSpace cuts off.
abbrev pub is_space : Char → Bool
is_space c =
    let n : ℕ = code c in
    (leb 9 n && leb n 13)
    || (n == 32
        || (n == 133
            || (n == 160
                || (n == 5760
                    || ((leb 8192 n && leb n 8202)
                        || (n == 8232
                            || (n == 8233 || (n == 8239 || (n == 8287 || n == 12288)))))))))

abbrev pub trim_start : String → String
trim_start String.[] = ""
trim_start (String.◌∷◌ c s) =
    let t : String = trim_start s in if is_space c then t else String.◌∷◌ c s

abbrev pub trim_end : String → String
trim_end String.[] = ""
trim_end (String.◌∷◌ c s) =
    let t : String = trim_end s in if str_eq t "" && is_space c then "" else String.◌∷◌ c t

abbrev pub trim_space : String → String
trim_space s = trim_end (trim_start s)

-- strings.SplitN(s, ":", 2): the part before the first colon, and the part after it if there is one.
unfoldable pub split_colon : String → String × Option String
split_colon String.[] = ("", none)
split_colon (String.◌∷◌ c s) =
    let p : String × Option String = split_colon s in
    if code c == 58 then ("", some s) else (String.◌∷◌ c p.0, p.1)

-- strings.ToLower(s) == "true": no letter but the two ASCII forms has one of these as its lower case.
abbrev pub lower_eq : List (ℕ × ℕ) → String → Bool
lower_eq [] String.[] = true
lower_eq [] (String.◌∷◌ c s) = false
lower_eq (l ∷ ls) String.[] = false
lower_eq ((lower, upper) ∷ ls) (String.◌∷◌ c s) =
    (code c == lower || code c == upper) && lower_eq ls s

abbrev pub is_true : String → Bool
is_true s = lower_eq ((116, 84) ∷ (114, 82) ∷ (117, 85) ∷ (101, 69) ∷ []) s

-- `ParseModule`: the name, and whether the module is enabled.
unfoldable pub parse_module : String → String × Bool
unfolding split_colon
parse_module s =
    let p : String × Option String = split_colon s in
    (
      trim_space p.0,
      elim p.1 [
        | none ↦ true
        | some rest ↦ let t : String = trim_space rest in if str_eq t "" then true else is_true t
      ],
    )

abbrev pub modules_support : List String
modules_support = "mod_kafka" ∷ "mod_log_mysql" ∷ []
