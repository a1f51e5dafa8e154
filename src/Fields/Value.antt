-- ===== src/Fields/Value.antt =====
-- The JSON structs and the dynamic values (`interface{}`) of
-- reader_modules/mod_fields/field_registry.go, with the tests for a zero value.
use log_reader.Prelude.{
  ℕ, String, Bool, true, not, List, [], ◌∷◌, Option, none, some, ℤ, pos, negsuc, ◌==◌, str_eq,
}
use log_reader.Fields.Types.{FieldType}

pub record ApikeyTagJson : Type 0 where
  pub tagname : String
  pub tagvalue : String

pub record AiRateLimitHitJson : Type 0 where
  pub rate_limit_policy_id : String
  pub rate_limit_type : String
  pub rule_names : List String

pub record AiRouteRuleHitJson : Type 0 where
  pub rule_owner : String
  pub rule_owner_type : String
  pub rule_name : String

pub record ClusterKeyNameJson : Type 0 where
  pub cluster_name : String
  pub key_name : String

pub record HttpHeaderJson : Type 0 where
  pub key : String
  pub value : String

-- A value of type `interface{}`, by its dynamic type. `object` is the `map[string]interface{}` of
-- "ai_apikeytags": a level's entry is a tag (`some`) or the empty map (`none`). `time` is a `time.Time`,
-- by its seconds since 1970; only rows of reader_modules/mod_log_mysql/field_mapper.go hold one.
pub data Value : Type 0 where
  nil : Value
  string : String → Value
  uint64 uint32 : ℕ → Value
  int64 : ℤ → Value
  bool : Bool → Value
  object : List (String × Option ApikeyTagJson) → Value
  rate_limit_hits : List AiRateLimitHitJson → Value
  route_rule_hits : List AiRouteRuleHitJson → Value
  cluster_key_names : List ClusterKeyNameJson → Value
  headers : List HttpHeaderJson → Value
  strings : List String → Value
  time : ℤ → Value

abbrev pub is_empty {ℓ} : {A : Type ℓ} → List A → Bool
is_empty [] = true
is_empty (x ∷ xs) = Bool.false

abbrev pub is_zero_ℤ : ℤ → Bool
is_zero_ℤ (pos n) = n == 0
is_zero_ℤ (negsuc n) = Bool.false

unfoldable pub is_zero_string : Value → Bool
is_zero_string v = elim v [ string s ↦ str_eq s "" | _ ↦ true ]

unfoldable pub is_zero_uint64 : Value → Bool
is_zero_uint64 v = elim v [ uint64 n ↦ n == 0 | _ ↦ true ]

unfoldable pub is_zero_uint32 : Value → Bool
is_zero_uint32 v = elim v [ uint32 n ↦ n == 0 | _ ↦ true ]

unfoldable pub is_zero_int64 : Value → Bool
is_zero_int64 v = elim v [ int64 n ↦ is_zero_ℤ n | _ ↦ true ]

unfoldable pub is_zero_bool : Value → Bool
is_zero_bool v = elim v [ bool b ↦ not b | _ ↦ true ]

unfoldable pub is_zero_object : Value → Bool
is_zero_object v = elim v [ nil ↦ true | _ ↦ Bool.false ]

unfoldable pub is_zero_slice : Value → Bool
is_zero_slice v = elim v [
  | nil ↦ true
  | rate_limit_hits s ↦ is_empty s
  | route_rule_hits s ↦ is_empty s
  | cluster_key_names s ↦ is_empty s
  | headers s ↦ is_empty s
  | strings s ↦ is_empty s
  | _ ↦ true
]

-- The declared type that a value belongs to; `nil` has none.
unfoldable pub type_of : Value → Option FieldType
type_of nil = none
type_of (time s) = none
type_of (string s) = some FieldType.string
type_of (uint64 n) = some FieldType.uint64
type_of (uint32 n) = some FieldType.uint32
type_of (int64 n) = some FieldType.int64
type_of (bool b) = some FieldType.bool
type_of (object m) = some FieldType.object
type_of (strings s) = some FieldType.strings
type_of _ = some FieldType.objects

-- Go's zero value of the dynamic type; a map is none, since an empty map is not `nil`.
unfoldable pub is_zero_value : Value → Bool
is_zero_value nil = true
is_zero_value (time s) = Bool.false
is_zero_value (string s) = str_eq s ""
is_zero_value (uint64 n) = n == 0
is_zero_value (uint32 n) = n == 0
is_zero_value (int64 n) = is_zero_ℤ n
is_zero_value (bool b) = not b
is_zero_value (object m) = Bool.false
is_zero_value (rate_limit_hits s) = is_empty s
is_zero_value (route_rule_hits s) = is_empty s
is_zero_value (cluster_key_names s) = is_empty s
is_zero_value (headers s) = is_empty s
is_zero_value (strings s) = is_empty s
