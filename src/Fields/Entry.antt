-- ===== src/Fields/Entry.antt =====
-- Entries of the registry (`fieldEntry`), and the shapes in which
-- `registerAllFields` of reader_modules/mod_fields/field_registry.go writes their extractors.
use log_reader.Prelude.{ℕ, String, Bool, false, List, [], none, some, ℤ, pos}
use log_reader.Fields.Types.{FieldType, FieldDef}
use log_reader.Fields.Log.{BfeLog, RequestLog, ConnAddrInfo}
use log_reader.Fields.Value.{
  Value, string, uint64, uint32, int64, bool, strings, is_zero_string, is_zero_uint64,
  is_zero_uint32, is_zero_int64, is_zero_bool, is_zero_slice,
}

pub record FieldEntry : Type 0 where
  pub def : FieldDef
  pub extract : BfeLog → Value
  pub is_zero : Value → Bool

unfoldable pub plain_field :
    String → FieldType → Bool → Bool → (BfeLog → Value) → (Value → Bool) → FieldEntry
plain_field name typ required default extract is_zero = record {
  def = record { name = name; typ = typ; required = required; default = default };
  extract = extract;
  is_zero = is_zero;
}

-- `if reqLog := bfeLog.GetRequestLog(); reqLog != nil { return f(reqLog) }; return absent`
unfoldable pub with_request : BfeLog → Value → (RequestLog → Value) → Value
with_request log absent f = elim log.request_log [ none ↦ absent | some r ↦ f r ]

-- The same, with `if addr := reqLog.GetAddrInfo(); addr != nil { return f(addr) }` inside.
unfoldable pub with_addr : BfeLog → Value → (ConnAddrInfo → Value) → Value
unfolding with_request
with_addr log absent f =
    with_request log absent (λ r. elim r.addr_info [ none ↦ absent | some a ↦ f a ])

unfoldable pub string_field : String → Bool → Bool → (RequestLog → String) → FieldEntry
unfolding plain_field with_request
string_field name required default get =
    plain_field name FieldType.string required default
      (λ log. with_request log (string "") (λ r. string (get r))) is_zero_string

unfoldable pub uint32_field : String → Bool → Bool → (RequestLog → ℕ) → FieldEntry
unfolding plain_field with_request
uint32_field name required default get =
    plain_field name FieldType.uint32 required default
      (λ log. with_request log (uint32 0) (λ r. uint32 (get r))) is_zero_uint32

unfoldable pub uint64_field : String → Bool → Bool → (RequestLog → ℕ) → FieldEntry
unfolding plain_field with_request
uint64_field name required default get =
    plain_field name FieldType.uint64 required default
      (λ log. with_request log (uint64 0) (λ r. uint64 (get r))) is_zero_uint64

unfoldable pub int64_field : String → Bool → Bool → (RequestLog → ℤ) → FieldEntry
unfolding plain_field with_request
int64_field name required default get =
    plain_field name FieldType.int64 required default
      (λ log. with_request log (int64 (pos 0)) (λ r. int64 (get r))) is_zero_int64

unfoldable pub bool_field : String → Bool → Bool → (RequestLog → Bool) → FieldEntry
unfolding plain_field with_request
bool_field name required default get =
    plain_field name FieldType.bool required default
      (λ log. with_request log (bool false) (λ r. bool (get r))) is_zero_bool

unfoldable pub strings_field : String → Bool → Bool → (RequestLog → List String) → FieldEntry
unfolding plain_field with_request
strings_field name required default get =
    plain_field name FieldType.strings required default
      (λ log. with_request log (strings []) (λ r. strings (get r))) is_zero_slice

unfoldable pub addr_string_field : String → Bool → Bool → (ConnAddrInfo → String) → FieldEntry
unfolding plain_field with_addr
addr_string_field name required default get =
    plain_field name FieldType.string required default
      (λ log. with_addr log (string "") (λ a. string (get a))) is_zero_string

unfoldable pub addr_bool_field : String → Bool → Bool → (ConnAddrInfo → Bool) → FieldEntry
unfolding plain_field with_addr
addr_bool_field name required default get =
    plain_field name FieldType.bool required default
      (λ log. with_addr log (bool false) (λ a. bool (get a))) is_zero_bool
