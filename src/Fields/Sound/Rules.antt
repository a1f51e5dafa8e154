-- ===== src/Fields/Sound/Rules.antt =====
-- A rule for each shape of entry that `registerAllFields` of
-- reader_modules/mod_fields/field_registry.go registers.
use log_reader.Prelude.{ℕ, String, Bool, ◌≡◌, refl, List, Option, none, some, ℤ, arith}
use log_reader.Fields.Types.{FieldType}
use log_reader.Fields.Log.{BfeLog, RequestLog, ConnAddrInfo}
use log_reader.Fields.Value.{
  Value, type_of, is_zero_value, is_zero_string, is_zero_uint64, is_zero_uint32, is_zero_int64,
  is_zero_bool, is_zero_object, is_zero_slice,
}
use log_reader.Fields.Entry.{
  FieldEntry, plain_field, with_request, with_addr, string_field, uint32_field, uint64_field,
  int64_field, bool_field, strings_field, addr_string_field, addr_bool_field,
}
use log_reader.Fields.Extractors.{
  product, client_ip, client_network, req_headers, res_headers, backend_info, ai_apikeytags,
  ai_rate_limit_hits, ai_route_rule_hits, ai_cluster_key_names,
}

abbrev pub IsSound : FieldEntry → Type 0
IsSound e =
    (log : BfeLog)
    → (type_of (e.extract log) ≡ some e.def.typ)
      × (e.is_zero (e.extract log) ≡ is_zero_value (e.extract log))

-- The value of one request getter, or of its absence, has one type.
pub with_request-typed :
    (t : FieldType) (log : BfeLog) (absent : Value) (f : RequestLog → Value)
    → type_of absent ≡ some t
    → ((r : RequestLog) → type_of (f r) ≡ some t)
    → type_of (with_request log absent f) ≡ some t
unfolding with_request
with_request-typed t log absent f ha hf = go log.request_log
  where
    go : (o : Option RequestLog) → type_of (elim o [ none ↦ absent | some r ↦ f r ]) ≡ some t
    go none = ha
    go (some r) = hf r

pub with_addr-typed :
    (t : FieldType) (log : BfeLog) (absent : Value) (f : ConnAddrInfo → Value)
    → type_of absent ≡ some t
    → ((a : ConnAddrInfo) → type_of (f a) ≡ some t)
    → type_of (with_addr log absent f) ≡ some t
unfolding with_addr
with_addr-typed t log absent f ha hf = with_request-typed t log absent _ ha (λ r. go r.addr_info)
  where
    go : (o : Option ConnAddrInfo) → type_of (elim o [ none ↦ absent | some a ↦ f a ]) ≡ some t
    go none = ha
    go (some a) = hf a

-- Each zero test is right on the values of its type.
pub string-zero :
    (v : Value) → type_of v ≡ some FieldType.string → is_zero_string v ≡ is_zero_value v
unfolding type_of is_zero_string is_zero_value
string-zero v h = ground arith

pub uint64-zero :
    (v : Value) → type_of v ≡ some FieldType.uint64 → is_zero_uint64 v ≡ is_zero_value v
unfolding type_of is_zero_uint64 is_zero_value
uint64-zero v h = ground arith

pub uint32-zero :
    (v : Value) → type_of v ≡ some FieldType.uint32 → is_zero_uint32 v ≡ is_zero_value v
unfolding type_of is_zero_uint32 is_zero_value
uint32-zero v h = ground arith

pub int64-zero : (v : Value) → type_of v ≡ some FieldType.int64 → is_zero_int64 v ≡ is_zero_value v
unfolding type_of is_zero_int64 is_zero_value
int64-zero v h = ground arith

pub bool-zero : (v : Value) → type_of v ≡ some FieldType.bool → is_zero_bool v ≡ is_zero_value v
unfolding type_of is_zero_bool is_zero_value
bool-zero v h = ground arith

pub object-zero :
    (v : Value) → type_of v ≡ some FieldType.object → is_zero_object v ≡ is_zero_value v
unfolding type_of is_zero_object is_zero_value
object-zero v h = ground arith

pub objects-zero :
    (v : Value) → type_of v ≡ some FieldType.objects → is_zero_slice v ≡ is_zero_value v
unfolding type_of is_zero_slice is_zero_value
objects-zero v h = ground arith

pub strings-zero :
    (v : Value) → type_of v ≡ some FieldType.strings → is_zero_slice v ≡ is_zero_value v
unfolding type_of is_zero_slice is_zero_value
strings-zero v h = ground arith

module _ (name : String) (required default : Bool) where
  pub plain-IsSound :
      (t : FieldType) (f : BfeLog → Value) (z : Value → Bool)
      → ((v : Value) → type_of v ≡ some t → z v ≡ is_zero_value v)
      → ((log : BfeLog) → type_of (f log) ≡ some t)
      → IsSound (plain_field name t required default f z)
  unfolding plain_field
  plain-IsSound t f z hz ht log = (ht log, hz (f log) (ht log))

  pub string-IsSound :
      (get : RequestLog → String) → IsSound (string_field name required default get)
  unfolding string_field type_of
  string-IsSound get =
      plain-IsSound FieldType.string _ is_zero_string string-zero
        (λ log. with_request-typed FieldType.string log _ _ refl (λ r. refl))

  pub uint32-IsSound : (get : RequestLog → ℕ) → IsSound (uint32_field name required default get)
  unfolding uint32_field type_of
  uint32-IsSound get =
      plain-IsSound FieldType.uint32 _ is_zero_uint32 uint32-zero
        (λ log. with_request-typed FieldType.uint32 log _ _ refl (λ r. refl))

  pub uint64-IsSound : (get : RequestLog → ℕ) → IsSound (uint64_field name required default get)
  unfolding uint64_field type_of
  uint64-IsSound get =
      plain-IsSound FieldType.uint64 _ is_zero_uint64 uint64-zero
        (λ log. with_request-typed FieldType.uint64 log _ _ refl (λ r. refl))

  pub int64-IsSound : (get : RequestLog → ℤ) → IsSound (int64_field name required default get)
  unfolding int64_field type_of
  int64-IsSound get =
      plain-IsSound FieldType.int64 _ is_zero_int64 int64-zero
        (λ log. with_request-typed FieldType.int64 log _ _ refl (λ r. refl))

  pub bool-IsSound : (get : RequestLog → Bool) → IsSound (bool_field name required default get)
  unfolding bool_field type_of
  bool-IsSound get =
      plain-IsSound FieldType.bool _ is_zero_bool bool-zero
        (λ log. with_request-typed FieldType.bool log _ _ refl (λ r. refl))

  pub strings-IsSound :
      (get : RequestLog → List String) → IsSound (strings_field name required default get)
  unfolding strings_field type_of
  strings-IsSound get =
      plain-IsSound FieldType.strings _ is_zero_slice strings-zero
        (λ log. with_request-typed FieldType.strings log _ _ refl (λ r. refl))

  pub addr_string-IsSound :
      (get : ConnAddrInfo → String) → IsSound (addr_string_field name required default get)
  unfolding addr_string_field type_of
  addr_string-IsSound get =
      plain-IsSound FieldType.string _ is_zero_string string-zero
        (λ log. with_addr-typed FieldType.string log _ _ refl (λ r. refl))

  pub addr_bool-IsSound :
      (get : ConnAddrInfo → Bool) → IsSound (addr_bool_field name required default get)
  unfolding addr_bool_field type_of
  addr_bool-IsSound get =
      plain-IsSound FieldType.bool _ is_zero_bool bool-zero
        (λ log. with_addr-typed FieldType.bool log _ _ refl (λ r. refl))

pub product-typed : (log : BfeLog) → type_of (product log) ≡ some FieldType.string
unfolding product type_of
product-typed log = ground arith

pub client_ip-typed : (log : BfeLog) → type_of (client_ip log) ≡ some FieldType.string
unfolding client_ip type_of
client_ip-typed log = ground arith

pub client_network-typed : (log : BfeLog) → type_of (client_network log) ≡ some FieldType.string
unfolding client_network type_of
client_network-typed log = ground arith

pub backend_info-typed : (log : BfeLog) → type_of (backend_info log) ≡ some FieldType.string
unfolding backend_info type_of
backend_info-typed log = ground arith

pub ai_apikeytags-typed : (log : BfeLog) → type_of (ai_apikeytags log) ≡ some FieldType.object
unfolding ai_apikeytags type_of
ai_apikeytags-typed log = ground arith

pub req_headers-typed : (log : BfeLog) → type_of (req_headers log) ≡ some FieldType.objects
unfolding req_headers type_of
req_headers-typed log = ground arith

pub res_headers-typed : (log : BfeLog) → type_of (res_headers log) ≡ some FieldType.objects
unfolding res_headers type_of
res_headers-typed log = ground arith

pub ai_rate_limit_hits-typed :
    (log : BfeLog) → type_of (ai_rate_limit_hits log) ≡ some FieldType.objects
unfolding ai_rate_limit_hits type_of
ai_rate_limit_hits-typed log = ground arith

pub ai_route_rule_hits-typed :
    (log : BfeLog) → type_of (ai_route_rule_hits log) ≡ some FieldType.objects
unfolding ai_route_rule_hits type_of
ai_route_rule_hits-typed log = ground arith

pub ai_cluster_key_names-typed :
    (log : BfeLog) → type_of (ai_cluster_key_names log) ≡ some FieldType.objects
unfolding ai_cluster_key_names type_of
ai_cluster_key_names-typed log = ground arith
