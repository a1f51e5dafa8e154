-- ===== src/Fields/Extractors.antt =====
-- The extractors of reader_modules/mod_fields/field_registry.go that are more than one getter.
use mathlib.Core.List.{foldl}
use log_reader.Prelude.{
  ℕ, ◌/◌, ◌%◌, ◌^◌, String, not, ◌||◌, List, [], ◌∷◌, map, Option, none, some, ℤ, ◌==◌, str_eq,
  if◌then◌else◌, le_const, lt_const, insert, decimal, decimal_ℤ, texts,
}
use log_reader.Fields.Log.{BfeLog, ApikeyTag}
use log_reader.Fields.Value.{
  Value, string, object, rate_limit_hits, route_rule_hits, cluster_key_names, headers,
  ApikeyTagJson,
}
use log_reader.Fields.Entry.{with_request}

-- The byte of an address at a shift: (ip >> shift) & 0xFF.
abbrev pub octet : ℕ → ℕ → ℕ
octet ip shift = ip / 2 ^ shift % 256

unfoldable pub ip_uint32_to_string : ℕ → String
unfolding decimal
ip_uint32_to_string ip =
    if ip == 0
    then ""
    else texts (
        decimal (octet ip 24)
        ∷ "."
        ∷ decimal (octet ip 16)
        ∷ "."
        ∷ decimal (octet ip 8)
        ∷ "."
        ∷ decimal (octet ip 0)
        ∷ [])

unfoldable pub product : BfeLog → Value
product log = elim log.request_log [
  | none ↦ string log.product_name
  | some r ↦ if str_eq r.product "" then string log.product_name else string r.product
]

unfoldable pub client_ip : BfeLog → Value
unfolding ip_uint32_to_string
client_ip log = elim log.request_log [
  | none ↦ string ""
  | some r ↦
      if r.client_network_is_ipv6
      then string r.client_ip6
      else string (ip_uint32_to_string r.client_ip)
]

unfoldable pub client_network : BfeLog → Value
client_network log = elim log.request_log [
  | none ↦ string ""
  | some r ↦ if r.client_network_set then string r.client_network_name else string ""
]

unfoldable pub req_headers : BfeLog → Value
unfolding with_request
req_headers log =
    with_request log (headers [])
      λ r. headers (map (λ h. record { key = h.key; value = h.value }) r.req_headers)

unfoldable pub res_headers : BfeLog → Value
unfolding with_request
res_headers log =
    with_request log (headers [])
      λ r. headers (map (λ h. record { key = h.key; value = h.value }) r.res_headers)

unfoldable pub backend_info : BfeLog → Value
unfolding with_request ip_uint32_to_string decimal
backend_info log = with_request log (string "") λ r. elim r.backend_info [
  | none ↦ string ""
  | some b ↦ string (texts (ip_uint32_to_string b.ip_addr ∷ ":" ∷ decimal b.port ∷ []))
]

-- fmt.Sprintf("level%d", lvl)
unfoldable pub level_key : ℤ → String
unfolding decimal_ℤ
level_key lvl = texts ("level" ∷ decimal_ℤ lvl ∷ [])

abbrev pub no_tags : List (String × Option ApikeyTagJson)
no_tags =
    ("level1", none)
    ∷ ("level2", none)
    ∷ ("level3", none)
    ∷ ("level4", none)
    ∷ ("level5", none)
    ∷ []

-- One round of the loop over the tags of a record.
unfoldable pub set_tag :
    List (String × Option ApikeyTagJson) → ApikeyTag → List (String × Option ApikeyTagJson)
unfolding level_key
set_tag result t =
    if lt_const t.taglevel 1 || not (le_const t.taglevel 5)
    then result
    else insert (level_key t.taglevel)
        (some (record { tagname = t.tagname; tagvalue = t.tagvalue })) result

unfoldable pub ai_apikeytags : BfeLog → Value
unfolding set_tag
ai_apikeytags log = elim log.request_log [
  | none ↦ object no_tags
  | some r ↦ object (foldl set_tag no_tags r.ai_apikeytags)
]

unfoldable pub ai_rate_limit_hits : BfeLog → Value
unfolding with_request
ai_rate_limit_hits log = with_request log (rate_limit_hits []) λ r. rate_limit_hits (
    map
      (λ h. record {
        rate_limit_policy_id = h.rate_limit_policy_id;
        rate_limit_type = h.rate_limit_type;
        rule_names = h.rule_names;
      })
      r.ai_rate_limit_hits)

unfoldable pub ai_route_rule_hits : BfeLog → Value
unfolding with_request
ai_route_rule_hits log = with_request log (route_rule_hits []) λ r. route_rule_hits (
    map
      (λ h. record {
        rule_owner = h.rule_owner;
        rule_owner_type = h.rule_owner_type;
        rule_name = h.rule_name;
      })
      r.ai_route_rule_hits)

unfoldable pub ai_cluster_key_names : BfeLog → Value
unfolding with_request
ai_cluster_key_names log = with_request log (cluster_key_names []) λ r. cluster_key_names (
    map (λ p. record { cluster_name = p.cluster_name; key_name = p.key_name })
      r.ai_cluster_key_names)
