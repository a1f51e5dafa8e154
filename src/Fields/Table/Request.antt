-- ===== src/Fields/Table/Request.antt =====
-- The fields of a record that describe the request and where it went: `registerAllFields` of
-- reader_modules/mod_fields/field_registry.go, a list for each group of its calls.
use log_reader.Prelude.{String, true, false, List, [], ◌∷◌}
use log_reader.Fields.Types.{FieldType}
use log_reader.Fields.Value.{is_zero_string, is_zero_uint64, is_zero_slice, uint64, string}
use log_reader.Fields.Entry.{FieldEntry, string_field, uint32_field, uint64_field, plain_field}
use log_reader.Fields.Extractors.{product, client_ip, client_network, req_headers, backend_info}

unfoldable pub top_level_fields : String → List FieldEntry
top_level_fields host =
    (plain_field "logid" FieldType.uint64 true true (λ log. uint64 log.logid) is_zero_uint64)
    ∷ (plain_field "timestamp" FieldType.uint64 true true (λ log. uint64 log.timestamp)
        is_zero_uint64)
    ∷ (plain_field "product" FieldType.string true true product is_zero_string)
    ∷ (plain_field "hostid" FieldType.string true true (λ log. string host) is_zero_string)
    ∷ (plain_field "log_tag" FieldType.string false false (λ log. string log.log_tag)
        is_zero_string)
    ∷ []

unfoldable pub client_fields : List FieldEntry
client_fields =
    (plain_field "client_ip" FieldType.string true true client_ip is_zero_string)
    ∷ (plain_field "client_network" FieldType.string false false client_network is_zero_string)
    ∷ (uint32_field "req_num" false false (λ r. r.req_num))
    ∷ (uint64_field "session_id" false false (λ r. r.session_id))
    ∷ []

unfoldable pub request_fields : List FieldEntry
request_fields =
    (string_field "err_code" true true (λ r. r.err_code))
    ∷ (string_field "err_msg" true true (λ r. r.err_msg))
    ∷ (uint32_field "req_header_len" true true (λ r. r.req_header_len))
    ∷ (uint32_field "req_body_len" true true (λ r. r.req_body_len))
    ∷ []

unfoldable pub header_fields : List FieldEntry
header_fields =
    (string_field "proto" true true (λ r. r.proto))
    ∷ (string_field "header_host" true true (λ r. r.header_host))
    ∷ (string_field "origin_uri" true true (λ r. r.origin_uri))
    ∷ (string_field "final_uri" false true (λ r. r.final_uri))
    ∷ (string_field "method" true true (λ r. r.method))
    ∷ (string_field "content_type" false true (λ r. r.content_type))
    ∷ (string_field "referrer" false false (λ r. r.referrer))
    ∷ (string_field "user_agent" false false (λ r. r.user_agent))
    ∷ (string_field "x_forward_for" false true (λ r. r.x_forward_for))
    ∷ (string_field "accept_language" false true (λ r. r.accept_language))
    ∷ (string_field "authorization" false true (λ r. r.authorization))
    ∷ (string_field "transfer_encoding" false true (λ r. r.transfer_encoding))
    ∷ (string_field "delegation" false false (λ r. r.delegation))
    ∷ (string_field "uid" false false (λ r. r.uid))
    ∷ (string_field "cookie" false false (λ r. r.cookie))
    ∷ (plain_field "req_headers" FieldType.objects false false req_headers is_zero_slice)
    ∷ []

unfoldable pub routing_fields : List FieldEntry
routing_fields =
    (string_field "cluster" false true (λ r. r.cluster))
    ∷ (string_field "sub_cluster" false true (λ r. r.sub_cluster))
    ∷ (plain_field "backend_info" FieldType.string false true backend_info is_zero_string)
    ∷ (uint32_field "backend_retry" false true (λ r. r.backend_retry))
    ∷ []
