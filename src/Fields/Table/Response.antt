-- ===== src/Fields/Table/Response.antt =====
-- The fields of the response, of timing and of addresses: `registerAllFields` of
-- reader_modules/mod_fields/field_registry.go, a list for each group of its calls.
use log_reader.Prelude.{true, false, List, [], ◌∷◌}
use log_reader.Fields.Types.{FieldType}
use log_reader.Fields.Value.{is_zero_slice}
use log_reader.Fields.Entry.{
  FieldEntry, string_field, uint32_field, plain_field, addr_string_field, addr_bool_field,
}
use log_reader.Fields.Extractors.{ip_uint32_to_string, res_headers}

unfoldable pub response_fields : List FieldEntry
response_fields =
    (uint32_field "res_status_code" true true (λ r. r.res_status_code))
    ∷ (uint32_field "res_header_len" true true (λ r. r.res_header_len))
    ∷ (uint32_field "res_body_len" true true (λ r. r.res_body_len))
    ∷ (string_field "res_content_type" false true (λ r. r.res_content_type))
    ∷ (string_field "res_location" false false (λ r. r.res_location))
    ∷ (string_field "res_transfer_encoding" false false (λ r. r.res_transfer_encoding))
    ∷ (plain_field "res_headers" FieldType.objects false false res_headers is_zero_slice)
    ∷ []

unfoldable pub timing_fields : List FieldEntry
timing_fields =
    (uint32_field "all_time" true true (λ r. r.all_time))
    ∷ (uint32_field "read_client_time" true true (λ r. r.read_client_time))
    ∷ (uint32_field "cluster_serve_time" true true (λ r. r.cluster_serve_time))
    ∷ (uint32_field "backend_serve_time" true true (λ r. r.backend_serve_time))
    ∷ (uint32_field "write_client_time" true true (λ r. r.write_client_time))
    ∷ (uint32_field "session_offset_time" false false (λ r. r.session_offset_time))
    ∷ (uint32_field "connect_backend_time" false true (λ r. r.connect_backend_time))
    ∷ (uint32_field "proxy_delay_time" true true (λ r. r.proxy_delay_time))
    ∷ []

unfoldable pub addr_fields : List FieldEntry
addr_fields =
    (addr_string_field "bfe_ip" false false (λ a. ip_uint32_to_string a.bfe_ip))
    ∷ (addr_string_field "sock_src_ip" false false (λ a. ip_uint32_to_string a.sock_src_ip))
    ∷ (addr_bool_field "is_trust_src_ip" false true (λ a. a.is_trust_src_ip))
    ∷ (addr_string_field "vip" false false (λ a. ip_uint32_to_string a.vip))
    ∷ (addr_string_field "vip6" false false (λ a. a.vip6))
    ∷ []
