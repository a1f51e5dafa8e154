-- ===== src/Fields/Sound/Request.antt =====
-- The entries of the table module Request (reader_modules/mod_fields/field_registry.go) are sound.
use log_reader.Prelude.{true, false, String, refl, All}
use log_reader.Fields.Types.{FieldType}
use log_reader.Fields.Value.{type_of}
use log_reader.Fields.Table.Request.{
  top_level_fields, client_fields, request_fields, header_fields, routing_fields,
}
use log_reader.Fields.Sound.Rules.{
  IsSound, string-zero, uint64-zero, objects-zero, plain-IsSound, string-IsSound, uint32-IsSound,
  uint64-IsSound, product-typed, client_ip-typed, client_network-typed, backend_info-typed,
  req_headers-typed,
}

pub top_level_fields-IsSound : (host : String) → All IsSound (top_level_fields host)
unfolding top_level_fields type_of
top_level_fields-IsSound host = (
  plain-IsSound "logid" true true FieldType.uint64 _ _ uint64-zero (λ log. refl),
  (
    plain-IsSound "timestamp" true true FieldType.uint64 _ _ uint64-zero (λ log. refl),
    (
      plain-IsSound "product" true true FieldType.string _ _ string-zero product-typed,
      (
        plain-IsSound "hostid" true true FieldType.string _ _ string-zero (λ log. refl),
        (plain-IsSound "log_tag" false false FieldType.string _ _ string-zero (λ log. refl), tt),
      ),
    ),
  ),
)

pub client_fields-IsSound : All IsSound client_fields
unfolding client_fields type_of
client_fields-IsSound = (
  plain-IsSound "client_ip" true true FieldType.string _ _ string-zero client_ip-typed,
  (
    plain-IsSound "client_network" false false FieldType.string _ _ string-zero
        client_network-typed,
    (uint32-IsSound "req_num" false false _, (uint64-IsSound "session_id" false false _, tt)),
  ),
)

pub request_fields-IsSound : All IsSound request_fields
unfolding request_fields type_of
request_fields-IsSound = (
  string-IsSound "err_code" true true _,
  (
    string-IsSound "err_msg" true true _,
    (uint32-IsSound "req_header_len" true true _, (uint32-IsSound "req_body_len" true true _, tt)),
  ),
)

pub header_fields-IsSound : All IsSound header_fields
unfolding header_fields type_of
header_fields-IsSound = (
  string-IsSound "proto" true true _,
  (
    string-IsSound "header_host" true true _,
    (
      string-IsSound "origin_uri" true true _,
      (
        string-IsSound "final_uri" false true _,
        (
          string-IsSound "method" true true _,
          (
            string-IsSound "content_type" false true _,
            (
              string-IsSound "referrer" false false _,
              (
                string-IsSound "user_agent" false false _,
                (
                  string-IsSound "x_forward_for" false true _,
                  (
                    string-IsSound "accept_language" false true _,
                    (
                      string-IsSound "authorization" false true _,
                      (
                        string-IsSound "transfer_encoding" false true _,
                        (
                          string-IsSound "delegation" false false _,
                          (
                            string-IsSound "uid" false false _,
                            (
                              string-IsSound "cookie" false false _,
                              (
                                plain-IsSound "req_headers" false false FieldType.objects _ _
                                    objects-zero req_headers-typed,
                                tt,
                              ),
                            ),
                          ),
                        ),
                      ),
                    ),
                  ),
                ),
              ),
            ),
          ),
        ),
      ),
    ),
  ),
)

pub routing_fields-IsSound : All IsSound routing_fields
unfolding routing_fields type_of
routing_fields-IsSound = (
  string-IsSound "cluster" false true _,
  (
    string-IsSound "sub_cluster" false true _,
    (
      plain-IsSound "backend_info" false true FieldType.string _ _ string-zero backend_info-typed,
      (uint32-IsSound "backend_retry" false true _, tt),
    ),
  ),
)
