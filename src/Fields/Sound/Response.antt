-- ===== src/Fields/Sound/Response.antt =====
-- The entries of the table module Response (reader_modules/mod_fields/field_registry.go) are sound.
use log_reader.Prelude.{true, false, All}
use log_reader.Fields.Types.{FieldType}
use log_reader.Fields.Value.{type_of}
use log_reader.Fields.Table.Response.{response_fields, timing_fields, addr_fields}
use log_reader.Fields.Sound.Rules.{
  IsSound, objects-zero, plain-IsSound, string-IsSound, uint32-IsSound, addr_string-IsSound,
  addr_bool-IsSound, res_headers-typed,
}

pub response_fields-IsSound : All IsSound response_fields
unfolding response_fields type_of
response_fields-IsSound = (
  uint32-IsSound "res_status_code" true true _,
  (
    uint32-IsSound "res_header_len" true true _,
    (
      uint32-IsSound "res_body_len" true true _,
      (
        string-IsSound "res_content_type" false true _,
        (
          string-IsSound "res_location" false false _,
          (
            string-IsSound "res_transfer_encoding" false false _,
            (
              plain-IsSound "res_headers" false false FieldType.objects _ _ objects-zero
                  res_headers-typed,
              tt,
            ),
          ),
        ),
      ),
    ),
  ),
)

pub timing_fields-IsSound : All IsSound timing_fields
unfolding timing_fields type_of
timing_fields-IsSound = (
  uint32-IsSound "all_time" true true _,
  (
    uint32-IsSound "read_client_time" true true _,
    (
      uint32-IsSound "cluster_serve_time" true true _,
      (
        uint32-IsSound "backend_serve_time" true true _,
        (
          uint32-IsSound "write_client_time" true true _,
          (
            uint32-IsSound "session_offset_time" false false _,
            (
              uint32-IsSound "connect_backend_time" false true _,
              (uint32-IsSound "proxy_delay_time" true true _, tt),
            ),
          ),
        ),
      ),
    ),
  ),
)

pub addr_fields-IsSound : All IsSound addr_fields
unfolding addr_fields type_of
addr_fields-IsSound = (
  addr_string-IsSound "bfe_ip" false false _,
  (
    addr_string-IsSound "sock_src_ip" false false _,
    (
      addr_bool-IsSound "is_trust_src_ip" false true _,
      (addr_string-IsSound "vip" false false _, (addr_string-IsSound "vip6" false false _, tt)),
    ),
  ),
)
