-- ===== src/Mysql/Columns.antt =====
-- The columns of the table, in the order of the statement: `columnDefs` of
-- reader_modules/mod_log_mysql/field_mapper.go.
use log_reader.Prelude.{ℕ, String, List, [], ◌∷◌, map}

-- How a column gets its value (`columnKind`).
pub data ColumnKind : Type 0 where
  scalar bool_tiny json log_time tag_name tag_value : ColumnKind

-- The empty text and 0 where the source leaves `field` or `level` out.
pub record ColumnDef : Type 0 where
  pub name : String
  pub field : String
  pub kind : ColumnKind
  pub level : ℕ

abbrev field_column : String → String → ColumnKind → ColumnDef
field_column name field kind = record { name = name; field = field; kind = kind; level = 0 }

abbrev tag_column : String → ColumnKind → ℕ → ColumnDef
tag_column name kind level = record { name = name; field = ""; kind = kind; level = level }

unfoldable pub column_defs : List ColumnDef
column_defs =
    field_column "hostid" "hostid" scalar
    ∷ field_column "log_time" "" log_time
    ∷ field_column "ai_apikey_id" "ai_apikey_id" scalar
    ∷ field_column "ai_requested_model" "ai_requested_model" scalar
    ∷ field_column "logid" "logid" scalar
    ∷ field_column "product" "product" scalar
    ∷ field_column "log_tag" "log_tag" scalar
    ∷ field_column "client_ip" "client_ip" scalar
    ∷ field_column "client_network" "client_network" scalar
    ∷ field_column "is_trust_src_ip" "is_trust_src_ip" bool_tiny
    ∷ field_column "req_num" "req_num" scalar
    ∷ field_column "session_id" "session_id" scalar
    ∷ field_column "bfe_ip" "bfe_ip" scalar
    ∷ field_column "sock_src_ip" "sock_src_ip" scalar
    ∷ field_column "vip" "vip" scalar
    ∷ field_column "vip6" "vip6" scalar
    ∷ field_column "err_code" "err_code" scalar
    ∷ field_column "err_msg" "err_msg" scalar
    ∷ field_column "proto" "proto" scalar
    ∷ field_column "header_host" "header_host" scalar
    ∷ field_column "origin_uri" "origin_uri" scalar
    ∷ field_column "final_uri" "final_uri" scalar
    ∷ field_column "method" "method" scalar
    ∷ field_column "content_type" "content_type" scalar
    ∷ field_column "x_forward_for" "x_forward_for" scalar
    ∷ field_column "accept_language" "accept_language" scalar
    ∷ field_column "authorization" "authorization" scalar
    ∷ field_column "transfer_encoding" "transfer_encoding" scalar
    ∷ field_column "referrer" "referrer" scalar
    ∷ field_column "user_agent" "user_agent" scalar
    ∷ field_column "delegation" "delegation" scalar
    ∷ field_column "uid" "uid" scalar
    ∷ field_column "cookie" "cookie" scalar
    ∷ field_column "req_headers" "req_headers" json
    ∷ field_column "req_header_len" "req_header_len" scalar
    ∷ field_column "req_body_len" "req_body_len" scalar
    ∷ field_column "cluster" "cluster" scalar
    ∷ field_column "sub_cluster" "sub_cluster" scalar
    ∷ field_column "backend_info" "backend_info" scalar
    ∷ field_column "backend_retry" "backend_retry" scalar
    ∷ field_column "res_status_code" "res_status_code" scalar
    ∷ field_column "res_header_len" "res_header_len" scalar
    ∷ field_column "res_body_len" "res_body_len" scalar
    ∷ field_column "res_content_type" "res_content_type" scalar
    ∷ field_column "res_location" "res_location" scalar
    ∷ field_column "res_transfer_encoding" "res_transfer_encoding" scalar
    ∷ field_column "res_headers" "res_headers" json
    ∷ field_column "all_time" "all_time" scalar
    ∷ field_column "read_client_time" "read_client_time" scalar
    ∷ field_column "cluster_serve_time" "cluster_serve_time" scalar
    ∷ field_column "backend_serve_time" "backend_serve_time" scalar
    ∷ field_column "write_client_time" "write_client_time" scalar
    ∷ field_column "connect_backend_time" "connect_backend_time" scalar
    ∷ field_column "proxy_delay_time" "proxy_delay_time" scalar
    ∷ field_column "session_offset_time" "session_offset_time" scalar
    ∷ tag_column "level1Name" tag_name 1
    ∷ tag_column "level1" tag_value 1
    ∷ tag_column "level2Name" tag_name 2
    ∷ tag_column "level2" tag_value 2
    ∷ tag_column "level3Name" tag_name 3
    ∷ tag_column "level3" tag_value 3
    ∷ tag_column "level4Name" tag_name 4
    ∷ tag_column "level4" tag_value 4
    ∷ tag_column "level5Name" tag_name 5
    ∷ tag_column "level5" tag_value 5
    ∷ field_column "ai_target_model" "ai_target_model" scalar
    ∷ field_column "ai_stream" "ai_stream" bool_tiny
    ∷ field_column "ai_input_tokens" "ai_input_tokens" scalar
    ∷ field_column "ai_output_tokens" "ai_output_tokens" scalar
    ∷ field_column "ai_total_tokens" "ai_total_tokens" scalar
    ∷ field_column "ai_cache_read_tokens" "ai_cache_read_tokens" scalar
    ∷ field_column "ai_cache_write_tokens" "ai_cache_write_tokens" scalar
    ∷ field_column "ai_audio_input_tokens" "ai_audio_input_tokens" scalar
    ∷ field_column "ai_audio_output_tokens" "ai_audio_output_tokens" scalar
    ∷ field_column "ai_image_count" "ai_image_count" scalar
    ∷ field_column "ai_ttft_us" "ai_ttft_us" scalar
    ∷ field_column "ai_tpot_us" "ai_tpot_us" scalar
    ∷ field_column "ai_provider" "ai_provider" scalar
    ∷ field_column "ai_protocol" "ai_protocol" scalar
    ∷ field_column "ai_mode" "ai_mode" scalar
    ∷ field_column "ai_retry_count" "ai_retry_count" scalar
    ∷ field_column "ai_cost_value" "ai_cost_value" scalar
    ∷ field_column "ai_cost_currency" "ai_cost_currency" scalar
    ∷ field_column "ai_route_rule_hits" "ai_route_rule_hits" json
    ∷ field_column "ai_cluster_key_names" "ai_cluster_key_names" json
    ∷ field_column "ai_rate_limit_hits" "ai_rate_limit_hits" json
    ∷ field_column "ai_auth_reject_reason" "ai_auth_reject_reason" scalar
    ∷ field_column "ai_auth_reject_quota_plans" "ai_auth_reject_quota_plans" json
    ∷ field_column "ai_auth_hit_quota_plans" "ai_auth_hit_quota_plans" json
    ∷ []

unfoldable pub columns : List String
unfolding column_defs
columns = map (λ c. c.name) column_defs
