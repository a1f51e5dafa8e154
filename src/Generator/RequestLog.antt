-- ===== src/Generator/RequestLog.antt =====
-- `MakeRequestLog` of tests/integration/common/log_generator.go, through the getters of the record that
-- it makes. The texts of the two enums are parameters: the names of the product and of the network.
use Prim.Native.String
use log_reader.Prelude.{ℕ, String, true, false, [], ◌∷◌, some, pos}
use log_reader.Fields.Log.{BfeLog}

unfoldable pub make_request_log : String → ℕ → String → String → String → String → BfeLog
make_request_log net_name logid product_name host uri model = record {
  logid = logid;
  timestamp = 1782353290;
  product_name = product_name;
  log_tag = "integration-test";
  is_request = true;
  request_log = some (record {
    product = product_name;
    client_network_set = true;
    client_network_is_ipv6 = false;
    client_network_name = net_name;
    client_ip6 = "";
    client_ip = 0x0A000001;
    req_num = 1;
    session_id = 123456789;
    err_code = "";
    err_msg = "ok";
    req_header_len = 189;
    req_body_len = 256;
    proto = "HTTP/1.1";
    header_host = host;
    origin_uri = uri;
    final_uri = String.◌++◌ uri "/final";
    method = "POST";
    content_type = "application/json";
    referrer = "https://example.org";
    user_agent = "log-reader-test-agent/1.0";
    x_forward_for = "10.0.0.2, 10.0.0.3";
    accept_language = "en-US,zh-CN";
    authorization = "Bearer sk-test";
    transfer_encoding = "chunked";
    delegation = "delegation.example.org";
    uid = "user-123";
    cookie = "session=abc123";
    cluster = "cluster-A";
    sub_cluster = "subcluster-A1";
    backend_retry = 1;
    res_status_code = 200;
    res_header_len = 154;
    res_body_len = 459;
    res_content_type = "application/json";
    res_location = "https://example.org/redirect";
    res_transfer_encoding = "chunked";
    all_time = 11;
    read_client_time = 2;
    cluster_serve_time = 5;
    backend_serve_time = 4;
    write_client_time = 1;
    session_offset_time = 100;
    connect_backend_time = 1;
    proxy_delay_time = 3;
    ai_apikey_id = "key-id-123";
    ai_requested_model = model;
    ai_target_model = String.◌++◌ model "-mapped";
    ai_stream = true;
    ai_input_tokens = pos 1000;
    ai_output_tokens = pos 200;
    ai_total_tokens = pos 1200;
    ai_cache_read_tokens = pos 500;
    ai_cache_write_tokens = pos 100;
    ai_audio_input_tokens = pos 80;
    ai_audio_output_tokens = pos 20;
    ai_image_count = pos 1;
    ai_image_input_tokens = pos 200;
    ai_video_count = pos 3;
    ai_ttft_us = pos 50000;
    ai_tpot_us = pos 2500;
    ai_auth_reject_reason = "quota_exceeded";
    ai_provider = "openai";
    ai_protocol = "openai";
    ai_retry_count = 1;
    ai_mode = "chat";
    ai_cost_value = pos 5000;
    ai_cost_currency = "USD";
    req_headers =
        record { key = "X-Request-Id"; value = "req-123" }
        ∷ record { key = "X-Test-Header"; value = "test-value" }
        ∷ [];
    res_headers =
        record { key = "Content-Type"; value = "application/json" }
        ∷ record { key = "X-Response-Id"; value = "res-456" }
        ∷ [];
    backend_info = some (record { ip_addr = 0x0A0000C8; port = 8080 });
    addr_info = some (record {
      bfe_ip = 0x0A000064;
      sock_src_ip = 0x0A000001;
      is_trust_src_ip = true;
      vip = 0xC0A80101;
      vip6 = "";
    });
    ai_apikeytags =
        record { taglevel = pos 1; tagname = "dep"; tagvalue = "ops" }
        ∷ record { taglevel = pos 2; tagname = "team"; tagvalue = "bfe" }
        ∷ [];
    ai_rate_limit_hits =
        record {
          rate_limit_policy_id = "rlp-0001";
          rate_limit_type = "tpm";
          rule_names = "win1m" ∷ "win5m" ∷ [];
        }
        ∷ [];
    ai_auth_reject_quota_plans = "plan-A" ∷ "plan-B" ∷ [];
    ai_route_rule_hits =
        record { rule_owner = "ak_user_a"; rule_owner_type = "apikey"; rule_name = "user_a-rule1" }
        ∷ [];
    ai_cluster_key_names = record { cluster_name = "cluster-a"; key_name = "key-001" } ∷ [];
    ai_auth_hit_quota_plans = "hit-plan-A" ∷ "hit-plan-B" ∷ [];
  });
}
