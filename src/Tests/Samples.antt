-- ===== src/Tests/Samples.antt =====
-- Records and outcomes for the tests of the other modules.
use log_reader.Prelude.{true, false, [], ◌∷◌, none, some, pos}
use log_reader.Fields.Log.{ApikeyTag, RequestLog, BfeLog}

abbrev tag_one : ApikeyTag
tag_one = record { taglevel = pos 1; tagname = "team"; tagvalue = "search" }

abbrev tag_two : ApikeyTag
tag_two = record { taglevel = pos 2; tagname = "env"; tagvalue = "" }

abbrev tag_one_again : ApikeyTag
tag_one_again = record { taglevel = pos 1; tagname = "team"; tagvalue = "ads" }

abbrev sample_request : RequestLog
sample_request = record {
  product = "web";
  client_network_set = false;
  client_network_is_ipv6 = false;
  client_network_name = "";
  client_ip6 = "";
  client_ip = 0;
  req_num = 0;
  session_id = 0;
  err_code = "";
  err_msg = "";
  req_header_len = 0;
  req_body_len = 0;
  proto = "";
  header_host = "example.org";
  origin_uri = "";
  final_uri = "";
  method = "GET";
  content_type = "";
  referrer = "";
  user_agent = "";
  x_forward_for = "";
  accept_language = "";
  authorization = "";
  transfer_encoding = "";
  delegation = "";
  uid = "";
  cookie = "";
  cluster = "";
  sub_cluster = "";
  backend_retry = 0;
  res_status_code = 200;
  res_header_len = 0;
  res_body_len = 0;
  res_content_type = "";
  res_location = "";
  res_transfer_encoding = "";
  all_time = 0;
  read_client_time = 0;
  cluster_serve_time = 0;
  backend_serve_time = 0;
  write_client_time = 0;
  session_offset_time = 0;
  connect_backend_time = 0;
  proxy_delay_time = 0;
  ai_apikey_id = "";
  ai_requested_model = "";
  ai_target_model = "";
  ai_stream = true;
  ai_input_tokens = pos 17;
  ai_output_tokens = pos 0;
  ai_total_tokens = pos 0;
  ai_cache_read_tokens = pos 0;
  ai_cache_write_tokens = pos 0;
  ai_audio_input_tokens = pos 0;
  ai_audio_output_tokens = pos 0;
  ai_image_count = pos 0;
  ai_image_input_tokens = pos 0;
  ai_video_count = pos 0;
  ai_ttft_us = pos 0;
  ai_tpot_us = pos 0;
  ai_auth_reject_reason = "";
  ai_provider = "";
  ai_protocol = "";
  ai_retry_count = 0;
  ai_mode = "";
  ai_cost_value = pos 0;
  ai_cost_currency = "";
  req_headers = [];
  res_headers = [];
  backend_info = none;
  addr_info = none;
  ai_apikeytags = tag_one ∷ tag_two ∷ tag_one_again ∷ [];
  ai_rate_limit_hits = [];
  ai_auth_reject_quota_plans = [];
  ai_route_rule_hits = [];
  ai_cluster_key_names = [];
  ai_auth_hit_quota_plans = [];
}

abbrev pub sample_log : BfeLog
sample_log = record {
  logid = 7;
  timestamp = 1700000000;
  product_name = "web";
  log_tag = "";
  is_request = true;
  request_log = some sample_request;
}

-- A record that is not of type Request.
abbrev pub session_log : BfeLog
session_log = record {
  logid = 8;
  timestamp = 1700000001;
  product_name = "web";
  log_tag = "";
  is_request = false;
  request_log = none;
}
