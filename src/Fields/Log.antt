-- ===== src/Fields/Log.antt =====
-- What the generated getters of package bfe_access_pb return for one record, a field for each getter
-- that the program calls (`GetErrCode` is `err_code`). The package is not part of the repository:
-- any values may stand here. A message that may be absent is an `Option`.
use log_reader.Prelude.{ℕ, String, Bool, List, Option, ℤ}

pub record HttpHeader : Type 0 where
  pub key : String
  pub value : String

pub record ApikeyTag : Type 0 where
  pub taglevel : ℤ
  pub tagname : String
  pub tagvalue : String

pub record AiRateLimitHit : Type 0 where
  pub rate_limit_policy_id : String
  pub rate_limit_type : String
  pub rule_names : List String

pub record AiRouteRuleHit : Type 0 where
  pub rule_owner : String
  pub rule_owner_type : String
  pub rule_name : String

pub record ClusterKeyName : Type 0 where
  pub cluster_name : String
  pub key_name : String

pub record BackendInfo : Type 0 where
  pub ip_addr : ℕ
  pub port : ℕ

pub record ConnAddrInfo : Type 0 where
  pub bfe_ip : ℕ
  pub sock_src_ip : ℕ
  pub is_trust_src_ip : Bool
  pub vip : ℕ
  pub vip6 : String

-- Of the enum `ClientNetwork`: whether the field is set, whether its getter returns `NetType_Ipv6`,
-- and the enum's text.
pub record RequestLog : Type 0 where
  pub product : String
  pub client_network_set : Bool
  pub client_network_is_ipv6 : Bool
  pub client_network_name : String
  pub client_ip6 : String
  pub client_ip : ℕ
  pub req_num : ℕ
  pub session_id : ℕ
  pub err_code : String
  pub err_msg : String
  pub req_header_len : ℕ
  pub req_body_len : ℕ
  pub proto : String
  pub header_host : String
  pub origin_uri : String
  pub final_uri : String
  pub method : String
  pub content_type : String
  pub referrer : String
  pub user_agent : String
  pub x_forward_for : String
  pub accept_language : String
  pub authorization : String
  pub transfer_encoding : String
  pub delegation : String
  pub uid : String
  pub cookie : String
  pub cluster : String
  pub sub_cluster : String
  pub backend_retry : ℕ
  pub res_status_code : ℕ
  pub res_header_len : ℕ
  pub res_body_len : ℕ
  pub res_content_type : String
  pub res_location : String
  pub res_transfer_encoding : String
  pub all_time : ℕ
  pub read_client_time : ℕ
  pub cluster_serve_time : ℕ
  pub backend_serve_time : ℕ
  pub write_client_time : ℕ
  pub session_offset_time : ℕ
  pub connect_backend_time : ℕ
  pub proxy_delay_time : ℕ
  pub ai_apikey_id : String
  pub ai_requested_model : String
  pub ai_target_model : String
  pub ai_stream : Bool
  pub ai_input_tokens : ℤ
  pub ai_output_tokens : ℤ
  pub ai_total_tokens : ℤ
  pub ai_cache_read_tokens : ℤ
  pub ai_cache_write_tokens : ℤ
  pub ai_audio_input_tokens : ℤ
  pub ai_audio_output_tokens : ℤ
  pub ai_image_count : ℤ
  pub ai_image_input_tokens : ℤ
  pub ai_video_count : ℤ
  pub ai_ttft_us : ℤ
  pub ai_tpot_us : ℤ
  pub ai_auth_reject_reason : String
  pub ai_provider : String
  pub ai_protocol : String
  pub ai_retry_count : ℕ
  pub ai_mode : String
  pub ai_cost_value : ℤ
  pub ai_cost_currency : String
  pub req_headers : List HttpHeader
  pub res_headers : List HttpHeader
  pub backend_info : Option BackendInfo
  pub addr_info : Option ConnAddrInfo
  pub ai_apikeytags : List ApikeyTag
  pub ai_rate_limit_hits : List AiRateLimitHit
  pub ai_auth_reject_quota_plans : List String
  pub ai_route_rule_hits : List AiRouteRuleHit
  pub ai_cluster_key_names : List ClusterKeyName
  pub ai_auth_hit_quota_plans : List String

-- `is_request` is `GetLogType() == BfeLogType_Request`, `product_name` is `GetProduct().String()`.
pub record BfeLog : Type 0 where
  pub logid : ℕ
  pub timestamp : ℕ
  pub product_name : String
  pub log_tag : String
  pub is_request : Bool
  pub request_log : Option RequestLog
