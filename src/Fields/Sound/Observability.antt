-- ===== src/Fields/Sound/Observability.antt =====
-- The entries of the table module Observability (reader_modules/mod_fields/field_registry.go) are sound.
use log_reader.Prelude.{true, false, All}
use log_reader.Fields.Types.{FieldType}
use log_reader.Fields.Value.{type_of}
use log_reader.Fields.Table.Observability.{ai_fields, token_fields, ai_detail_fields, cost_fields}
use log_reader.Fields.Sound.Rules.{
  IsSound, object-zero, objects-zero, plain-IsSound, string-IsSound, uint32-IsSound, int64-IsSound,
  bool-IsSound, strings-IsSound, ai_apikeytags-typed, ai_rate_limit_hits-typed,
  ai_route_rule_hits-typed, ai_cluster_key_names-typed,
}

pub ai_fields-IsSound : All IsSound ai_fields
unfolding ai_fields type_of
ai_fields-IsSound = (
  string-IsSound "ai_apikey_id" false true _,
  (
    plain-IsSound "ai_apikeytags" false true FieldType.object _ _ object-zero ai_apikeytags-typed,
    (
      string-IsSound "ai_requested_model" false true _,
      (string-IsSound "ai_target_model" false true _, (bool-IsSound "ai_stream" false true _, tt)),
    ),
  ),
)

pub token_fields-IsSound : All IsSound token_fields
unfolding token_fields type_of
token_fields-IsSound = (
  int64-IsSound "ai_input_tokens" false true _,
  (
    int64-IsSound "ai_output_tokens" false true _,
    (
      int64-IsSound "ai_total_tokens" false true _,
      (
        int64-IsSound "ai_cache_read_tokens" false true _,
        (
          int64-IsSound "ai_cache_write_tokens" false true _,
          (
            int64-IsSound "ai_audio_input_tokens" false true _,
            (
              int64-IsSound "ai_audio_output_tokens" false true _,
              (
                int64-IsSound "ai_image_count" false true _,
                (
                  int64-IsSound "ai_image_input_tokens" false true _,
                  (
                    int64-IsSound "ai_video_count" false true _,
                    (
                      int64-IsSound "ai_ttft_us" false true _,
                      (int64-IsSound "ai_tpot_us" false true _, tt),
                    ),
                  ),
                ),
              ),
            ),
          ),
        ),
      ),
    ),
  ),
)

pub ai_detail_fields-IsSound : All IsSound ai_detail_fields
unfolding ai_detail_fields type_of
ai_detail_fields-IsSound = (
  plain-IsSound "ai_rate_limit_hits" false true FieldType.objects _ _ objects-zero
      ai_rate_limit_hits-typed,
  (
    string-IsSound "ai_auth_reject_reason" false true _,
    (strings-IsSound "ai_auth_reject_quota_plans" false true _, tt),
  ),
)

pub cost_fields-IsSound : All IsSound cost_fields
unfolding cost_fields type_of
cost_fields-IsSound = (
  string-IsSound "ai_provider" false true _,
  (
    string-IsSound "ai_protocol" false true _,
    (
      uint32-IsSound "ai_retry_count" false true _,
      (
        string-IsSound "ai_mode" false true _,
        (
          int64-IsSound "ai_cost_value" false true _,
          (
            string-IsSound "ai_cost_currency" false true _,
            (
              plain-IsSound "ai_route_rule_hits" false true FieldType.objects _ _ objects-zero
                  ai_route_rule_hits-typed,
              (
                plain-IsSound "ai_cluster_key_names" false true FieldType.objects _ _ objects-zero
                    ai_cluster_key_names-typed,
                (strings-IsSound "ai_auth_hit_quota_plans" false true _, tt),
              ),
            ),
          ),
        ),
      ),
    ),
  ),
)
