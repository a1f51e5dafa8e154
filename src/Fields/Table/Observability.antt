-- ===== src/Fields/Table/Observability.antt =====
-- The AI fields of a record: `registerAllFields` of
-- reader_modules/mod_fields/field_registry.go, a list for each group of its calls.
use log_reader.Prelude.{true, false, List, [], ◌∷◌}
use log_reader.Fields.Types.{FieldType}
use log_reader.Fields.Value.{is_zero_slice, is_zero_object}
use log_reader.Fields.Entry.{
  FieldEntry, string_field, uint32_field, int64_field, bool_field, strings_field, plain_field,
}
use log_reader.Fields.Extractors.{
  ai_apikeytags, ai_rate_limit_hits, ai_route_rule_hits, ai_cluster_key_names,
}

unfoldable pub ai_fields : List FieldEntry
ai_fields =
    (string_field "ai_apikey_id" false true (λ r. r.ai_apikey_id))
    ∷ (plain_field "ai_apikeytags" FieldType.object false true ai_apikeytags is_zero_object)
    ∷ (string_field "ai_requested_model" false true (λ r. r.ai_requested_model))
    ∷ (string_field "ai_target_model" false true (λ r. r.ai_target_model))
    ∷ (bool_field "ai_stream" false true (λ r. r.ai_stream))
    ∷ []

unfoldable pub token_fields : List FieldEntry
token_fields =
    (int64_field "ai_input_tokens" false true (λ r. r.ai_input_tokens))
    ∷ (int64_field "ai_output_tokens" false true (λ r. r.ai_output_tokens))
    ∷ (int64_field "ai_total_tokens" false true (λ r. r.ai_total_tokens))
    ∷ (int64_field "ai_cache_read_tokens" false true (λ r. r.ai_cache_read_tokens))
    ∷ (int64_field "ai_cache_write_tokens" false true (λ r. r.ai_cache_write_tokens))
    ∷ (int64_field "ai_audio_input_tokens" false true (λ r. r.ai_audio_input_tokens))
    ∷ (int64_field "ai_audio_output_tokens" false true (λ r. r.ai_audio_output_tokens))
    ∷ (int64_field "ai_image_count" false true (λ r. r.ai_image_count))
    ∷ (int64_field "ai_image_input_tokens" false true (λ r. r.ai_image_input_tokens))
    ∷ (int64_field "ai_video_count" false true (λ r. r.ai_video_count))
    ∷ (int64_field "ai_ttft_us" false true (λ r. r.ai_ttft_us))
    ∷ (int64_field "ai_tpot_us" false true (λ r. r.ai_tpot_us))
    ∷ []

unfoldable pub ai_detail_fields : List FieldEntry
ai_detail_fields =
    (plain_field "ai_rate_limit_hits" FieldType.objects false true ai_rate_limit_hits is_zero_slice)
    ∷ (string_field "ai_auth_reject_reason" false true (λ r. r.ai_auth_reject_reason))
    ∷ (strings_field "ai_auth_reject_quota_plans" false true (λ r. r.ai_auth_reject_quota_plans))
    ∷ []

unfoldable pub cost_fields : List FieldEntry
cost_fields =
    (string_field "ai_provider" false true (λ r. r.ai_provider))
    ∷ (string_field "ai_protocol" false true (λ r. r.ai_protocol))
    ∷ (uint32_field "ai_retry_count" false true (λ r. r.ai_retry_count))
    ∷ (string_field "ai_mode" false true (λ r. r.ai_mode))
    ∷ (int64_field "ai_cost_value" false true (λ r. r.ai_cost_value))
    ∷ (string_field "ai_cost_currency" false true (λ r. r.ai_cost_currency))
    ∷ (plain_field "ai_route_rule_hits" FieldType.objects false true ai_route_rule_hits
        is_zero_slice)
    ∷ (plain_field "ai_cluster_key_names" FieldType.objects false true ai_cluster_key_names
        is_zero_slice)
    ∷ (strings_field "ai_auth_hit_quota_plans" false true (λ r. r.ai_auth_hit_quota_plans))
    ∷ []
