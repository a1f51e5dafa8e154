-- ===== src/Fields/Sound/Entries.antt =====
-- Every entry of `registerAllFields` (reader_modules/mod_fields/field_registry.go) is sound.
use log_reader.Prelude.{String, All, All-concat}
use log_reader.Fields.Table.{all_entries, entry_groups}
use log_reader.Fields.Sound.Request.{
  top_level_fields-IsSound, client_fields-IsSound, request_fields-IsSound, header_fields-IsSound,
  routing_fields-IsSound,
}
use log_reader.Fields.Sound.Response.{
  response_fields-IsSound, timing_fields-IsSound, addr_fields-IsSound,
}
use log_reader.Fields.Sound.Observability.{
  ai_fields-IsSound, token_fields-IsSound, ai_detail_fields-IsSound, cost_fields-IsSound,
}
use log_reader.Fields.Sound.Rules.{IsSound}

pub all_entries-IsSound : (host : String) → All IsSound (all_entries host)
unfolding all_entries
all_entries-IsSound host = All-concat IsSound (entry_groups host) (
  (top_level_fields-IsSound host),
  (
    client_fields-IsSound,
    (
      request_fields-IsSound,
      (
        header_fields-IsSound,
        (
          routing_fields-IsSound,
          (
            response_fields-IsSound,
            (
              timing_fields-IsSound,
              (
                ai_fields-IsSound,
                (
                  token_fields-IsSound,
                  (ai_detail_fields-IsSound, (cost_fields-IsSound, (addr_fields-IsSound, tt))),
                ),
              ),
            ),
          ),
        ),
      ),
    ),
  ),
)
