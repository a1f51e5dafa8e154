-- ===== src/Fields/Table.antt =====
-- `registerAllFields` of reader_modules/mod_fields/field_registry.go: all the fields, in the order of
-- the calls. `host` is what `reader_util.GetHostId` returns.
pub mod Request
pub mod Response
pub mod Observability
use log_reader.Prelude.{String, List, [], ◌∷◌, concat}
use log_reader.Fields.Entry.{FieldEntry}
use Request.{top_level_fields, client_fields, request_fields, header_fields, routing_fields}
use Response.{response_fields, timing_fields, addr_fields}
use Observability.{ai_fields, token_fields, ai_detail_fields, cost_fields}

unfoldable pub entry_groups : String → List (List FieldEntry)
unfolding top_level_fields client_fields request_fields header_fields routing_fields response_fields
    timing_fields addr_fields ai_fields token_fields ai_detail_fields cost_fields
entry_groups host =
    top_level_fields host
    ∷ client_fields
    ∷ request_fields
    ∷ header_fields
    ∷ routing_fields
    ∷ response_fields
    ∷ timing_fields
    ∷ ai_fields
    ∷ token_fields
    ∷ ai_detail_fields
    ∷ cost_fields
    ∷ addr_fields
    ∷ []

unfoldable pub all_entries : String → List FieldEntry
unfolding entry_groups
all_entries host = concat (entry_groups host)
