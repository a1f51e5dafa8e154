-- ===== src/Kafka/Fields.antt =====
-- The fields that the Kafka module writes: reader_modules/mod_kafka/kafka_data_config.go and
-- json_converter.go. `json.Marshal` of a map is a parameter; it sorts the keys, so the order in which
-- the program ranges over the set of fields does not show. `reg` is the field registry.
pub mod Chosen
use log_reader.Prelude.{
  String, Bool, true, not, List, [], ◌∷◌, Option, none, some, str_eq, if◌then◌else◌, insert, map,
}
use log_reader.Fields.Types.{FieldDef}
use log_reader.Fields.Log.{BfeLog}
use log_reader.Fields.Value.{Value}
use log_reader.Fields.Registry.{
  FieldRegistry, default_fields, required_fields, all_fields, is_valid_field, extract,
}

pub record ConfKafkaFields : Type 0 where
  pub field_mode : String
  pub field_names : List String

-- The set of `OutputFields`, a Go map of true.
abbrev pub OutputFields : Type 0
OutputFields = List (String × Bool)

-- for _, name := range names { fieldSet[name] = true }
abbrev pub add_all : List String → OutputFields → OutputFields
add_all [] set = set
add_all (name ∷ names) set = add_all names (insert name true set)

module _ (reg : FieldRegistry) where
  -- The loop of the case "customized": texts that are empty and unknown fields are skipped.
  unfoldable pub add_customized : List String → OutputFields → OutputFields
  unfolding is_valid_field
  add_customized [] set = set
  add_customized (name ∷ names) set =
      let skipped : OutputFields = add_customized names set in
      let added : OutputFields = add_customized names (insert name true set) in
      if str_eq name "" then skipped else if not (is_valid_field reg name) then skipped else added

  -- `ResolveFields`.
  unfoldable pub resolve_fields : ConfKafkaFields → OutputFields
  unfolding add_customized required_fields default_fields all_fields
  resolve_fields c =
      let set : OutputFields = add_all (required_fields reg) [] in
      let mode : String = if str_eq c.field_mode "" then "default" else c.field_mode in
      if str_eq mode "require"
      then set
      else if str_eq mode "default"
      then add_all (default_fields reg) set
      else if str_eq mode "all"
      then add_all (map (λ (d : FieldDef). d.name) (all_fields reg)) set
      else if str_eq mode "customized"
      then add_customized c.field_names set
      else add_all (default_fields reg) set

  unfoldable pub default_output_fields : OutputFields
  unfolding default_fields
  default_output_fields = add_all (default_fields reg) []

  -- m[fieldName] = val, for each field of the set.
  unfoldable pub object_of : BfeLog → OutputFields → List (String × Value)
  unfolding extract
  object_of log [] = []
  object_of log ((name, b) ∷ set) = (name, (extract reg name log).0) ∷ object_of log set

  unfoldable pub convert_bfe_log_to_json :
      (List (String × Value) → Option String) → BfeLog → Option OutputFields → Option String
  unfolding object_of default_output_fields
  convert_bfe_log_to_json marshal log none = marshal (object_of log default_output_fields)
  convert_bfe_log_to_json marshal log (some set) = marshal (object_of log set)
