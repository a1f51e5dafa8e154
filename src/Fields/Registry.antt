-- ===== src/Fields/Registry.antt =====
-- The registry itself (`FieldRegistry`) of reader_modules/mod_fields/field_registry.go. Its lock is
-- not modelled: the registry is written by `init` only.
use mathlib.Core.List.{foldl}
use log_reader.Prelude.{
  String, Bool, true, false, List, [], ◌∷◌, ◌++◌, none, some, if◌then◌else◌, lookup, insert,
}
use log_reader.Fields.Types.{FieldDef}
use log_reader.Fields.Log.{BfeLog}
use log_reader.Fields.Value.{Value, nil}
use log_reader.Fields.Entry.{
  FieldEntry, plain_field, string_field, uint32_field, uint64_field, int64_field, bool_field,
  strings_field, addr_string_field, addr_bool_field,
}
use log_reader.Fields.Table.{all_entries}

pub record FieldRegistry : Type 0 where
  pub fields : List (String × FieldEntry)
  pub all_names : List String

abbrev pub empty_registry : FieldRegistry
empty_registry = record { fields = []; all_names = [] }

unfoldable pub register_field : FieldRegistry → FieldEntry → FieldRegistry
register_field reg e = record {
  fields = insert e.def.name e reg.fields;
  all_names = reg.all_names ++ (e.def.name ∷ []);
}

unfoldable pub register_all_fields : String → FieldRegistry
unfolding register_field all_entries plain_field string_field uint32_field uint64_field int64_field
    bool_field strings_field addr_string_field addr_bool_field
register_all_fields host = foldl register_field empty_registry (all_entries host)

-- The names that pass a test of their definitions, in the order of registration.
unfoldable pub select : (FieldDef → Bool) → List (String × FieldEntry) → List String → List String
select p fields [] = []
select p fields (name ∷ names) =
    let rest = select p fields names in
    elim (lookup name fields) [ none ↦ rest | some e ↦ if p e.def then name ∷ rest else rest ]

unfoldable pub default_fields : FieldRegistry → List String
unfolding select
default_fields reg = select (λ d. d.default) reg.fields reg.all_names

unfoldable pub required_fields : FieldRegistry → List String
unfolding select
required_fields reg = select (λ d. d.required) reg.fields reg.all_names

abbrev defs_of : List (String × FieldEntry) → List String → List FieldDef
defs_of fields [] = []
defs_of fields (name ∷ names) =
    let rest = defs_of fields names in
    elim (lookup name fields) [ none ↦ rest | some e ↦ e.def ∷ rest ]

unfoldable pub all_fields : FieldRegistry → List FieldDef
all_fields reg = defs_of reg.fields reg.all_names

unfoldable pub is_valid_field : FieldRegistry → String → Bool
is_valid_field reg name = elim (lookup name reg.fields) [ none ↦ false | some e ↦ true ]

-- The value of a field and whether it is zero.
unfoldable pub extract : FieldRegistry → String → BfeLog → Value × Bool
extract reg name log = elim (lookup name reg.fields) [
  | none ↦ (nil, true)
  | some e ↦ (e.extract log, e.is_zero (e.extract log))
]
