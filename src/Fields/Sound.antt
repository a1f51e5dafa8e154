-- ===== src/Fields/Sound.antt =====
-- What `extract` of reader_modules/mod_fields/field_registry.go returns: for each registered field a
-- value of its declared type, with a zero flag that is right.
mod Rules
mod Request
mod Response
mod Observability
mod Entries
use Rules.{IsSound}
use Entries.{all_entries-IsSound}
use mathlib.Core.List.{foldl}
use log_reader.Prelude.{
  String, ◌≡◌, refl, true, List, [], ◌∷◌, some, none, AllValues, All, lookup, insert-AllValues,
  lookup-AllValues, Option-cases, inl, inr,
}
use log_reader.Fields.Types.{FieldType}
use log_reader.Fields.Log.{BfeLog}
use log_reader.Fields.Value.{nil, type_of, is_zero_value}
use log_reader.Fields.Entry.{FieldEntry}
use log_reader.Fields.Table.{all_entries}
use log_reader.Fields.Registry.{
  FieldRegistry, empty_registry, register_field, register_all_fields, extract,
}

foldl-AllValues :
    (es : List FieldEntry) (reg : FieldRegistry)
    → All IsSound es
    → AllValues IsSound reg.fields
    → AllValues IsSound (foldl register_field reg es).fields
unfolding register_field
foldl-AllValues [] reg h k = k
foldl-AllValues (e ∷ es) reg h k =
    foldl-AllValues es (register_field reg e) h.1
      (insert-AllValues IsSound e.def.name e reg.fields h.0 k)

register_all_fields-AllValues :
    (host : String) → AllValues IsSound (register_all_fields host).fields
unfolding register_all_fields
register_all_fields-AllValues host =
    foldl-AllValues (all_entries host) empty_registry (all_entries-IsSound host) tt

-- For every host, record and registered field, the value that `extract` returns has the type that
-- the field declares, and the flag beside it is set exactly when that value is the zero value of its
-- type.
pub extract-typed :
    (host name : String) (log : BfeLog) (e : FieldEntry)
    → lookup name (register_all_fields host).fields ≡ some e
    → (type_of (extract (register_all_fields host) name log).0 ≡ some e.def.typ)
      × ((extract (register_all_fields host) name log).1
          ≡ is_zero_value (extract (register_all_fields host) name log).0)
unfolding extract
extract-typed host name log e found =
    rw (found, extract)
      (lookup-AllValues IsSound name _ (register_all_fields-AllValues host) found log)

-- A name that no field is registered under gives `nil`, flagged zero.
pub extract_unknown :
    (reg : FieldRegistry) (name : String) (log : BfeLog)
    → lookup name reg.fields ≡ none
    → extract reg name log ≡ (nil, true)
unfolding extract
extract_unknown reg name log h = rw (h, extract)
