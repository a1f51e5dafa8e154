-- ===== src/Tests/Fields.antt =====
-- The theorems on reader_modules/mod_fields at concrete records.
use log_reader.Prelude.{◌≡◌, refl, true, false, some}
use log_reader.Fields.Value.{type_of, is_zero_value}
use log_reader.Fields.Registry.{register_all_fields, extract}
use log_reader.Fields.Types.{FieldType}
use log_reader.Fields.Entry.{FieldEntry, string_field}
use log_reader.Fields.Sound.{extract-typed}
use log_reader.Fields.Names.{contains}
use log_reader.Tests.Samples.{sample_log}

abbrev method_entry : FieldEntry
unfolding string_field
method_entry = string_field "method" true true (λ r. r.method)

extract-typed_example :
    (type_of (extract (register_all_fields "h1") "method" sample_log).0 ≡ some FieldType.string)
    × ((extract (register_all_fields "h1") "method" sample_log).1
        ≡ is_zero_value (extract (register_all_fields "h1") "method" sample_log).0)
unfolding register_all_fields string_field
extract-typed_example = extract-typed "h1" "method" sample_log method_entry refl

-- Only the address of either kind is a field.
client_ip6_test :
    (contains "client_ip6" (register_all_fields "h1").all_names ≡ false)
    × (contains "client_ip" (register_all_fields "h1").all_names ≡ true)
unfolding register_all_fields
client_ip6_test = (refl, refl)
