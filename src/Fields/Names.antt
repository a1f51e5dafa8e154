-- ===== src/Fields/Names.antt =====
-- Tests on lists of names, of the fields in reader_modules/mod_fields/field_registry.go and of modules.
use log_reader.Prelude.{String, Bool, true, false, not, ◌&&◌, ◌||◌, List, [], ◌∷◌, str_eq}

abbrev pub contains : String → List String → Bool
contains name [] = false
contains name (x ∷ xs) = str_eq x name || contains name xs

abbrev pub distinct : List String → Bool
distinct [] = true
distinct (x ∷ xs) = not (contains x xs) && distinct xs
