-- ===== src/Fields.antt =====
-- reader_modules/mod_fields/field_registry.go: the registry of output fields and the extraction of a
-- field's value from a record.
pub mod Types
pub mod Log
pub mod Value
pub mod Entry
pub mod Extractors
pub mod Table
pub mod Registry
pub mod Names
pub mod Sound
