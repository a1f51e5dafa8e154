-- ===== src/Fields/Types.antt =====
-- The types of output fields, `FieldDef.Type` of reader_modules/mod_fields/field_registry.go. The
-- source writes them as texts: "string", "uint64", "uint32", "int64", "bool", "object", "[]object"
-- (`objects`) and "[]string" (`strings`).
use log_reader.Prelude.{String, Bool}

pub data FieldType : Type 0 where
  string uint64 uint32 int64 bool object objects strings : FieldType

pub record FieldDef : Type 0 where
  pub name : String
  pub typ : FieldType
  pub required : Bool
  pub default : Bool
