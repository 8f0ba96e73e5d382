-- ===== src/Query/Schema.antt =====
-- crates/tradar-query/src/types.rs: what a connection reports of its tables, and the result of a query.
use tradar.Base.{ℕ, Bool, false, List, [], Option, none, Text}

-- `i64`
pub data ℤ : Type 0 where
  pos negsuc : ℕ → ℤ

pub record ForeignKeyRef : Type 0 where
  pub table : Text
  pub column : Text

pub record ColumnInfo : Type 0 where
  pub name : Text
  pub type_name : Text
  pub primary_key : Bool
  pub foreign_key : Option ForeignKeyRef
  pub indexed : Bool

-- `ColumnInfo::new`
unfoldable pub column_new : Text → Text → ColumnInfo
column_new name type_name = record {
  name = name;
  type_name = type_name;
  primary_key = false;
  foreign_key = none;
  indexed = false;
}

pub record SchemaInfo : Type 0 where
  pub name : Text
  pub columns : List ColumnInfo
  pub kind : Option Text
  pub ttl : Option ℤ
  pub schema : Option Text
  pub object_kind : Option Text

-- `SchemaInfo::new`
unfoldable pub schema_new : Text → SchemaInfo
schema_new name = record {
  name = name;
  columns = [];
  kind = none;
  ttl = none;
  schema = none;
  object_kind = none;
}

-- `QueryResult`; the documents are values of `serde_json`.
pub data QueryResult (J : Type 0) : Type 0 where
  table : (columns : List Text) (rows : List (List Text)) (truncated : Bool) → QueryResult J
  documents : (items : List J) (truncated : Bool) → QueryResult J
  affected : (rows : ℕ) → QueryResult J
