-- ===== src/Session/Rows/Columns.antt =====
-- The rows of fetchIbmiColumns.
use postgres_mapepire_proxy.Prelude.{ℕ, ltb, List, Bool, ◌&&◌, Option, Text, codes, map, text_eq}
use postgres_mapepire_proxy.Sql.Text.{upper}
use postgres_mapepire_proxy.Pool.Capabilities.{Row}
use postgres_mapepire_proxy.Session.Rows.{
  case_insensitive_value, text_or_at, text_at, nullable_at, nullable_number, number_at, filter,
  is_filled,
}

-- IbmiColumnRow
pub record IbmiColumn : Type 0 where
  pub schema : Text
  pub table : Text
  pub name : Text
  pub system_name : Option Text
  pub ordinal : ℕ
  pub data_type : Text
  pub size : Option ℕ
  pub numeric_scale : Option ℕ
  pub numeric_precision : Option ℕ
  pub nullable : Bool
  pub long_comment : Option Text
  pub text : Option Text
  pub has_default : Text
  pub default_value : Option Text
  pub char_max_length : Option ℕ
  pub datetime_precision : Option ℕ
  pub identity : Bool
  pub identity_generation : Option Text
  pub expression : Option Text

abbrev nullable_number_at : Row → Text → Option ℕ
nullable_number_at row name = nullable_number (case_insensitive_value row name)

-- The column of one row.
unfoldable pub column_of : Row → IbmiColumn
column_of row = record {
  schema = text_at row (codes "TABLE_SCHEMA");
  table = text_at row (codes "TABLE_NAME");
  name = text_at row (codes "COLUMN_NAME");
  system_name = nullable_at row (codes "SYSTEM_COLUMN_NAME");
  ordinal = number_at row (codes "ORDINAL_POSITION");
  data_type = text_at row (codes "DATA_TYPE");
  size = nullable_number_at row (codes "LENGTH");
  numeric_scale = nullable_number_at row (codes "NUMERIC_SCALE");
  numeric_precision = nullable_number_at row (codes "NUMERIC_PRECISION");
  nullable = text_eq (map upper (text_or_at row (codes "IS_NULLABLE") (codes "Y"))) (codes "Y");
  long_comment = nullable_at row (codes "LONG_COMMENT");
  text = nullable_at row (codes "COLUMN_TEXT");
  has_default = text_or_at row (codes "HAS_DEFAULT") (codes "N");
  default_value = nullable_at row (codes "COLUMN_DEFAULT");
  char_max_length = nullable_number_at row (codes "CHARACTER_MAXIMUM_LENGTH");
  datetime_precision = nullable_number_at row (codes "DATETIME_PRECISION");
  identity = text_eq (map upper (text_or_at row (codes "IS_IDENTITY") (codes "NO"))) (codes "YES");
  identity_generation = nullable_at row (codes "IDENTITY_GENERATION");
  expression = nullable_at row (codes "COLUMN_EXPRESSION");
}

-- The columns of fetchIbmiColumns, from the rows of its query.
unfoldable pub columns_of : List Row → List IbmiColumn
columns_of rows = filter (λ c. is_filled c.name && ltb 0 c.ordinal) (map column_of rows)
