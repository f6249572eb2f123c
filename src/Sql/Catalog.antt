-- ===== src/Sql/Catalog.antt =====
-- sql/catalog.ts: the rows of pg_type that the proxy answers itself.
pub mod Laws
use postgres_mapepire_proxy.Prelude.{
  ℕ, suc, List, [], ◌∷◌, ◌++◌, Bool, not, ◌&&◌, ◌||◌, if◌then◌else◌, Option, none, some, Text,
  codes, map, length, text_eq,
}
use postgres_mapepire_proxy.Sql.Text.{trim, collapse, decimal}
use postgres_mapepire_proxy.Sql.Regex.{Regex, ◌~◌, ◌<|>◌, boundary, test}
use postgres_mapepire_proxy.Sql.Regex.Classes.{text, word, maybe, blanks, spaces1, whole}
use postgres_mapepire_proxy.Sql.Environment.{
  Field, Value, text_value, number_value, any_length, SyntheticResult,
}
use postgres_mapepire_proxy.Wire.Oids.{
  oid, Size, fixed, variable, PgType, starts_with, synthetic_pg_types,
}

abbrev pub field : Text → ℕ → Size → Field
field name type_oid size = record { name = name; type_oid = type_oid; size = size }

-- `\bname\s+as\s+alias\b`
abbrev pub named_as : Text → Text → Regex
named_as name alias =
    boundary ~ word name ~ spaces1 ~ word (codes "as") ~ spaces1 ~ word alias ~ boundary

-- `\b(?:pg_catalog\.)?pg_type\b`
abbrev pub reads_types : Text → Bool
reads_types s =
    test (boundary ~ maybe (word (codes "pg_catalog.")) ~ word (codes "pg_type") ~ boundary) s

-- The probe of psycopg for one type of an extension.
unfoldable pub is_type_probe : Text → Bool
is_type_probe s =
    reads_types s
    && test (named_as (codes "typname") (codes "name")) s
    && test (named_as (codes "typarray") (codes "array_oid")) s
    && test
        (boundary ~ word (codes "to_regtype") ~ blanks ~ text (codes "(")
          <|> boundary ~ text (codes "::") ~ blanks ~ word (codes "regtype") ~ boundary)
        s

-- category(name)
unfoldable pub category : Text → Text
category name =
    if starts_with (codes "int") name
      || starts_with (codes "float") name
      || text_eq name (codes "numeric")
    then codes "N"
    else if text_eq name (codes "date")
        || text_eq name (codes "time")
        || text_eq name (codes "timestamp")
    then codes "D"
    else if text_eq name (codes "bool")
    then codes "B"
    else if text_eq name (codes "bytea")
    then codes "U"
    else codes "S"

abbrev pub length_value : Size → Value
length_value (fixed n) = number_value n
length_value variable = any_length

unfoldable pub type_row : PgType → List Value
type_row t =
    number_value t.oid
    ∷ text_value t.name
    ∷ length_value t.size
    ∷ text_value (codes "b")
    ∷ text_value (category t.name)
    ∷ []

-- No row: there are no extensions.
unfoldable pub no_extension : SyntheticResult
no_extension = record {
  fields =
      field (codes "name") oid.text variable
      ∷ field (codes "oid") oid.oid (fixed 4)
      ∷ field (codes "array_oid") oid.oid (fixed 4)
      ∷ field (codes "regtype") oid.text variable
      ∷ field (codes "delimiter") oid.char (fixed 1)
      ∷ [];
  rows = [];
  tag = codes "SELECT 0";
}

unfoldable pub all_types : SyntheticResult
all_types = record {
  fields =
      field (codes "oid") oid.oid (fixed 4)
      ∷ field (codes "typname") oid.text variable
      ∷ field (codes "typlen") oid.int2 (fixed 2)
      ∷ field (codes "typtype") oid.char (fixed 1)
      ∷ field (codes "typcategory") oid.char (fixed 1)
      ∷ [];
  rows = map type_row synthetic_pg_types;
  tag = codes "SELECT " ++ decimal (length synthetic_pg_types);
}

-- syntheticCatalog(sql)
unfoldable pub synthetic_catalog : Text → Option SyntheticResult
synthetic_catalog sql =
    let s = trim (collapse sql) in
    if is_type_probe s
    then some no_extension
    else if reads_types s && not (test (whole (codes "join")) s)
    then some all_types
    else none
