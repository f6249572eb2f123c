-- ===== src/Wire/Oids.antt =====
-- postgres/oids.ts: the type numbers, and the PostgreSQL type of a Db2 type name.
pub mod Catalogue
mod Tests
use postgres_mapepire_proxy.Prelude.{
  ℕ, ◌==◌, List, [], ◌∷◌, ◌++◌, Bool, true, false, ◌&&◌, ◌||◌, if◌then◌else◌, String, Text, codes,
  map, text_eq, some_of,
}
use postgres_mapepire_proxy.Sql.Text.{trim, upper}

-- OID
pub record OidTable : Type 0 where
  pub bool : ℕ
  pub bytea : ℕ
  pub char : ℕ
  pub name : ℕ
  pub int8 : ℕ
  pub int2 : ℕ
  pub int2vector : ℕ
  pub int4 : ℕ
  pub text : ℕ
  pub oid : ℕ
  pub oidvector : ℕ
  pub json : ℕ
  pub float4 : ℕ
  pub float8 : ℕ
  pub bpchar : ℕ
  pub varchar : ℕ
  pub date : ℕ
  pub time : ℕ
  pub timestamp : ℕ
  pub numeric : ℕ
  pub bool_array : ℕ
  pub name_array : ℕ
  pub int2_array : ℕ
  pub oid_array : ℕ
  pub text_array : ℕ

abbrev pub oid : OidTable
oid = record {
  bool = 16;
  bytea = 17;
  char = 18;
  name = 19;
  int8 = 20;
  int2 = 21;
  int2vector = 22;
  int4 = 23;
  text = 25;
  oid = 26;
  oidvector = 30;
  json = 114;
  float4 = 700;
  float8 = 701;
  bpchar = 1042;
  varchar = 1043;
  date = 1082;
  time = 1083;
  timestamp = 1114;
  numeric = 1700;
  bool_array = 1000;
  name_array = 1003;
  int2_array = 1005;
  oid_array = 1028;
  text_array = 1009;
}

-- PgType, with the sizes above zero and the -1 of a type of any length.
pub data Size : Type 0 where
  fixed : ℕ → Size
  variable : Size

pub record PgType : Type 0 where
  pub oid : ℕ
  pub name : Text
  pub size : Size

abbrev pub pg_type : ℕ → String → Size → PgType
pg_type oid name size = record { oid = oid; name = codes name; size = size }

-- t.startsWith(p), of texts as they are
unfoldable pub starts_with : Text → Text → Bool
starts_with [] t = true
starts_with (p ∷ ps) [] = false
starts_with (p ∷ ps) (c ∷ t) = p == c && starts_with ps t

-- t.includes(p)
unfoldable pub includes : Text → Text → Bool
includes p [] = starts_with p []
includes p (c ∷ t) = starts_with p (c ∷ t) || includes p t

-- `x => t === x || t.startsWith(`${x}(`)`
abbrev pub named_or_called : Text → Text → Bool
named_or_called t x = text_eq t x || starts_with (x ++ b'(' ∷ []) t

-- The tests of db2TypeToPg in their order, on the name in capitals.
unfoldable pub type_of_name : Text → PgType
type_of_name t =
    if text_eq t (codes "BOOLEAN")
    then pg_type oid.bool "bool" (fixed 1)
    else if text_eq t (codes "SMALLINT")
    then pg_type oid.int2 "int2" (fixed 2)
    else if text_eq t (codes "INTEGER") || text_eq t (codes "INT")
    then pg_type oid.int4 "int4" (fixed 4)
    else if text_eq t (codes "BIGINT")
    then pg_type oid.int8 "int8" (fixed 8)
    else if some_of (named_or_called t) (codes "DECIMAL" ∷ codes "NUMERIC" ∷ codes "DECFLOAT" ∷ [])
    then pg_type oid.numeric "numeric" variable
    else if text_eq t (codes "REAL")
    then pg_type oid.float4 "float4" (fixed 4)
    else if some_of (text_eq t) (codes "FLOAT" ∷ codes "DOUBLE" ∷ codes "DOUBLE PRECISION" ∷ [])
    then pg_type oid.float8 "float8" (fixed 8)
    else if text_eq t (codes "DATE")
    then pg_type oid.date "date" (fixed 4)
    else if text_eq t (codes "TIME")
    then pg_type oid.time "time" (fixed 8)
    else if starts_with (codes "TIMESTAMP") t
    then pg_type oid.timestamp "timestamp" (fixed 8)
    else if some_of (λ x. includes x t)
        (codes "BLOB" ∷ codes "BINARY" ∷ codes "VARBINARY" ∷ codes "FOR BIT DATA" ∷ [])
    then pg_type oid.bytea "bytea" variable
    else if starts_with (codes "CHAR") t
    then pg_type oid.bpchar "bpchar" variable
    else if includes (codes "CLOB") t || includes (codes "GRAPHIC") t || includes (codes "XML") t
    then pg_type oid.text "text" variable
    else if includes (codes "VARCHAR") t
    then pg_type oid.varchar "varchar" variable
    else pg_type oid.text "text" variable

-- db2TypeToPg(type), whose precision is not read
unfoldable pub db2_type_to_pg : Text → PgType
db2_type_to_pg type_name = type_of_name (trim (map upper type_name))

-- syntheticPgTypes
abbrev pub synthetic_pg_types : List PgType
synthetic_pg_types =
    pg_type 16 "bool" (fixed 1)
    ∷ pg_type 17 "bytea" variable
    ∷ pg_type 18 "char" (fixed 1)
    ∷ pg_type 20 "int8" (fixed 8)
    ∷ pg_type 21 "int2" (fixed 2)
    ∷ pg_type 22 "int2vector" variable
    ∷ pg_type 23 "int4" (fixed 4)
    ∷ pg_type 25 "text" variable
    ∷ pg_type 26 "oid" (fixed 4)
    ∷ pg_type 30 "oidvector" variable
    ∷ pg_type 700 "float4" (fixed 4)
    ∷ pg_type 701 "float8" (fixed 8)
    ∷ pg_type 1042 "bpchar" variable
    ∷ pg_type 1043 "varchar" variable
    ∷ pg_type 1082 "date" (fixed 4)
    ∷ pg_type 1083 "time" (fixed 8)
    ∷ pg_type 1114 "timestamp" (fixed 8)
    ∷ pg_type 1700 "numeric" variable
    ∷ []
