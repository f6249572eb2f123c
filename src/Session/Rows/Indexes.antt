-- ===== src/Session/Rows/Indexes.antt =====
-- The rows of fetchIbmiIndexes: the indexes of a table, and the two queries that fill in the columns of
-- those that have none. A query is its rows or the text of its error.
pub mod Laws
use postgres_mapepire_proxy.Prelude.{
  ℕ, ◌==◌, ltb, leb, List, [], ◌∷◌, ◌++◌, Bool, true, false, not, ◌&&◌, ◌||◌, if◌then◌else◌, Option,
  none, some, Text, codes, map, length, text_eq, some_of,
}
use postgres_mapepire_proxy.Prelude.Results.{Result, ok, err}
use postgres_mapepire_proxy.Sql.Text.{upper}
use postgres_mapepire_proxy.Ddl.Registry.{get, put}
use postgres_mapepire_proxy.Pool.Capabilities.{Row}
use postgres_mapepire_proxy.Session.Rows.{
  text_or_at, text_at, nullable_at, number_at, split_catalog_column_names, filter, is_filled,
}

-- IbmiIndexRow
pub record IbmiIndex : Type 0 where
  pub schema : Text
  pub table : Text
  pub index_schema : Text
  pub name : Text
  pub owner : Text
  pub unique : Bool
  pub column_count : ℕ
  pub long_comment : Option Text
  pub text : Option Text
  pub columns : List Text
  pub filter_definition : Option Text

-- `['U', 'V'].includes(…)`
abbrev pub says_unique : Text → Bool
says_unique t = some_of (text_eq t) (codes "U" ∷ codes "V" ∷ [])

unfoldable pub index_of : Row → IbmiIndex
index_of row = record {
  schema = text_at row (codes "TABLE_SCHEMA");
  table = text_at row (codes "TABLE_NAME");
  index_schema = text_at row (codes "INDEX_SCHEMA");
  name = text_at row (codes "INDEX_NAME");
  owner = text_at row (codes "INDEX_OWNER");
  unique = says_unique (map upper (text_or_at row (codes "IS_UNIQUE") (codes "D")));
  column_count = number_at row (codes "COLUMN_COUNT");
  long_comment = nullable_at row (codes "LONG_COMMENT");
  text = nullable_at row (codes "INDEX_TEXT");
  columns = split_catalog_column_names (nullable_at row (codes "COLUMN_NAMES"));
  filter_definition = nullable_at row (codes "SEARCH_CONDITION");
}

-- mapIbmiIndexRows(data)
unfoldable pub map_index_rows : List Row → List IbmiIndex
map_index_rows rows = filter (λ i. is_filled i.name) (map index_of rows)

-- `${indexSchema.toUpperCase()}\\u0000${indexName.toUpperCase()}`
abbrev pub index_key : Text → Text → Text
index_key schema name = map upper schema ++ 0 ∷ map upper name

-- Whether a row has keys, and none of them is known.
unfoldable pub is_unresolved : IbmiIndex → Bool
is_unresolved i = ltb 0 i.column_count && elim i.columns [ [] ↦ true | c ∷ cs ↦ false ]

-- A key column with its ordinal: the entries of byIndex.
abbrev pub KeyColumns : Type 0
KeyColumns = List (ℕ × Text)

-- `const list = byIndex.get(key) ?? []`, with a further column
abbrev pub grown : Option KeyColumns → ℕ × Text → KeyColumns
grown none column = column ∷ []
grown (some columns) column = columns ++ column ∷ []

-- The loop that fills byIndex.
unfoldable pub keys_by_index : List Row → List (Text × KeyColumns) → List (Text × KeyColumns)
keys_by_index [] found = found
keys_by_index (row ∷ rows) found =
    let schema = text_at row (codes "INDEX_SCHEMA") in
    let name = text_at row (codes "INDEX_NAME") in
    let column = text_at row (codes "COLUMN_NAME") in
    let ordinal = number_at row (codes "ORDINAL_POSITION") in
    let key = index_key schema name in
    let more = keys_by_index rows (put key (grown (get key found) (ordinal, column)) found) in
    let less = keys_by_index rows found in
    if is_filled schema && is_filled name && is_filled column && ltb 0 ordinal then more else less

-- `keyRows.sort((a, b) => a.ordinal - b.ordinal)`, which keeps the order of equal ordinals
unfoldable pub insert_key : ℕ × Text → KeyColumns → KeyColumns
insert_key key [] = key ∷ []
insert_key key (k ∷ keys) =
    let later = k ∷ insert_key key keys in if leb key.0 k.0 then key ∷ k ∷ keys else later

unfoldable pub sort_keys : KeyColumns → KeyColumns
sort_keys [] = []
sort_keys (key ∷ keys) = insert_key key (sort_keys keys)

-- A row with the columns that were found for it, where it is unresolved and there are some.
unfoldable pub with_columns : IbmiIndex → List Text → Option Text → IbmiIndex
with_columns i [] condition = i
with_columns i (c ∷ columns) condition =
    if is_unresolved i then record i { columns = c ∷ columns; filter_definition = condition } else i

-- The columns of SYSKEYS for an index.
unfoldable pub sys_keys : List (Text × KeyColumns) → IbmiIndex → List Text
sys_keys found i = elim (get (index_key i.index_schema i.name) found) [
  | none ↦ []
  | some keys ↦ map (λ (ordinal, column). column) (sort_keys keys)
]

-- The repair of the rows from SYSKEYS; an error leaves them.
unfoldable pub repair_from_keys : Result Text (List Row) → List IbmiIndex → List IbmiIndex
repair_from_keys (err e) rows = rows
repair_from_keys (ok keys) rows =
    let found = keys_by_index keys [] in
    map (λ i. with_columns i (sys_keys found i) i.filter_definition) rows

-- byName: of two rows with one key the later one stands.
unfoldable pub by_name : List IbmiIndex → List (Text × IbmiIndex) → List (Text × IbmiIndex)
by_name [] found = found
by_name (i ∷ rows) found = by_name rows (put (index_key i.index_schema i.name) i found)

-- `row.filterDefinition ?? supplemental.filterDefinition`
abbrev pub or_else : Option Text → Option Text → Option Text
or_else none other = other
or_else (some t) other = some t

unfoldable pub supplemented : List (Text × IbmiIndex) → IbmiIndex → IbmiIndex
supplemented found i = elim (get (index_key i.index_schema i.name) found) [
  | none ↦ i
  | some other ↦ with_columns i other.columns (or_else i.filter_definition other.filter_definition)
]

-- The rows from SYSTABLEINDEXSTAT: all of them where there was no row, or else the missing columns.
unfoldable pub repair_from_statistics : Result Text (List Row) → List IbmiIndex → List IbmiIndex
repair_from_statistics (err e) rows = rows
repair_from_statistics (ok native) [] = map_index_rows native
repair_from_statistics (ok native) (i ∷ rows) =
    map (supplemented (by_name (map_index_rows native) [])) (i ∷ rows)

-- Each query is made only where it is needed.
unfoldable pub fill_from_keys : Result Text (List Row) → List IbmiIndex → List IbmiIndex
fill_from_keys keys rows = if some_of is_unresolved rows then repair_from_keys keys rows else rows

unfoldable pub fill_from_statistics : Result Text (List Row) → List IbmiIndex → List IbmiIndex
fill_from_statistics native [] = repair_from_statistics native []
fill_from_statistics native (i ∷ rows) =
    if some_of is_unresolved (i ∷ rows) then repair_from_statistics native (i ∷ rows) else i ∷ rows

-- fetchIbmiIndexes, from the rows of its query and the answers of the two others
unfoldable pub fetch_indexes :
    List Row → Result Text (List Row) → Result Text (List Row) → List IbmiIndex
fetch_indexes found keys native =
    fill_from_statistics native (fill_from_keys keys (map_index_rows found))
