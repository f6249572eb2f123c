-- ===== src/Session/Rows/Tests.antt =====
-- An index whose columns only SYSKEYS tells.
use postgres_mapepire_proxy.Ddl.Registry.{get, put}
use postgres_mapepire_proxy.Prelude.{
  ◌≡◌, refl, [], ◌∷◌, none, false, List, Text, codes, map, text_eq,
}
use postgres_mapepire_proxy.Session.Rows.{
  case_insensitive_value, filter, names_from, nullable_string, number_or_zero, same_in_capitals,
  split_catalog_column_names, string_or,
}
use postgres_mapepire_proxy.Session.Rows.Indexes.{
  IbmiIndex, map_index_rows, fetch_indexes, by_name, fill_from_keys, fill_from_statistics, index_of,
  insert_key, is_unresolved, keys_by_index, repair_from_keys, repair_from_statistics, sort_keys,
  supplemented, sys_keys, with_columns,
}
use postgres_mapepire_proxy.Sql.Scan.Rewrites.{number_of}
use postgres_mapepire_proxy.Sql.Text.{decimal, is_space, trim, trim_end, trim_start, upper}
use postgres_mapepire_proxy.Prelude.Results.{ok, err}
use postgres_mapepire_proxy.Session.Rows.Indexes.Laws.{Repaired, fetch_indexes-Repaired}
use postgres_mapepire_proxy.Pool.Capabilities.{Row, text, number, null}

-- SYSINDEXES has the index with two keys, and no names of columns.
abbrev found : List Row
found =
    ((codes "INDEX_SCHEMA", text (codes "APP"))
      ∷ (codes "INDEX_NAME", text (codes "IX "))
      ∷ (codes "column_count", number 2)
      ∷ (codes "COLUMN_NAMES", null)
      ∷ [])
    ∷ []

abbrev key : Text → Text → List Row → List Row
key column ordinal rows =
    ((codes "INDEX_SCHEMA", text (codes "APP"))
      ∷ (codes "INDEX_NAME", text (codes "IX"))
      ∷ (codes "COLUMN_NAME", text column)
      ∷ (codes "ORDINAL_POSITION", text ordinal)
      ∷ [])
    ∷ rows

abbrev keys : List Row
keys = key (codes "B") (codes "2") (key (codes "A") (codes "1") [])

abbrev unresolved : IbmiIndex
unresolved = record {
  schema = [];
  table = [];
  index_schema = codes "APP";
  name = codes "IX";
  owner = [];
  unique = false;
  column_count = 2;
  long_comment = none;
  text = none;
  columns = [];
  filter_definition = none;
}

-- The columns come in the order of their ordinals.
found_columns :
    map (λ (i : IbmiIndex). i.columns) (fetch_indexes found (ok keys) (err (codes "SQL0551")))
    ≡ (codes "A" ∷ codes "B" ∷ []) ∷ []
unfolding by_name case_insensitive_value decimal fetch_indexes fill_from_keys fill_from_statistics
    filter get index_of insert_key is_space is_unresolved keys_by_index map_index_rows names_from
    nullable_string number_of number_or_zero put repair_from_keys repair_from_statistics
    same_in_capitals sort_keys split_catalog_column_names string_or supplemented sys_keys text_eq
    trim trim_end trim_start upper with_columns
found_columns = refl

fetch_indexes-Repaired_example :
    Repaired (map_index_rows found) (fetch_indexes found (ok keys) (err (codes "SQL0551")))
unfolding case_insensitive_value decimal filter get index_of is_space map_index_rows names_from
    nullable_string number_of number_or_zero same_in_capitals split_catalog_column_names string_or
    text_eq trim trim_end trim_start upper
fetch_indexes-Repaired_example =
    fetch_indexes-Repaired found (ok keys) (err (codes "SQL0551")) unresolved [] refl
