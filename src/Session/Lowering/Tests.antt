-- ===== src/Session/Lowering/Tests.antt =====
-- An index on a column that is a CLOB, of a session that may leave such an index out.
use postgres_mapepire_proxy.Ddl.ColumnTypes.{mark_at}
use postgres_mapepire_proxy.Ddl.CreateTable.{optional}
use postgres_mapepire_proxy.Ddl.ForeignKeys.{word_space}
use postgres_mapepire_proxy.Ddl.Names.{
  ends_with_quote, last_two, name_at, name_parts, normalize_identifier, normalize_upper,
  qualified_from, qualified_upper, quoted_name, relation_at, second_name,
  split_qualified_identifier,
}
use postgres_mapepire_proxy.Ddl.Registry.{get}
use postgres_mapepire_proxy.Ddl.TypeRegistry.{get_column_type, type_key}
use postgres_mapepire_proxy.Prelude.{refl, [], ◌∷◌, none, false, true, Text, codes, text_eq}
use postgres_mapepire_proxy.Session.Execute.Control.{same_identifier}
use postgres_mapepire_proxy.Session.Lowering.{Setting, acknowledged, lower_sql, lower_decided}
use postgres_mapepire_proxy.Session.Lowering.Decide.{
  column_types, decide, decide_index, find_column, live_types, registered_types,
}
use postgres_mapepire_proxy.Sql.Identifier.{without_last}
use postgres_mapepire_proxy.Sql.LobIndex.{
  PgSimpleIndex, skip_index, closed_body, decide_lob_index, is_lob_type, key_column, key_columns,
  lob_columns, lob_rest, parse_simple_create_index, split_top_level, top_level_from,
}
use postgres_mapepire_proxy.Sql.Text.{
  is_space, keyword, lower, spaces, trim, trim_end, trim_start, undouble, upper,
}
use postgres_mapepire_proxy.Prelude.Results.{ok, err}
use postgres_mapepire_proxy.Session.Lowering.Laws.{IsJustified, lower_sql-IsJustified}
use postgres_mapepire_proxy.Session.Lowering.Replacement.{Live}
use postgres_mapepire_proxy.Session.State.{ddl}

-- The table has a CLOB, and the session has created nothing.
abbrev live : Live
live = record {
  columns = λ schema table.
      ok (record { name = codes "DOC"; system_name = none; data_type = codes "CLOB(1M)" } ∷ []);
  probe = λ sql. ok [];
  generate = λ sql. err (codes "SQL0204");
  generated = err (codes "SQL0204");
}

abbrev setting : Setting
setting = record {
  classify = λ sql. ddl;
  options = record {
    uppercase_identifiers = false;
    information_schema_rewrite = true;
    pg_catalog_compat = true;
    allow_multi_statement = false;
    max_rows = 0;
    default_varchar_length = 1024;
  };
  policy = skip_index;
  current_schema = codes "APP";
  types = record { entries = []; snapshot = none };
  tables = record { entries = []; snapshot = none };
}

abbrev by_doc : Text
by_doc = codes "create index i on t (doc)"

abbrev index : PgSimpleIndex
index = record {
  original = by_doc;
  unique = false;
  index_schema = none;
  index_name = codes "I";
  table_schema = none;
  table_name = codes "T";
  columns = codes "DOC" ∷ [];
}

lower_sql-IsJustified_example : IsJustified live setting by_doc (acknowledged index)
unfolding closed_body column_types decide decide_index decide_lob_index ends_with_quote find_column
    get get_column_type is_lob_type is_space key_column key_columns keyword last_two live_types
    lob_columns lob_rest lower lower_decided mark_at name_at name_parts normalize_identifier
    normalize_upper optional parse_simple_create_index qualified_from qualified_upper quoted_name
    registered_types relation_at same_identifier second_name spaces split_qualified_identifier
    split_top_level text_eq top_level_from trim trim_end trim_start type_key undouble upper
    without_last word_space lower_sql
lower_sql-IsJustified_example = lower_sql-IsJustified live setting by_doc (acknowledged index) refl
