-- ===== src/Sql/SearchPath/Tests.antt =====
-- Search paths on concrete texts.
use postgres_mapepire_proxy.Prelude.{◌≡◌, refl, [], ◌∷◌, false, some, codes, map, text_eq}
use postgres_mapepire_proxy.Sql.Text.{
  keyword, lower, upper, double, undouble, trim, trim_end, trim_start, is_space,
}
use postgres_mapepire_proxy.Sql.Identifier.{quote_identifier, without_last}
use postgres_mapepire_proxy.Sql.Scan.{joined}
use postgres_mapepire_proxy.Sql.SearchPath.{
  is_word, is_temp, is_plain, ends_with, unquoted, unquote_identifier, path_from, split_search_path,
  first_schema, without_token, select_effective_search_path,
}
use postgres_mapepire_proxy.Ddl.ColumnTypes.{mark_at}
use postgres_mapepire_proxy.Sql.SearchPath.Settings.{
  quoted_value, setting_value, path_setting, first_place, option_value, whole_value,
  first_selection, parse_startup_search_path,
}
use postgres_mapepire_proxy.Sql.SearchPath.Laws.{select-quoted}

select-quoted_example :
    let path = map quote_identifier (codes "My, Schema" ∷ codes "public" ∷ []) in
    select_effective_search_path (joined path) false
    ≡ some (record {
      schema = codes "My, Schema";
      requested = path;
      ignored = without_token (quote_identifier (codes "My, Schema")) path;
      is_local = false;
      reset = false;
    })
unfolding is_word keyword quote_identifier lower double
select-quoted_example = select-quoted b'M' (codes "y, Schema") (codes "public" ∷ []) false refl

-- The user's own schema is passed over; the other options are not read.
options_run :
    parse_startup_search_path (codes "-c geqo=off -csearch_path='$user,app'")
    ≡ some (record {
      schema = codes "APP";
      requested = codes "$user" ∷ codes "app" ∷ [];
      ignored = codes "$user" ∷ [];
      is_local = false;
      reset = false;
    })
unfolding parse_startup_search_path first_selection option_value first_place path_setting
    setting_value quoted_value whole_value select_effective_search_path first_schema
    unquote_identifier unquoted split_search_path path_from without_token is_word is_temp is_plain
    ends_with trim keyword lower mark_at trim_end trim_start is_space undouble without_last upper
    text_eq
options_run = refl
