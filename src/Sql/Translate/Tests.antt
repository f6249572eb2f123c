-- ===== src/Sql/Translate/Tests.antt =====
-- The rewrites on concrete statements.
use postgres_mapepire_proxy.Prelude.{none, refl, [], ◌∷◌, codes, text_eq}
use postgres_mapepire_proxy.Sql.SearchPath.{ends_with}
use postgres_mapepire_proxy.Sql.Identifier.{without_last}
use postgres_mapepire_proxy.Sql.Scan.{
  top_level_keyword_index, keyword_from, marks, chars, definitions_from, split_definition_list,
}
use postgres_mapepire_proxy.Sql.Text.{
  keyword, lower, trim, trim_start, trim_end, cut_semicolons, is_space, undouble,
}
use postgres_mapepire_proxy.Sql.Regex.{
  run, take_one, rounds, between, match_at, search_from, exec, group_from, group_of, text_from,
  onto, replace, replace_all, replace_end, replace_from, replace_here,
}
use postgres_mapepire_proxy.Sql.Regex.Laws.Rewritten.{Rewritten}
use postgres_mapepire_proxy.Sql.Translate.Rewrites.{cast, rewrite_casts}
use postgres_mapepire_proxy.Sql.Translate.Rewrites.Casts.{IsCast, rewrite_casts-Rewritten}
use postgres_mapepire_proxy.Sql.Translate.Returning.{
  Returning, parse_returning, target_words, returning_at, returning_of, target_table, unquote_lower,
  unquoted_lower, alias_of, column_of, parse_returning_expression, parse_returning_list,
}
use postgres_mapepire_proxy.Sql.Translate.Returning.Laws.{
  AreIdentifiers, parse_returning-AreIdentifiers,
}
use postgres_mapepire_proxy.Session.State.{insert}

rewrite_casts-Rewritten_example :
    Rewritten cast IsCast none (codes "select a::int") (rewrite_casts (codes "select a::int"))
rewrite_casts-Rewritten_example = rewrite_casts-Rewritten (codes "select a::int")

abbrev returned_columns : Returning
returned_columns = record {
  kind = insert;
  table = codes "t";
  columns =
      record { column = codes "a"; field_name = codes "b" }
      ∷ record { column = codes "\"C d\""; field_name = codes "C d" }
      ∷ [];
}

parse_returning-AreIdentifiers_example : AreIdentifiers returned_columns.columns
unfolding parse_returning target_words returning_at returning_of target_table unquote_lower
    unquoted_lower alias_of column_of parse_returning_expression parse_returning_list
    top_level_keyword_index keyword_from marks chars definitions_from split_definition_list keyword
    lower trim trim_start trim_end cut_semicolons is_space run take_one rounds between match_at
    search_from exec group_from group_of text_from onto replace replace_all replace_end replace_from
    replace_here text_eq ends_with undouble without_last
parse_returning-AreIdentifiers_example =
    parse_returning-AreIdentifiers insert
      (codes "insert into t values (1) returning t.a as B, \"C d\"") returned_columns refl
