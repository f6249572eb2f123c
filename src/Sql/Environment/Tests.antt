-- ===== src/Sql/Environment/Tests.antt =====
-- Settings on concrete statements.
use postgres_mapepire_proxy.Prelude.{refl, [], inl, codes}
use postgres_mapepire_proxy.Sql.Text.{
  trim, trim_start, trim_end, is_space, lower, collapse, collapse_from,
}
use postgres_mapepire_proxy.Sql.SearchPath.{cut_last_semicolon}
use postgres_mapepire_proxy.Sql.Regex.{test, exec, search_from, match_at, run, take_one, rounds}
use postgres_mapepire_proxy.Sql.Environment.{
  SyntheticResult, number_value, one_row, max_identifier_length, environment_query,
}
use postgres_mapepire_proxy.Sql.Environment.Laws.{IsAnswer}
use postgres_mapepire_proxy.Sql.Catalog.Laws.{resolved-IsAnswer}
use postgres_mapepire_proxy.Wire.Oids.{oid, variable}

abbrev longest_name : SyntheticResult
longest_name = one_row (codes "max_identifier_length") oid.text variable (number_value 128)

resolved-IsAnswer_example : IsAnswer longest_name
unfolding environment_query max_identifier_length trim trim_start trim_end is_space lower collapse
    collapse_from cut_last_semicolon test exec search_from match_at run take_one rounds
resolved-IsAnswer_example =
    resolved-IsAnswer (codes " Show  max_identifier_length;") [] (codes "APP") (codes "14.0")
      longest_name (inl refl)
