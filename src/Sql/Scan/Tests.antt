-- ===== src/Sql/Scan/Tests.antt =====
-- The scanners on concrete statements.
use postgres_mapepire_proxy.Prelude.{◌≡◌, refl, [], ◌∷◌, true, false, some, codes}
use postgres_mapepire_proxy.Sql.Text.{
  keyword, lower, trim_start, trim_end, is_space, spaces, decimal,
}
use postgres_mapepire_proxy.Sql.Scan.{
  marks, chars, matching_paren, match_from, top_level_keyword_index, keyword_from,
}
use postgres_mapepire_proxy.Ddl.ColumnTypes.{mark_at}
use postgres_mapepire_proxy.Sql.Scan.Placeholders.{Marked, written, replace_placeholders_lem}
use postgres_mapepire_proxy.Sql.Scan.Rewrites.{
  leading_digits, number_of, placeholders_from, replace_placeholders, index_of_paren, exists_at,
  exists_as_case, rewrite_top_level_exists,
}
use postgres_mapepire_proxy.Sql.Scan.RowSource.{
  is_select, has_top_level_keyword, insertion_at, with_tail, ensure_select_source,
}
use postgres_mapepire_proxy.Sql.Scan.Parens.{nothing, other, group, matching_paren-Balanced}

-- The parenthesis in the literal is passed over.
matching_paren-Balanced_example : matching_paren (codes "f('(',(1))") 1 ≡ some 9
unfolding marks
matching_paren-Balanced_example =
    matching_paren-Balanced (codes "f('(',(1))") 1
      ((false, 39)
        ∷ (false, 40)
        ∷ (false, 39)
        ∷ (true, 44)
        ∷ (true, 40)
        ∷ (true, 49)
        ∷ (true, 41)
        ∷ [])
      [] refl
      (other refl (other refl (other refl (other refl (group (other refl nothing) nothing)))))

keyword_runs : top_level_keyword_index (codes "select (a from b) from c") (codes "from") ≡ some 18
unfolding top_level_keyword_index marks keyword_from keyword lower chars
keyword_runs = refl

-- The FROM of the subquery is not one of the statement.
row_source_runs :
    ensure_select_source (codes " select (select 1 from t)  Where a = 1")
    ≡ codes " select (select 1 from t) FROM SYSIBM.SYSDUMMY1 Where a = 1"
unfolding ensure_select_source is_select has_top_level_keyword insertion_at with_tail
    top_level_keyword_index marks keyword_from keyword lower chars trim_start trim_end is_space
row_source_runs = refl

row_source_at_end :
    ensure_select_source (codes "select 1 ") ≡ codes "select 1 FROM SYSIBM.SYSDUMMY1"
unfolding ensure_select_source is_select has_top_level_keyword insertion_at with_tail
    top_level_keyword_index marks keyword_from keyword lower chars trim_start trim_end is_space
row_source_at_end = refl

row_source_present : ensure_select_source (codes "select 1 from t") ≡ codes "select 1 from t"
unfolding ensure_select_source is_select has_top_level_keyword insertion_at with_tail
    top_level_keyword_index marks keyword_from keyword lower chars trim_start trim_end is_space
row_source_present = refl

placeholders_run :
    replace_placeholders (codes "a = $12 or b = $1$") ≡ (codes "a = ? or b = ?$", 12 ∷ 1 ∷ [])
unfolding replace_placeholders placeholders_from leading_digits number_of
placeholders_run = refl

exists_run :
    rewrite_top_level_exists (codes "select Exists (select ')' from t) as e")
    ≡ codes "SELECT CASE WHEN EXISTS (select ')' from t) THEN 1 ELSE 0 END as e"
unfolding rewrite_top_level_exists exists_at index_of_paren exists_as_case matching_paren match_from
    marks keyword lower spaces mark_at trim_start is_space
exists_run = refl

-- The second placeholder stands in a literal.
abbrev two_marks : Marked
two_marks = (codes "x ", 12) ∷ (codes ",'", 1) ∷ []

replace_placeholders_lem_example :
    replace_placeholders (written two_marks (codes "'")) ≡ (codes "x ?,'?'", 12 ∷ 1 ∷ [])
unfolding decimal
replace_placeholders_lem_example =
    replace_placeholders_lem two_marks (codes "'")
      ((refl, (refl, tt)), refl, ((refl, (refl, tt)), refl, (refl, tt)))
