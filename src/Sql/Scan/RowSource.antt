-- ===== src/Sql/Scan/RowSource.antt =====
-- ensureDb2SelectSource of sql/translator.ts: the row source of a SELECT that has no FROM.
use postgres_mapepire_proxy.Prelude.{
  ℕ, List, [], ◌∷◌, ◌++◌, Bool, true, false, not, ltb, if◌then◌else◌, none, some, Text, codes,
  length, take, drop,
}
use postgres_mapepire_proxy.Sql.Text.{trim_start, trim_end, keyword, ◌>>=◌}
use postgres_mapepire_proxy.Sql.Scan.{top_level_keyword_index}
use postgres_mapepire_proxy.Ddl.ColumnTypes.{word_ends}

-- hasTopLevelKeyword(sql, word)
unfoldable pub has_top_level_keyword : Text → Text → Bool
has_top_level_keyword sql word = elim (top_level_keyword_index sql word) [
  | some i ↦ true
  | none ↦ false
]

-- `/^\s*select\b/i`
unfoldable pub is_select : Text → Bool
is_select sql = elim (keyword (codes "select") (trim_start sql) >>= word_ends) [
  | some rest ↦ true
  | none ↦ false
]

abbrev pub clauses : List Text
clauses =
    codes "where"
    ∷ codes "group"
    ∷ codes "having"
    ∷ codes "order"
    ∷ codes "offset"
    ∷ codes "fetch"
    ∷ []

-- The loop over the clauses, with `insertion`.
unfoldable pub insertion_at : Text → List Text → ℕ → ℕ
insertion_at sql [] insertion = insertion
insertion_at sql (clause ∷ rest) insertion = elim (top_level_keyword_index sql clause) [
  | none ↦ insertion_at sql rest insertion
  | some pos ↦ insertion_at sql rest (if ltb pos insertion then pos else insertion)
]

-- The row source, and the tail behind a space if there is one.
unfoldable pub with_tail : Text → Text → Text
with_tail head [] = head ++ codes " FROM SYSIBM.SYSDUMMY1"
with_tail head (c ∷ tail) = head ++ codes " FROM SYSIBM.SYSDUMMY1 " ++ trim_start (c ∷ tail)

-- ensureDb2SelectSource(sql)
unfoldable pub ensure_select_source : Text → Text
ensure_select_source sql =
    let insertion = insertion_at sql clauses (length sql) in
    if not (is_select sql)
    then sql
    else if has_top_level_keyword sql (codes "from")
    then sql
    else if has_top_level_keyword sql (codes "union")
    then sql
    else with_tail (trim_end (take insertion sql)) (drop insertion sql)
