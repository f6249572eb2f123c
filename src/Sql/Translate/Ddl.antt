-- ===== src/Sql/Translate/Ddl.antt =====
-- rewritePgDdlTypes of sql/translator.ts: the types in CREATE TABLE and ALTER TABLE.
use postgres_mapepire_proxy.Prelude.{
  ℕ, ◌+◌, ◌==◌, ◌++◌, true, not, if◌then◌else◌, none, some, Text, codes, map, take, drop,
}
use postgres_mapepire_proxy.Prelude.Results.{Result, ok, err}
use postgres_mapepire_proxy.Sql.Text.{trim}
use postgres_mapepire_proxy.Sql.Scan.{
  first_unquoted_char, matching_paren, split_definition_list, joined,
}
use postgres_mapepire_proxy.Sql.Scan.RowSource.{has_top_level_keyword}
use postgres_mapepire_proxy.Sql.Regex.{
  Regex, one, ◌~◌, group, at_start, at_end, boundary, Match, text_of, exec, replace,
}
use postgres_mapepire_proxy.Sql.Regex.Classes.{text, word, plus, maybe, blanks, spaces1, identifier}
use postgres_mapepire_proxy.Sql.Translate.Errors.{
  TranslateError, alter_type_using, alter_type_collate,
}
use postgres_mapepire_proxy.Sql.Translate.Types.{rewrite_type_prefix, rewrite_column_type}
use postgres_mapepire_proxy.Ddl.Serial.{is_create_table, is_alter_table}

-- An identifier, and a second one behind a point.
abbrev pub relation : Regex
relation = identifier ~ maybe (blanks ~ text (codes ".") ~ blanks ~ identifier)

abbrev pub alter_type : Regex
alter_type =
    at_start
    ~ group 1 (
        blanks
        ~ word (codes "alter")
        ~ spaces1
        ~ word (codes "table")
        ~ spaces1
        ~ maybe (word (codes "only") ~ spaces1)
        ~ relation
        ~ spaces1
        ~ word (codes "alter")
        ~ spaces1)
    ~ maybe (word (codes "column") ~ spaces1)
    ~ group 2 identifier
    ~ spaces1
    ~ word (codes "type")
    ~ spaces1
    ~ group 3 (plus (one (λ c. true)))
    ~ at_end

-- The statement of ALTER COLUMN … TYPE, or what it throws.
unfoldable pub set_data_type : ℕ → Match → Result TranslateError Text
set_data_type n m =
    let source = trim (text_of 3 m) in
    if has_top_level_keyword source (codes "using")
    then err alter_type_using
    else if has_top_level_keyword source (codes "collate")
    then err alter_type_collate
    else ok (
        text_of 1 m
        ++ codes "COLUMN "
        ++ text_of 2 m
        ++ codes " SET DATA TYPE "
        ++ rewrite_type_prefix n source)

-- `(\bADD\s+(?:COLUMN\s+)?(?:identifier)\s+)([^,]+)$`
abbrev pub add_type : Regex
add_type =
    group 1 (
      boundary
      ~ word (codes "add")
      ~ spaces1
      ~ maybe (word (codes "column") ~ spaces1)
      ~ identifier
      ~ spaces1)
    ~ group 2 (plus (one (λ c. not (c == b','))))
    ~ at_end

unfoldable pub rewrite_alter_types : ℕ → Text → Result TranslateError Text
rewrite_alter_types n sql = elim (exec alter_type sql) [
  | some (front, m) ↦ set_data_type n m
  | none ↦ ok (replace add_type (λ m. text_of 1 m ++ rewrite_type_prefix n (text_of 2 m)) sql)
]

unfoldable pub rewrite_create_types : ℕ → Text → ℕ → ℕ → Text
rewrite_create_types n sql start close =
    take (start + 1) sql
    ++ joined
        (map (rewrite_column_type n) (split_definition_list (drop (start + 1) (take close sql))))
    ++ drop close sql

-- rewritePgDdlTypes(sql, defaultVarcharLength)
unfoldable pub rewrite_ddl_types : ℕ → Text → Result TranslateError Text
rewrite_ddl_types n sql =
    if is_create_table sql
    then elim (first_unquoted_char sql b'(') [
      | none ↦ ok sql
      | some start ↦ elim (matching_paren sql start) [
        | none ↦ ok sql
        | some close ↦ ok (rewrite_create_types n sql start close)
      ]
    ]
    else if is_alter_table sql
    then rewrite_alter_types n sql
    else ok sql
