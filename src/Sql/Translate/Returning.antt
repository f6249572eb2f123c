-- ===== src/Sql/Translate/Returning.antt =====
-- RETURNING in sql/translator.ts: parsePgReturning, with the parser of its expressions, and
-- rewritePgReturning.
pub mod Laws
use postgres_mapepire_proxy.Prelude.{
  ℕ, ◌+◌, ◌==◌, List, [], ◌∷◌, ◌++◌, Bool, true, false, ◌&&◌, if◌then◌else◌, Option, none, some,
  Text, codes, map, length, take, drop, text_eq,
}
use postgres_mapepire_proxy.Prelude.Results.{Result, ok, err, ◌>>=◌}
use postgres_mapepire_proxy.Sql.Text.{trim, trim_end, lower, undouble, cut_semicolons}
use postgres_mapepire_proxy.Sql.Identifier.{without_last}
use postgres_mapepire_proxy.Sql.SearchPath.{ends_with}
use postgres_mapepire_proxy.Sql.Scan.{top_level_keyword_index, split_definition_list}
use postgres_mapepire_proxy.Sql.Regex.{
  Regex, ◌~◌, group, at_start, at_end, Match, text_of, group_of, exec, replace, replace_all,
}
use postgres_mapepire_proxy.Sql.Regex.Classes.{text, word, maybe, blanks, spaces1, identifier}
use postgres_mapepire_proxy.Sql.Translate.Errors.{
  TranslateError, returning_nothing, returning_no_table, returning_star, returning_expression,
}
use postgres_mapepire_proxy.Sql.Translate.Ddl.{relation}
use postgres_mapepire_proxy.Session.State.{Kind, insert, update, delete}

-- PgReturningColumn and PgReturningInfo
pub record Column : Type 0 where
  pub column : Text
  pub field_name : Text

pub record Returning : Type 0 where
  pub kind : Kind
  pub table : Text
  pub columns : List Column

-- unquoteIdentifier(value), on the trimmed text
unfoldable pub unquoted_lower : Text → Text
unquoted_lower [] = []
unquoted_lower (c ∷ s) =
    if c == b'"' && ends_with b'"' (c ∷ s)
    then undouble b'"' (without_last s)
    else map lower (c ∷ s)

unfoldable pub unquote_lower : Text → Text
unquote_lower value = unquoted_lower (trim value)

-- `\s+(?:AS\s+)?identifier`
abbrev pub alias_pattern : Regex
alias_pattern = spaces1 ~ maybe (word (codes "as") ~ spaces1) ~ identifier

abbrev pub returned : Regex
returned =
    at_start
    ~ maybe (identifier ~ text (codes "."))
    ~ group 1 identifier
    ~ maybe (group 2 alias_pattern)
    ~ at_end

-- `match[2]?.trim().replace(/^AS\s+/i, '') ?? column`
unfoldable pub alias_of : Match → Text
alias_of m = elim (group_of 2 m) [
  | none ↦ text_of 1 m
  | some alias ↦ replace (at_start ~ word (codes "as") ~ spaces1) (λ _. []) (trim alias)
]

-- The column of a match, or the error without one.
unfoldable pub column_of : Text → Option (Text × Match) → Result TranslateError Column
column_of expression none = err (returning_expression expression)
column_of expression (some (front, m)) =
    ok (record { column = text_of 1 m; field_name = unquote_lower (alias_of m) })

-- parseReturningExpression(expression)
unfoldable pub parse_returning_expression : Text → Result TranslateError Column
parse_returning_expression expression =
    if text_eq expression (codes "*")
    then err returning_star
    else column_of expression (exec returned expression)

-- The columns of the list, or the first error.
unfoldable pub parse_returning_list : List Text → Result TranslateError (List Column)
parse_returning_list [] = ok []
parse_returning_list (item ∷ items) = parse_returning_expression (trim item) >>= λ column.
    parse_returning_list items >>= λ columns. ok (column ∷ columns)

-- The words in front of the table.
unfoldable pub target_words : Kind → Option Regex
target_words insert = some (word (codes "insert") ~ spaces1 ~ word (codes "into"))
target_words update = some (word (codes "update"))
target_words delete = some (word (codes "delete") ~ spaces1 ~ word (codes "from"))
target_words _ = none

-- returningTargetTable(sql, kind), with the words of the kind
unfoldable pub target_table : Regex → Text → Option Text
target_table words sql = elim (exec (at_start ~ blanks ~ words ~ spaces1 ~ group 1 relation) sql) [
  | none ↦ none
  | some (front, m) ↦
      some (replace_all (blanks ~ text (codes ".") ~ blanks) (λ _. codes ".") (text_of 1 m))
]

-- The list behind RETURNING, and the table.
unfoldable pub returning_of : Kind → Text → Option Text → Result TranslateError Returning
returning_of kind [] table = err returning_nothing
returning_of kind (c ∷ list) none = err returning_no_table
returning_of kind (c ∷ list) (some []) = err returning_no_table
returning_of kind (c ∷ list) (some (d ∷ table)) =
    parse_returning_list (split_definition_list (c ∷ list)) >>= λ columns.
    ok (record { kind = kind; table = d ∷ table; columns = columns })

-- RETURNING at its index, or nowhere.
unfoldable pub returning_at :
    Kind → Regex → Text → Option ℕ → Result TranslateError (Option Returning)
returning_at kind words sql none = ok none
returning_at kind words sql (some index) =
    returning_of kind (cut_semicolons (trim (drop (index + length (codes "returning")) sql)))
      (target_table words sql)
    >>= λ info. ok (some info)

-- parsePgReturning(sql), with the kind that classify gives
unfoldable pub parse_returning : Kind → Text → Result TranslateError (Option Returning)
parse_returning kind sql = elim (target_words kind) [
  | none ↦ ok none
  | some words ↦ returning_at kind words sql (top_level_keyword_index sql (codes "returning"))
]

-- columns.join(', ')
abbrev pub select_list : List Column → Text
select_list [] = []
select_list (c ∷ []) = c.column
select_list (c ∷ d ∷ columns) = c.column ++ codes ", " ++ select_list (d ∷ columns)

abbrev pub transition : Kind → Text
transition delete = codes "OLD TABLE"
transition _ = codes "FINAL TABLE"

-- The data-change table reference of a statement.
unfoldable pub change_table : Kind → List Column → Text → Text
change_table kind columns dml =
    codes "SELECT "
    ++ select_list columns
    ++ codes " FROM "
    ++ transition kind
    ++ codes " ("
    ++ dml
    ++ codes ")"

-- rewritePgReturning(sql, kind): the first kind is the one of the statement that was written, the
-- second the one that classify gives for the text rewritten so far.
unfoldable pub rewrite_returning : Kind → Kind → Text → Result TranslateError Text
rewrite_returning written kind sql = parse_returning kind sql >>= λ found. elim found [
  | none ↦ ok sql
  | some info ↦ elim (top_level_keyword_index sql (codes "returning")) [
    | none ↦ ok sql
    | some index ↦ ok (change_table written info.columns (trim_end (take index sql)))
  ]
]
