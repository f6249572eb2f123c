-- ===== src/Sql/Translate/Rewrites.antt =====
-- The rewrites of sql/translator.ts that replace what one pattern matches: casts, LIMIT and OFFSET,
-- functions, and the relations of the catalogues.
pub mod Casts
use postgres_mapepire_proxy.Prelude.{◌==◌, List, [], ◌∷◌, ◌++◌, true, not, ◌||◌, Text, codes}
use postgres_mapepire_proxy.Sql.Text.{is_letter, is_digit}
use postgres_mapepire_proxy.Sql.Identifier.{is_word_start}
use postgres_mapepire_proxy.Sql.Regex.{
  Regex, empty, one, ◌~◌, ◌<|>◌, star, group, not_behind, at_end, boundary, is_word_char, text_of,
  replace, replace_all,
}
use postgres_mapepire_proxy.Sql.Regex.Classes.{
  text, word, plus, maybe, blanks, spaces1, digits1, quoted, whole,
}
use postgres_mapepire_proxy.Sql.Translate.Types.{sign}

-- `[A-Za-z_][A-Za-z0-9_.]*`
abbrev pub dotted : Regex
dotted = one is_word_start ~ star (one (λ c. is_word_char c || c == b'.'))

-- `[+-]?\d+(?:\.\d+)?`
abbrev pub number : Regex
number = sign ~ digits1 ~ maybe (text (codes ".") ~ digits1)

-- `'[^']*(?:''[^']*)*'`
abbrev pub string : Regex
string =
    let other = star (one (λ c. not (c == 39))) in
    text (codes "'") ~ other ~ star (text (codes "''") ~ other) ~ text (codes "'")

-- The operand and the type of a cast by `::`.
abbrev pub cast_operand : Regex
cast_operand = string <|> text (codes "$") ~ digits1 <|> text (codes "?") <|> dotted <|> number

abbrev pub cast_type : Regex
cast_type =
    one is_word_start
    ~ star (one is_word_char)
    ~ maybe (
        spaces1
          ~ (word (codes "with") <|> word (codes "without"))
          ~ spaces1
          ~ word (codes "time")
          ~ spaces1
          ~ word (codes "zone")
        <|> spaces1 ~ (word (codes "varying") <|> word (codes "precision")))
    ~ maybe (text (codes "(") ~ star (one (λ c. not (c == b')'))) ~ text (codes ")"))
    ~ maybe (text (codes "[]"))

abbrev pub cast : Regex
cast = group 1 cast_operand ~ text (codes "::") ~ group 2 cast_type

-- rewritePgCasts(sql)
unfoldable pub rewrite_casts : Text → Text
rewrite_casts sql =
    replace_all cast (λ m. codes "CAST(" ++ text_of 1 m ++ codes " AS " ++ text_of 2 m ++ codes ")")
      sql

abbrev pub json_cast : Regex
json_cast =
    boundary
    ~ word (codes "cast(")
    ~ blanks
    ~ group 1 (
        quoted 39
        <|> text (codes "?")
        <|> word (codes "null")
        <|> word (codes "true")
        <|> word (codes "false")
        <|> dotted
        <|> number)
    ~ spaces1
    ~ word (codes "as")
    ~ spaces1
    ~ word (codes "json")
    ~ maybe (word (codes "b"))
    ~ blanks
    ~ text (codes ")")

-- rewritePgJsonCasts(sql)
unfoldable pub rewrite_json_casts : Text → Text
rewrite_json_casts sql = replace_all json_cast (λ m. codes "CLOB(" ++ text_of 1 m ++ codes ")") sql

-- `\s+word\s+(\d+)`, with the number of its group
abbrev pub bound : Text → Regex → Regex
bound w digits = spaces1 ~ word w ~ spaces1 ~ digits

abbrev pub fetch_first : Text → Text
fetch_first n = codes " FETCH FIRST " ++ n ++ codes " ROWS ONLY"

abbrev pub offset_rows : Text → Text
offset_rows n = codes " OFFSET " ++ n ++ codes " ROWS"

-- rewriteLimitOffset(sql)
unfoldable pub rewrite_limit_offset : Text → Text
rewrite_limit_offset sql =
    let limit = λ (r : Regex). bound (codes "limit") r in
    let offset = λ (r : Regex). bound (codes "offset") r in
    let first = group 1 digits1 in
    let second = group 2 digits1 in
    replace (offset first ~ blanks ~ at_end) (λ m. offset_rows (text_of 1 m))
      (replace (limit first ~ blanks ~ at_end) (λ m. fetch_first (text_of 1 m))
        (replace (offset first ~ limit second ~ blanks ~ at_end)
          (λ m. offset_rows (text_of 1 m) ++ fetch_first (text_of 2 m))
          (replace (limit first ~ offset second ~ blanks ~ at_end)
            (λ m. offset_rows (text_of 2 m) ++ fetch_first (text_of 1 m)) sql)))

-- A chain of replacements by fixed texts, under the flag g.
unfoldable pub replace_each : List (Regex × Text) → Text → Text
replace_each [] sql = sql
replace_each ((pattern, db2) ∷ rest) sql = replace_each rest (replace_all pattern (λ m. db2) sql)

-- `\bname\s*\(\s*\)`
abbrev pub no_arguments : Text → Regex
no_arguments name = boundary ~ word name ~ blanks ~ text (codes "(") ~ blanks ~ text (codes ")")

abbrev pub function_rewrites : List (Regex × Text)
function_rewrites =
    (no_arguments (codes "current_schema"), codes "CURRENT SCHEMA")
    ∷ (no_arguments (codes "now"), codes "CURRENT TIMESTAMP")
    ∷ (no_arguments (codes "current_date"), codes "CURRENT DATE")
    ∷ (no_arguments (codes "current_time"), codes "CURRENT TIME")
    ∷ (whole (codes "true"), codes "TRUE")
    ∷ (whole (codes "false"), codes "FALSE")
    ∷ []

-- rewritePgFunctions(sql)
unfoldable pub rewrite_functions : Text → Text
rewrite_functions sql = replace_each function_rewrites sql

abbrev pub information_schema_rewrites : List (Regex × Text)
information_schema_rewrites =
    (whole (codes "information_schema.tables"), codes "SYSIBM.TABLES")
    ∷ (whole (codes "information_schema.columns"), codes "SYSIBM.COLUMNS")
    ∷ (whole (codes "information_schema.schemata"), codes "SYSIBM.SCHEMATA")
    ∷ []

-- rewriteInformationSchema(sql)
unfoldable pub rewrite_information_schema : Text → Text
rewrite_information_schema sql = replace_each information_schema_rewrites sql

abbrev pub namespaces : Text
namespaces =
    codes
      "(SELECT 50000 + ROW_NUMBER() OVER (ORDER BY SCHEMA_NAME) AS oid, SCHEMA_NAME AS nspname FROM QSYS2.SYSSCHEMAS)"

abbrev pub classes : Text
classes =
    codes
      "(SELECT 100000 + ROW_NUMBER() OVER (ORDER BY TABLE_SCHEMA, TABLE_NAME) AS oid, TABLE_NAME AS relname, 50000 + (SELECT COUNT(*) FROM QSYS2.SYSSCHEMAS N WHERE N.SCHEMA_NAME <= T.TABLE_SCHEMA) AS relnamespace, CASE WHEN TABLE_TYPE='V' THEN 'v' WHEN TABLE_TYPE='M' THEN 'm' ELSE 'r' END AS relkind, 0 AS reltuples FROM QSYS2.SYSTABLES T)"

-- `(?<![A-Za-z0-9_.])name\b`
abbrev pub unqualified : Text → Regex
unqualified name = not_behind (λ c. is_word_char c || c == b'.') ~ word name ~ boundary

abbrev pub catalog_rewrites : List (Regex × Text)
catalog_rewrites =
    (whole (codes "pg_catalog.pg_namespace"), namespaces)
    ∷ (unqualified (codes "pg_namespace"), namespaces)
    ∷ (whole (codes "pg_catalog.pg_class"), classes)
    ∷ (unqualified (codes "pg_class"), classes)
    ∷ []

-- rewritePgCatalog(sql)
unfoldable pub rewrite_catalog : Text → Text
rewrite_catalog sql = replace_each catalog_rewrites sql
