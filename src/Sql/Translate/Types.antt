-- ===== src/Sql/Translate/Types.antt =====
-- The types of a column definition in sql/translator.ts: rewriteDb2TypePrefix with the defaults of
-- Boolean and numeric columns, and rewriteDb2ColumnTypeDefinition.
use postgres_mapepire_proxy.Prelude.{
  ℕ, ◌==◌, List, [], ◌∷◌, ◌++◌, Bool, true, false, ◌&&◌, ◌||◌, ltb, if◌then◌else◌, Option, none,
  some, Text, codes, map, text_eq, some_of,
}
use postgres_mapepire_proxy.Sql.Text.{trim, undouble, lower, decimal, is_letter, is_digit, is_space}
use postgres_mapepire_proxy.Sql.Identifier.{without_last}
use postgres_mapepire_proxy.Sql.SearchPath.{ends_with}
use postgres_mapepire_proxy.Sql.Regex.{
  Regex, one, ◌~◌, ◌<|>◌, star, group, ahead, not_ahead, at_start, at_end, boundary, Match, test,
  text_of, replace,
}
use postgres_mapepire_proxy.Sql.Regex.Classes.{
  text, word, plus, maybe, blanks, spaces1, digits1, quoted, identifier,
}
use postgres_mapepire_proxy.Ddl.Serial.{begins_constraint}

-- `[+-]?`
abbrev pub sign : Regex
sign = maybe (one (λ c. c == b'+' || c == b'-'))

-- The patterns `integer`, `decimal` and `floating` of rewriteDb2NumericDefault.
abbrev pub integer_literal : Regex
integer_literal = sign ~ digits1

abbrev pub decimal_literal : Regex
decimal_literal =
    sign ~ (digits1 ~ maybe (text (codes ".") ~ star (one is_digit)) <|> text (codes ".") ~ digits1)

abbrev pub floating_literal : Regex
floating_literal = decimal_literal ~ maybe (word (codes "e") ~ sign ~ digits1)

-- `\bDEFAULT\s+'(pattern)'(?=\s|,|$)`
abbrev pub numeric_default : Regex → Regex
numeric_default literal =
    boundary
    ~ word (codes "default")
    ~ spaces1
    ~ text (codes "'")
    ~ group 1 literal
    ~ text (codes "'")
    ~ ahead (one (λ c. is_space c || c == b',') <|> at_end)

-- rewriteDb2NumericDefault(definitionTail, kind), with the pattern of the kind
unfoldable pub rewrite_numeric_default : Regex → Text → Text
rewrite_numeric_default literal tail =
    replace (numeric_default literal) (λ m. codes "DEFAULT " ++ text_of 1 m) tail

abbrev pub one_of : List Text → Text → Bool
one_of words w = some_of (λ x. text_eq x w) words

-- The literal's text behind `trim` and, where it is quoted, without its quotes.
unfoldable pub bare_literal : Text → Text
bare_literal [] = []
bare_literal (c ∷ s) =
    if c == 39 && ends_with 39 (c ∷ s) then undouble 39 (without_last s) else c ∷ s

-- normalize(literal), none for undefined
unfoldable pub boolean_literal : Text → Option Bool
boolean_literal literal =
    let value = map lower (bare_literal (trim literal)) in
    if one_of (codes "1" ∷ codes "t" ∷ codes "true" ∷ codes "y" ∷ codes "yes" ∷ codes "on" ∷ [])
      value
    then some true
    else if one_of
        (codes "0" ∷ codes "f" ∷ codes "false" ∷ codes "n" ∷ codes "no" ∷ codes "off" ∷ []) value
    then some false
    else none

-- `value ? 'DEFAULT value' : match`
unfoldable pub boolean_default : Match → Text
boolean_default m = elim (boolean_literal (text_of 1 m)) [
  | none ↦ m.matched
  | some true ↦ codes "DEFAULT TRUE"
  | some false ↦ codes "DEFAULT FALSE"
]

-- `('(?:[^']|'')*'|[A-Za-z0-9_+-]+)`
abbrev pub literal_group : Regex
literal_group = group 1 (
    quoted 39
    <|> plus (one (λ c. is_letter c || is_digit c || c == b'_' || c == b'+' || c == b'-')))

-- rewriteDb2BooleanDefault(definitionTail)
unfoldable pub rewrite_boolean_default : Text → Text
rewrite_boolean_default tail =
    replace (boundary ~ word (codes "default") ~ spaces1 ~ literal_group) boolean_default (
      replace
        (boundary
          ~ word (codes "default")
          ~ spaces1
          ~ word (codes "cast(")
          ~ blanks
          ~ literal_group
          ~ spaces1
          ~ word (codes "as")
          ~ spaces1
          ~ word (codes "boolean")
          ~ blanks
          ~ text (codes ")"))
        boolean_default tail)

-- `/^…\b/i` and its replacement by a fixed text
abbrev pub first_type : Regex → Text → Text → Text
first_type pattern db2 value = replace (at_start ~ pattern ~ boundary) (λ m. db2) value

-- `(?:WITH|WITHOUT)\s+TIME\s+ZONE`
abbrev pub time_zone : Regex
time_zone =
    (word (codes "with") <|> word (codes "without"))
    ~ spaces1
    ~ word (codes "time")
    ~ spaces1
    ~ word (codes "zone")

-- The spellings of types that have a Db2 type of their own.
unfoldable pub rewrite_spellings : Text → Text
rewrite_spellings rest = first_type (word (codes "text")) (codes "CLOB(2G) CCSID 1208") (
    first_type (word (codes "json") ~ maybe (word (codes "b"))) (codes "CLOB(2G) CCSID 1208") (
      first_type (word (codes "bytea")) (codes "BLOB(2G)") (
        first_type (word (codes "double") ~ spaces1 ~ word (codes "precision")) (codes "DOUBLE") (
          first_type (word (codes "time") ~ spaces1 ~ time_zone) (codes "TIME") (
            first_type (word (codes "timestamp") ~ spaces1 ~ time_zone) (codes "TIMESTAMP")
              rest)))))

-- Math.max(1, Math.min(32740, Math.trunc(n)))
unfoldable pub varchar_length : ℕ → ℕ
varchar_length n = if n == 0 then 1 else if ltb n 32740 then n else 32740

-- A type `\b(?!\s*\()` without its length
abbrev pub unmeasured : Regex → Regex
unmeasured pattern = at_start ~ pattern ~ boundary ~ not_ahead (blanks ~ text (codes "("))

unfoldable pub rewrite_varchar : ℕ → Text → Text
rewrite_varchar n value =
    let db2 = codes "VARCHAR(" ++ decimal (varchar_length n) ++ codes ")" in
    replace (unmeasured (word (codes "character") ~ spaces1 ~ word (codes "varying"))) (λ m. db2)
      (replace (unmeasured (word (codes "varchar"))) (λ m. db2) value)

-- `/^(?:…)\b/i.test(value)`
abbrev pub begins_type : Regex → Text → Bool
begins_type pattern value = test (at_start ~ pattern ~ boundary) value

unfoldable pub rewrite_default : Text → Text
rewrite_default value =
    if begins_type (word (codes "smallint") <|> word (codes "integer") <|> word (codes "bigint"))
      value
    then rewrite_numeric_default integer_literal value
    else if begins_type (word (codes "decimal") <|> word (codes "numeric")) value
    then rewrite_numeric_default decimal_literal value
    else if begins_type
        (word (codes "real")
          <|> word (codes "double")
          <|> word (codes "float")
          <|> word (codes "decfloat"))
        value
    then rewrite_numeric_default floating_literal value
    else value

-- rewriteDb2TypePrefix(rest, defaultVarcharLength)
unfoldable pub rewrite_type_prefix : ℕ → Text → Text
rewrite_type_prefix n rest =
    let value = rewrite_varchar n (rewrite_spellings rest) in
    rewrite_default
      (if begins_type (word (codes "boolean")) value then rewrite_boolean_default value else value)

-- rewriteDb2ColumnTypeDefinition(definition, defaultVarcharLength)
unfoldable pub rewrite_column_type : ℕ → Text → Text
rewrite_column_type n definition =
    if begins_constraint definition
    then definition
    else replace
        (at_start
          ~ group 1 (blanks ~ identifier ~ spaces1)
          ~ group 2 (star (one (λ c. true)))
          ~ at_end)
        (λ m. text_of 1 m ++ rewrite_type_prefix n (text_of 2 m)) definition
