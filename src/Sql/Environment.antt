-- ===== src/Sql/Environment.antt =====
-- sql/environment.ts: the settings that the proxy answers itself. Number() of a part of the server's
-- version is modelled for decimal digits; any other text counts as not finite.
mod Tests
pub mod Laws
use postgres_mapepire_proxy.Prelude.{
  ℕ, zero, suc, ◌+◌, ◌*◌, ◌-◌, ◌==◌, List, [], ◌∷◌, ◌++◌, Bool, true, false, if◌then◌else◌, Option,
  none, some, Text, codes, every, map, text_eq,
}
use postgres_mapepire_proxy.Sql.Text.{trim, collapse, lower, decimal, is_digit, is_letter, or_match}
use postgres_mapepire_proxy.Sql.Identifier.{is_word_start, is_word_part}
use postgres_mapepire_proxy.Sql.SearchPath.{cut_last_semicolon}
use postgres_mapepire_proxy.Sql.Regex.{
  Regex, one, ◌~◌, ◌<|>◌, star, group, at_start, at_end, boundary, Match, exec, test, group_of,
  text_of,
}
use postgres_mapepire_proxy.Sql.Regex.Classes.{text, word, maybe, blanks, spaces1}
use postgres_mapepire_proxy.Sql.Scan.Rewrites.{number_of}
use postgres_mapepire_proxy.Wire.Oids.{oid, Size, fixed, variable}

-- FieldDescription, with the attributes that these results give.
pub record Field : Type 0 where
  pub name : Text
  pub type_oid : ℕ
  pub size : Size

pub data Value : Type 0 where
  text_value : Text → Value
  number_value : ℕ → Value
  -- the -1 of a type of any length
  any_length : Value

-- SyntheticResult
pub record SyntheticResult : Type 0 where
  pub fields : List Field
  pub rows : List (List Value)
  pub tag : Text

abbrev pub one_row : Text → ℕ → Size → Value → SyntheticResult
one_row name type_oid size value = record {
  fields = record { name = name; type_oid = type_oid; size = size } ∷ [];
  rows = (value ∷ []) ∷ [];
  tag = codes "SELECT 1";
}

unfoldable pub one_text : Text → Text → SyntheticResult
one_text name value = one_row name (oid.text) variable (text_value value)

unfoldable pub one_name : Text → Text → SyntheticResult
one_name name value = one_row name (oid.name) (fixed 64) (text_value value)

-- What stands before the first point and, where there is one, behind it up to the next.
unfoldable pub major_minor : Text → Text × Option Text
major_minor [] = ([], none)
major_minor (c ∷ s) =
    let (major, minor) = major_minor s in if c == b'.' then ([], some major) else (c ∷ major, minor)

-- `Number(part || default)`
unfoldable pub part_number : Text → ℕ → Option ℕ
part_number [] default = some default
part_number (c ∷ s) default = if every is_digit (c ∷ s) then some (number_of 0 (c ∷ s)) else none

-- The text of server_version_num.
unfoldable pub version_number : Text → Text
version_number version =
    let (major, minor) = major_minor version in
    let minor_text : Text = elim minor [ none ↦ codes "0" | some t ↦ t ] in
    elim (part_number major 14) [
      | none ↦ codes "140000"
      | some m ↦ elim (part_number minor_text 0) [
        | none ↦ codes "140000"
        | some n ↦ decimal (m * 10000 + n * 100)
      ]
    ]

-- `/^show\s+name$/i`
abbrev pub show : Text → Regex
show name = at_start ~ word (codes "show") ~ spaces1 ~ word name ~ at_end

-- A setting and its value.
abbrev pub setting : Text → Text → Regex × Text × Text
setting name value = (show (map lower name), name, value)

-- The queries that are answered by one text and whose patterns have no group, in their order:
-- database, schema, server version.
unfoldable pub settings : Text → Text → Text → List (Regex × Text × Text)
settings database schema version =
    setting (codes "server_version") version
    ∷ setting (codes "server_version_num") (version_number version)
    ∷ setting (codes "standard_conforming_strings") (codes "on")
    ∷ setting (codes "integer_datetimes") (codes "on")
    ∷ setting (codes "transaction_isolation") (codes "read committed")
    ∷ (
      at_start
          ~ word (codes "show")
          ~ spaces1
          ~ word (codes "transaction")
          ~ spaces1
          ~ word (codes "isolation")
          ~ spaces1
          ~ word (codes "level")
          ~ at_end,
      codes "transaction_isolation",
      codes "read committed",
    )
    ∷ setting (codes "default_transaction_isolation") (codes "read committed")
    ∷ setting (codes "client_encoding") (codes "UTF8")
    ∷ setting (codes "search_path") schema
    ∷ setting (codes "TimeZone") (codes "UTC")
    ∷ setting (codes "DateStyle") (codes "ISO, MDY")
    ∷ setting (codes "default_transaction_read_only") (codes "off")
    ∷ (
      at_start
          ~ word (codes "select")
          ~ spaces1
          ~ maybe (word (codes "pg_catalog."))
          ~ word (codes "version")
          ~ blanks
          ~ text (codes "(")
          ~ blanks
          ~ text (codes ")")
          ~ at_end,
      codes "version",
      codes "PostgreSQL "
          ++ version
          ++ codes " compatible gateway to IBM i Db2 (Mapepire Proxy 0.1.38)",
    )
    ∷ (
      at_start ~ word (codes "select") ~ spaces1 ~ word (codes "current_database()"),
      codes "current_database",
      elim database [ [] ↦ codes "ibmi" | c ∷ s ↦ c ∷ s ],
    )
    ∷ []

-- The answer of the first pattern that the statement matches.
unfoldable pub first_setting : List (Regex × Text × Text) → Text → Option SyntheticResult
first_setting [] sql = none
first_setting ((pattern, name, value) ∷ rest) sql =
    let later = first_setting rest sql in
    if test pattern sql then some (one_text name value) else later

unfoldable pub max_identifier_length : Text → Option SyntheticResult
max_identifier_length sql =
    if test (show (codes "max_identifier_length")) sql
    then some (one_row (codes "max_identifier_length") oid.text variable (number_value 128))
    else none

-- `(?:\s+as\s+([a-z_][a-z0-9_$]*))?$`, with the number of its group
abbrev pub alias : ℕ → Regex
alias n =
    maybe (
      spaces1 ~ word (codes "as") ~ spaces1 ~ group n (one is_word_start ~ star (one is_word_part)))
    ~ at_end

-- The alias of a match, or the default.
unfoldable pub alias_or : ℕ → Text → Match → Text
alias_or n default m = elim (group_of n m) [ none ↦ default | some name ↦ name ]

abbrev pub truth : Regex
truth = word (codes "true") <|> word (codes "false")

-- The answer to a statement that matches a pattern.
unfoldable pub answer_to :
    Option (Text × Match) → (Match → SyntheticResult) → Option SyntheticResult
answer_to none answer = none
answer_to (some (front, m)) answer = some (answer m)

unfoldable pub current_schema : Text → Text → Option SyntheticResult
current_schema schema sql =
    answer_to
      (exec
        (at_start
          ~ word (codes "select")
          ~ spaces1
          ~ word (codes "current_schema")
          ~ maybe (text (codes "()"))
          ~ alias 1)
        sql)
      (λ m. one_name (alias_or 1 (codes "current_schema") m) schema)

unfoldable pub current_setting : Text → Text → Option SyntheticResult
current_setting schema sql =
    answer_to
      (exec
        (at_start
          ~ word (codes "select")
          ~ spaces1
          ~ word (codes "current_setting(")
          ~ blanks
          ~ word (codes "'search_path'")
          ~ blanks
          ~ maybe (text (codes ",") ~ blanks ~ truth)
          ~ blanks
          ~ text (codes ")")
          ~ alias 1)
        sql)
      (λ m. one_text (alias_or 1 (codes "current_setting") m) schema)

-- `entry.replaceAll('"', '\\"')` between quotes
unfoldable pub array_entry : Text → Text
array_entry [] = []
array_entry (c ∷ s) = let rest = array_entry s in if c == b'"' then 92 ∷ c ∷ rest else c ∷ rest

abbrev pub quoted_entry : Text → Text
quoted_entry s = codes "\"" ++ array_entry s ++ codes "\""

-- The PostgreSQL array of the effective schemas.
unfoldable pub schemas_array : Bool → Text → Text
schemas_array true schema =
    codes "{" ++ quoted_entry (codes "pg_catalog") ++ codes "," ++ quoted_entry schema ++ codes "}"
schemas_array false schema = codes "{" ++ quoted_entry schema ++ codes "}"

-- The answer for the array, whose first group says whether the implicit schemas belong to it.
unfoldable pub schemas_answer : Text → Match → SyntheticResult
schemas_answer schema m =
    let implicit = text_eq (map lower (text_of 1 m)) (codes "true") in
    one_row (alias_or 2 (codes "current_schemas") m) oid.name_array variable
      (text_value (schemas_array implicit schema))

unfoldable pub current_schemas : Text → Text → Option SyntheticResult
current_schemas schema sql =
    answer_to
      (exec
        (at_start
          ~ word (codes "select")
          ~ spaces1
          ~ word (codes "current_schemas(")
          ~ blanks
          ~ group 1 truth
          ~ blanks
          ~ text (codes ")")
          ~ alias 2)
        sql)
      (schemas_answer schema)

-- The names of the settings that are accepted and not applied.
abbrev pub ignored_settings : Regex
ignored_settings =
    word (codes "client_encoding")
    <|> word (codes "client_min_messages")
    <|> word (codes "bytea_output")
    <|> word (codes "application_name")
    <|> word (codes "extra_float_digits")
    <|> word (codes "standard_conforming_strings")
    <|> word (codes "timezone")
    <|> word (codes "datestyle")
    <|> word (codes "statement_timeout")
    <|> word (codes "lock_timeout")
    <|> word (codes "idle_in_transaction_session_timeout")

unfoldable pub ignored_set : Text → Option SyntheticResult
ignored_set sql =
    if test (at_start ~ word (codes "set") ~ spaces1 ~ ignored_settings ~ boundary) sql
    then some (record { fields = []; rows = []; tag = codes "SET" })
    else none

-- environmentQuery(sql, database, currentSchema, serverVersion)
unfoldable pub environment_query : Text → Text → Text → Text → Option SyntheticResult
environment_query sql database schema version =
    let compact = collapse (cut_last_semicolon (trim sql)) in
    or_match (max_identifier_length compact) (
      or_match (first_setting (settings database schema version) compact) (
        or_match (current_schema schema compact) (
          or_match (current_setting schema compact)
            (or_match (current_schemas schema compact) (ignored_set compact)))))
