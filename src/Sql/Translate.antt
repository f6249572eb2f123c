-- ===== src/Sql/Translate.antt =====
-- translateSql of sql/translator.ts: its rewrites in their order.
pub mod Errors
pub mod Types
pub mod Ddl
pub mod Returning
pub mod Rewrites
mod Tests
use postgres_mapepire_proxy.Prelude.{
  ℕ, ◌==◌, List, ◌++◌, Bool, not, ◌&&◌, ltb, if◌then◌else◌, Option, Text, codes,
}
use postgres_mapepire_proxy.Prelude.Results.{Result, ok, err, ◌>>=◌}
use postgres_mapepire_proxy.Sql.Text.{trim, cut_semicolons, decimal}
use postgres_mapepire_proxy.Sql.Scan.{has_multiple_statements, uppercase_unquoted}
use postgres_mapepire_proxy.Sql.Scan.RowSource.{is_select, ensure_select_source}
use postgres_mapepire_proxy.Sql.Scan.Rewrites.{replace_placeholders, rewrite_top_level_exists}
use postgres_mapepire_proxy.Sql.Regex.{Regex, ◌~◌, ◌<|>◌, boundary, test}
use postgres_mapepire_proxy.Sql.Regex.Classes.{word, spaces1}
use postgres_mapepire_proxy.Ddl.Serial.{SerialError, rewrite_serial_types}
use postgres_mapepire_proxy.Session.State.{Kind}
use Errors.{TranslateError, multiple_statements, serial_columns}
use Ddl.{rewrite_ddl_types}
use Returning.{rewrite_returning}
use Rewrites.{
  rewrite_casts, rewrite_json_casts, rewrite_limit_offset, rewrite_functions,
  rewrite_information_schema, rewrite_catalog,
}

-- TranslateOptions; the default length is 1024 where the source has none.
pub record Options : Type 0 where
  pub uppercase_identifiers : Bool
  pub information_schema_rewrite : Bool
  pub pg_catalog_compat : Bool
  pub allow_multi_statement : Bool
  pub max_rows : ℕ
  pub default_varchar_length : ℕ

-- Translation, without the text that it is made of
pub record Translation : Type 0 where
  pub sql : Text
  pub kind : Kind
  pub parameter_order : List ℕ

-- The errors of the serial columns among those of the translation.
abbrev pub of_serial : Result SerialError Text → Result TranslateError Text
of_serial (ok sql) = ok sql
of_serial (err e) = err (serial_columns e)

-- The rewrites behind RETURNING that do not depend on the options.
unfoldable pub rewrite_select : Text → Text
rewrite_select sql =
    ensure_select_source (rewrite_functions (rewrite_limit_offset (rewrite_top_level_exists sql)))

-- `\bfetch\s+(first|next)\b`
abbrev pub has_fetch : Text → Bool
has_fetch sql =
    test
      (boundary
        ~ word (codes "fetch")
        ~ spaces1
        ~ (word (codes "first") <|> word (codes "next"))
        ~ boundary)
      sql

-- The row limit of the configuration, where the statement has none.
unfoldable pub limit_rows : ℕ → Text → Text
limit_rows max_rows sql =
    if ltb 0 max_rows && (is_select sql && not (has_fetch sql))
    then sql ++ codes " FETCH FIRST " ++ decimal max_rows ++ codes " ROWS ONLY"
    else sql

-- The rewrites that the options ask for.
unfoldable pub rewrite_optional : Options → Text → Text
rewrite_optional o sql =
    let standard = if o.information_schema_rewrite then rewrite_information_schema sql else sql in
    let known = if o.pg_catalog_compat then rewrite_catalog standard else standard in
    limit_rows o.max_rows (if o.uppercase_identifiers then uppercase_unquoted known else known)

-- The statement with its placeholders replaced, through the rewrites of its types and of RETURNING.
unfoldable pub rewrite_statement :
    (Text → Kind) → Options → Kind → Text → Result TranslateError Text
rewrite_statement classify o kind sql =
    of_serial (rewrite_serial_types (rewrite_json_casts (rewrite_casts sql)))
    >>= rewrite_ddl_types o.default_varchar_length
    >>= λ typed. rewrite_returning kind (classify typed) typed >>= λ returned.
        ok (rewrite_optional o (rewrite_select returned))

-- translateSql(input, options), with classify as an argument
unfoldable pub translate_sql : (Text → Kind) → Text → Options → Result TranslateError Translation
translate_sql classify input o =
    let sql = cut_semicolons (trim input) in
    let (marked, order) = replace_placeholders sql in
    if not o.allow_multi_statement && has_multiple_statements (trim input)
    then err multiple_statements
    else (rewrite_statement classify o (classify sql) marked >>= λ rewritten.
        ok (record { sql = rewritten; kind = classify sql; parameter_order = order }))
