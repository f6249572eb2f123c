-- ===== src/Session/Lowering/Replacement.antt =====
-- buildAddNotNullReplacement of proxy/session.ts, with the probe in front of it: a column that is NOT
-- NULL without a default, added to an empty table. What the database answers is a parameter.
use postgres_mapepire_proxy.Prelude.{
  List, [], ◌∷◌, ◌++◌, Bool, true, false, if◌then◌else◌, Option, none, some, Text, codes, map,
  some_of,
}
use postgres_mapepire_proxy.Prelude.Results.{Result, ok, err, ◌>>=◌}
use postgres_mapepire_proxy.Sql.Text.{trim, trim_end}
use postgres_mapepire_proxy.Sql.Split.{split_simple_statements}
use postgres_mapepire_proxy.Sql.Regex.{Regex, ◌~◌, boundary, Match, exec}
use postgres_mapepire_proxy.Sql.Regex.Classes.{word, spaces1}
use postgres_mapepire_proxy.Sql.Translate.{Translation}
use postgres_mapepire_proxy.Sql.Translate.Errors.{TranslateError}
use postgres_mapepire_proxy.Ddl.Tables.{ColumnRename}
use postgres_mapepire_proxy.Ddl.AddColumn.{
  AddNotNullPlan, plan_add_not_null, build_add_column, generate_sql_call,
}
use postgres_mapepire_proxy.Pool.Capabilities.{Scalar, Row}
use postgres_mapepire_proxy.Session.Rows.{case_insensitive_value, string_or}
use postgres_mapepire_proxy.Session.Lowering.Decide.{LiveColumn}
use postgres_mapepire_proxy.Session.Lowering.Learn.{Plan, column_added, as_translated}

-- What the catch of a client sees; `database` stands for an error of Mapepire as it came.
pub data LoweringError : Type 0 where
  index_refused : Bool → Text → List Text → LoweringError
  no_column no_system_name no_definition : ColumnRename → LoweringError
  table_not_empty generate_sql_unusable column_not_injected : AddNotNullPlan → LoweringError
  generate_sql_failed : Text → LoweringError
  translation : TranslateError → LoweringError
  database : Text → LoweringError

-- What the database answers, or the text of its error, the COMMIT behind a catalogue query included:
-- the columns of a table, the rows of the probe, those of the CALL of GENERATE_SQL, and those of
-- Q_GENSQL behind it.
pub record Live : Type 0 where
  pub columns : Text → Text → Result Text (List LiveColumn)
  pub probe : Text → Result Text (List Row)
  pub generate : Text → Result Text (List Row)
  pub generated : Result Text (List Row)

-- An error of another component among those of the lowering.
abbrev pub of_error : {E A : Type 0} → (E → LoweringError) → Result E A → Result LoweringError A
of_error f (ok a) = ok a
of_error f (err e) = err (f e)

abbrev pub source_of : Row → Option Scalar
source_of row = case_insensitive_value row (codes "SRCDTA")

abbrev pub is_source : Row → Bool
is_source row = elim (source_of row) [ none ↦ false | some value ↦ true ]

-- `.join('\n')`
abbrev pub lines : List Text → Text
lines [] = []
lines (l ∷ []) = l
lines (l ∷ m ∷ ls) = l ++ 10 ∷ lines (m ∷ ls)

unfoldable pub source_text : List Row → Text
source_text rows = trim (lines (map (λ row. trim_end (string_or [] (source_of row))) rows))

-- `\bCREATE\s+OR\s+REPLACE\s+TABLE\b`
abbrev pub create_or_replace : Regex
create_or_replace =
    boundary
    ~ word (codes "create")
    ~ spaces1
    ~ word (codes "or")
    ~ spaces1
    ~ word (codes "replace")
    ~ spaces1
    ~ word (codes "table")
    ~ boundary

-- `statement.slice(match.index)`
abbrev pub from_match : Option (Text × Match) → Option Text
from_match none = none
from_match (some (front, m)) = some (m.matched ++ m.behind)

-- The first statement with a CREATE OR REPLACE TABLE, from there on.
unfoldable pub generated_table : List Text → Option Text
generated_table [] = none
generated_table (statement ∷ statements) = elim (from_match (exec create_or_replace statement)) [
  | none ↦ generated_table statements
  | some sql ↦ some sql
]

-- The end of buildAddNotNullReplacement, from the generated source.
unfoldable pub replacement_of : AddNotNullPlan → Text → List Row → Result LoweringError Text
replacement_of plan current_schema rows =
    elim (generated_table (split_simple_statements (source_text rows))) [
      | none ↦ err (generate_sql_unusable plan)
      | some table ↦ elim (build_add_column table plan current_schema) [
        | none ↦ err (column_not_injected plan)
        | some [] ↦ err (column_not_injected plan)
        | some (c ∷ sql) ↦ ok (c ∷ sql)
      ]
    ]

module _ (live : Live) where
  -- The rows of the CALL, or those of Q_GENSQL where the CALL has returned no source.
  unfoldable pub generated_rows : List Row → Result Text (List Row)
  generated_rows rows = if some_of is_source rows then ok rows else live.generated

  -- buildAddNotNullReplacement(plan)
  unfoldable pub build_replacement : AddNotNullPlan → Text → Result LoweringError Text
  build_replacement plan current_schema =
      of_error generate_sql_failed (live.generate (generate_sql_call plan) >>= generated_rows)
      >>= replacement_of plan current_schema

  -- The probe of the table, and the statement that replaces the ALTER TABLE.
  unfoldable pub add_not_null : AddNotNullPlan → Text → List Row → Result LoweringError Text
  add_not_null plan current_schema [] = build_replacement plan current_schema
  add_not_null plan current_schema (row ∷ rows) = err (table_not_empty plan)

  -- A translated statement, with its plan for a column or none.
  unfoldable pub with_plan :
      Text → Translation → Option AddNotNullPlan → Result LoweringError (Translation × Plan)
  with_plan current_schema t none = ok (t, as_translated)
  with_plan current_schema t (some plan) =
      of_error database (live.probe plan.probe_sql) >>= add_not_null plan current_schema >>= λ sql.
      ok (record t { sql = sql }, column_added plan)

  -- What is made of a translated statement whose foreign keys are aligned.
  unfoldable pub with_added_column : Text → Translation → Result LoweringError (Translation × Plan)
  with_added_column current_schema t =
      with_plan current_schema t (plan_add_not_null t.sql current_schema)
