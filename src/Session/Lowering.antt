-- ===== src/Session/Lowering.antt =====
-- executeSql of proxy/session.ts between its firewall and the run of the statement: the index that Db2
-- cannot have, the renames, the added columns and the translation; and what the registries learn where
-- the statement succeeds. What the database answers meanwhile is a parameter.
pub mod Decide
pub mod Learn
pub mod Replacement
pub mod Client
pub mod Plans
pub mod Laws
mod Tests
use postgres_mapepire_proxy.Prelude.{
  ℕ, ltb, List, [], ◌∷◌, ◌++◌, Bool, true, false, not, ◌&&◌, ◌||◌, if◌then◌else◌, Option, none,
  some, Text, codes, map, length, every, some_of,
}
use postgres_mapepire_proxy.Prelude.Results.{Result, ok, err, ◌>>=◌}
use postgres_mapepire_proxy.Sql.Text.{trim, trim_end, upper, is_digit}
use postgres_mapepire_proxy.Sql.Identifier.{quote_identifier}
use postgres_mapepire_proxy.Sql.Split.{split_simple_statements}
use postgres_mapepire_proxy.Sql.Regex.{Regex, ◌~◌, boundary, Match, exec}
use postgres_mapepire_proxy.Sql.Regex.Classes.{word, spaces1}
use postgres_mapepire_proxy.Sql.Translate.{Options, Translation, translate_sql}
use postgres_mapepire_proxy.Sql.Translate.Errors.{TranslateError}
use postgres_mapepire_proxy.Ddl.CreateTable.{is_system_start}
use postgres_mapepire_proxy.Ddl.Tables.{ColumnRename, TableRename, RenamePlan, Tables, plan_rename}
use postgres_mapepire_proxy.Ddl.AlterTable.{parse_rename_column, parse_rename_table}
use postgres_mapepire_proxy.Ddl.AddColumn.{
  AddNotNullPlan, plan_add_not_null, build_add_column, generate_sql_call,
}
use postgres_mapepire_proxy.Sql.LobIndex.{
  PgSimpleIndex, ColumnType, Policy, IndexAction, pass, skip, error,
}
use postgres_mapepire_proxy.Ddl.TypeRegistry.{Types}
use postgres_mapepire_proxy.Ddl.TypeRegistry.Align.{align_create_table}
use postgres_mapepire_proxy.Pool.Capabilities.{Scalar, Row}
use postgres_mapepire_proxy.Session.State.{Kind}
use postgres_mapepire_proxy.Session.Execute.Control.{same_identifier}
use Decide.{LiveColumn, find_column, decide}
use Learn.{Plan, table_renamed, column_renamed, column_added, as_translated}
use Replacement.{
  LoweringError, index_refused, no_column, no_system_name, no_definition, translation, database,
  Live, of_error, with_added_column,
}

-- `/^[A-Z_$#@][A-Z0-9_$#@]{0,9}$/i`
unfoldable pub is_system_name : Text → Bool
is_system_name [] = false
is_system_name (c ∷ s) =
    is_system_start (upper c)
    && every (λ d. is_system_start (upper d) || is_digit d) s
    && ltb (length s) 10

-- `const systemColumnName`, empty where there is none
unfoldable pub system_name_of : LiveColumn → Text → Text
system_name_of column old = elim column.system_name [
  | some name ↦ name
  | none ↦ if is_system_name old then map upper old else []
]

-- The plan of a rename by the system name of its column.
unfoldable pub plan_with : ColumnRename → Tables → Text → Result LoweringError RenamePlan
plan_with rename tables [] = err (no_system_name rename)
plan_with rename tables (c ∷ name) = elim (plan_rename rename (c ∷ name) tables) [
  | none ↦ err (no_definition rename)
  | some plan ↦ ok plan
]

-- The rename of a column of the table as it is in the database.
unfoldable pub plan_column :
    ColumnRename → Tables → List LiveColumn → Result LoweringError RenamePlan
plan_column rename tables columns = elim (find_column rename.old_column columns) [
  | none ↦ err (no_column rename)
  | some column ↦ plan_with rename tables (system_name_of column rename.old_column)
]

-- The session as the lowering reads it: the parser of the classifier, the options of the translation,
-- the policy on indexes, the current schema and the two registries.
pub record Setting : Type 0 where
  pub classify : Text → Kind
  pub options : Options
  pub policy : Policy
  pub current_schema : Text
  pub types : Types
  pub tables : Tables

-- A statement that is not run but acknowledged, or the statement to run and its plan.
pub data Lowering : Type 0 where
  acknowledged : PgSimpleIndex → Lowering
  run_as : Translation → Plan → Lowering

-- A translation that is the statement of a plan.
abbrev pub planned : Kind → Text → Translation
planned kind sql = record { sql = sql; kind = kind; parameter_order = [] }

module _ (live : Live) (setting : Setting) where
  -- The statement as translateSql has it, with its foreign keys aligned.
  unfoldable pub lower_translated : Text → Result LoweringError (Translation × Plan)
  lower_translated sql =
      of_error translation (translate_sql setting.classify sql setting.options) >>= λ t.
      let aligned = align_create_table t.sql setting.current_schema setting.types in
      with_added_column live setting.current_schema (record t { sql = aligned.0 })

  -- A renamed column, or a translated statement.
  unfoldable pub lower_column :
      Text → Option ColumnRename → Result LoweringError (Translation × Plan)
  lower_column sql none = lower_translated sql
  lower_column sql (some rename) =
      of_error database (live.columns rename.schema rename.table)
      >>= plan_column rename setting.tables
      >>= λ plan. ok (planned (setting.classify sql) plan.db2_sql, column_renamed plan)

  -- A renamed table in front of them.
  unfoldable pub lower_table : Text → Option TableRename → Result LoweringError (Translation × Plan)
  lower_table sql none = lower_column sql (parse_rename_column sql setting.current_schema)
  lower_table sql (some request) =
      ok (planned (setting.classify sql) request.db2_sql, table_renamed request)

  -- The try of executeSql around the translation.
  unfoldable pub lower_statement : Text → Result LoweringError (Translation × Plan)
  lower_statement sql = lower_table sql (parse_rename_table sql setting.current_schema)

  -- What follows the decision on an index.
  unfoldable pub lower_decided :
      Text
      → Option (PgSimpleIndex × (IndexAction × List ColumnType))
      → Result LoweringError Lowering
  lower_decided sql (some (index, (error, columns))) =
      err (index_refused index.unique index.index_name (map (λ c. c.column) columns))
  lower_decided sql (some (index, (skip, columns))) = ok (acknowledged index)
  lower_decided sql (some (index, (pass, columns))) =
      lower_statement sql >>= λ (t, plan). ok (run_as t plan)
  lower_decided sql none = lower_statement sql >>= λ (t, plan). ok (run_as t plan)

  -- executeSql from the index decision to the run of the statement.
  unfoldable pub lower_sql : Text → Result LoweringError Lowering
  lower_sql sql =
      of_error database
        (decide live.columns setting.policy setting.types setting.current_schema sql)
      >>= lower_decided sql
