-- ===== src/Session/Lowering/Plans.antt =====
-- The plans of executeSql: what a plan that was made says of its statement.
use postgres_mapepire_proxy.Prelude.{
  ◌++◌, codes, Option-cases, inl, inr, if◌then◌else◌, Bool, true, ◌≡◌, refl, subst, false, List, [],
  ◌∷◌, Option, none, some, Text, arith,
}
use postgres_mapepire_proxy.Prelude.Results.{Result, ok, err}
use postgres_mapepire_proxy.Pool.Capabilities.{Row}
use postgres_mapepire_proxy.Sql.Split.{split_simple_statements}
use postgres_mapepire_proxy.Ddl.Tables.{Tables, ColumnRename, RenamePlan, plan_rename}
use postgres_mapepire_proxy.Ddl.AddColumn.{
  AddNotNullPlan, is_bare_not_null, added_plan, plan_add_not_null, build_add_column,
}
use postgres_mapepire_proxy.Ddl.AlterTable.{AddedColumn, parse_add_column}
use postgres_mapepire_proxy.Ddl.Names.{normalize_identifier}
use postgres_mapepire_proxy.Sql.Regex.Laws.{some-injective}
use postgres_mapepire_proxy.Sql.Identifier.{quote_identifier}
use postgres_mapepire_proxy.Session.Lowering.Decide.{find_column, LiveColumn}
use postgres_mapepire_proxy.Session.Lowering.Replacement.{
  LoweringError, of_error, replacement_of, generated_table, source_text,
}
use postgres_mapepire_proxy.Session.Lowering.{plan_column, plan_with, system_name_of}

-- An error passed on is no success.
pub of_error-ok :
    {E A : Type 0} (f : E → LoweringError) (r : Result E A) {a : A} → of_error f r ≡ ok a → r ≡ ok a
of_error-ok f (ok a) e = cc
of_error-ok f (err x) e = cc

-- What a replacement is made of.
pub replacement_of-ok :
    (plan : AddNotNullPlan) (schema : Text) (rows : List Row) {sql : Text}
    → replacement_of plan schema rows ≡ ok sql
    → (source : Text) × (generated_table (split_simple_statements (source_text rows)) ≡ some source)
      × (build_add_column source plan schema ≡ some sql)
unfolding replacement_of
replacement_of-ok plan schema rows {sql} e =
    on_table (generated_table (split_simple_statements (source_text rows))) refl
  where
    on_built :
        (source : Text)
        → generated_table (split_simple_statements (source_text rows)) ≡ some source
        → (built : Option Text) → build_add_column source plan schema ≡ built
        → (source : Text) × (generated_table (split_simple_statements (source_text rows))
            ≡ some source)
          × (build_add_column source plan schema ≡ some sql)
    on_built source f none g = absurd (ground arith)
    on_built source f (some []) g = absurd (ground arith)
    on_built source f (some (c ∷ built)) g = (source, f, ground arith)

    on_table :
        (table : Option Text)
        → generated_table (split_simple_statements (source_text rows)) ≡ table
        → (source : Text) × (generated_table (split_simple_statements (source_text rows))
            ≡ some source)
          × (build_add_column source plan schema ≡ some sql)
    on_table none f = absurd (ground arith)
    on_table (some source) f = on_built source f (build_add_column source plan schema) refl

-- The plan of a rename is that of planRename for the system name of the column.
pub plan_with-ok :
    (rename : ColumnRename) (tables : Tables) (name : Text) {plan : RenamePlan}
    → plan_with rename tables name ≡ ok plan
    → plan_rename rename name tables ≡ some plan
unfolding plan_with
plan_with-ok rename tables [] e = cc
plan_with-ok rename tables (c ∷ name) {plan} e = go (plan_rename rename (c ∷ name) tables) refl
  where
    go :
        (found : Option RenamePlan)
        → plan_rename rename (c ∷ name) tables ≡ found
        → plan_rename rename (c ∷ name) tables ≡ some plan
    go none f = absurd (ground arith)
    go (some p) f = ground arith

pub plan_column-ok :
    (rename : ColumnRename) (tables : Tables) (columns : List LiveColumn) {plan : RenamePlan}
    → plan_column rename tables columns ≡ ok plan
    → (column : LiveColumn) × (find_column rename.old_column columns ≡ some column)
      × (plan_rename rename (system_name_of column rename.old_column) tables ≡ some plan)
unfolding plan_column
plan_column-ok rename tables columns {plan} e = go (find_column rename.old_column columns) refl
  where
    go :
        (found : Option LiveColumn)
        → find_column rename.old_column columns ≡ found
        → (column : LiveColumn) × (find_column rename.old_column columns ≡ some column)
          × (plan_rename rename (system_name_of column rename.old_column) tables ≡ some plan)
    go none f = absurd (ground arith)
    go (some column) f = (
      column,
      f,
      plan_with-ok rename tables (system_name_of column rename.old_column) (ground arith),
    )

-- The query for one row of a table.
abbrev pub probe_of : Text → Text → Text
probe_of schema table =
    codes "SELECT 1 AS PROXY_ROW FROM "
    ++ quote_identifier schema
    ++ b'.' ∷ quote_identifier table
    ++ codes " FETCH FIRST 1 ROW ONLY"

-- A plan is that of a statement that adds a column which is NOT NULL without a default: of its schema and table, with the name and the
-- definition that the statement gives, and with a probe of that table.
abbrev pub IsAddNotNull : Text → Text → AddNotNullPlan → Type 0
IsAddNotNull sql current_schema plan =
    (add : AddedColumn) × (parse_add_column sql current_schema ≡ some add)
    × (is_bare_not_null add.definition ≡ true)
    × (plan.schema ≡ add.schema)
    × (plan.table ≡ add.table)
    × (plan.column ≡ normalize_identifier add.column_sql)
    × (plan.column_sql ≡ add.column_sql)
    × (plan.definition ≡ add.definition)
    × (plan.translated_alter_sql ≡ sql)
    × (plan.probe_sql ≡ probe_of plan.schema plan.table)

pub added_plan-ok :
    (sql current_schema : Text) (add : AddedColumn) (test : Bool) (plan : AddNotNullPlan)
    → parse_add_column sql current_schema ≡ some add
    → is_bare_not_null add.definition ≡ test
    → (if test then some (added_plan sql add) else none) ≡ some plan
    → IsAddNotNull sql current_schema plan
added_plan-ok sql current_schema add false plan parsed bare e = absurd cc
added_plan-ok sql current_schema add true plan parsed bare e =
    subst (IsAddNotNull sql current_schema) (some-injective e)
      (add, parsed, bare, refl, refl, refl, refl, refl, refl, refl)

pub plan_add_not_null-ok :
    (sql current_schema : Text) (plan : AddNotNullPlan)
    → plan_add_not_null sql current_schema ≡ some plan
    → IsAddNotNull sql current_schema plan
unfolding plan_add_not_null
plan_add_not_null-ok sql current_schema plan e =
    elim (Option-cases (parse_add_column sql current_schema)) [
      | inl none_found ↦ absurd (ground arith)
      | inr (add, parsed) ↦
          added_plan-ok sql current_schema add (is_bare_not_null add.definition) plan parsed refl
            (simp parsed at e)
    ]

pub IsAddNotNull-probe :
    (sql current_schema : Text) (plan : AddNotNullPlan)
    → IsAddNotNull sql current_schema plan
    → plan.probe_sql ≡ probe_of plan.schema plan.table
IsAddNotNull-probe sql schema plan (add, p, b, s, t, c, d, f, a, probe) = probe
