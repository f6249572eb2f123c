-- ===== src/Session/Lowering/Laws.antt =====
-- What the lowering of a statement has made sure of.
use postgres_mapepire_proxy.Prelude.{
  sym, ◌≡◌, refl, ap, subst, ◌∙◌, false, List, [], ◌∷◌, Option, none, some, Text,
}
use postgres_mapepire_proxy.Prelude.Results.{ok, ◌>>=◌, bind-succeeds, ok-injective}
use postgres_mapepire_proxy.Sql.Translate.{Translation, translate_sql}
use postgres_mapepire_proxy.Sql.LobIndex.{
  PgSimpleIndex, ColumnType, skip_index, IndexAction, pass, skip, error, parse_simple_create_index,
  decide_lob_index,
}
use postgres_mapepire_proxy.Sql.LobIndex.Laws.{decide-skip}
use postgres_mapepire_proxy.Pool.Capabilities.{Row}
use postgres_mapepire_proxy.Sql.Split.{split_simple_statements}
use postgres_mapepire_proxy.Ddl.Tables.{ColumnRename, TableRename, plan_rename}
use postgres_mapepire_proxy.Ddl.AddColumn.{
  AddNotNullPlan, plan_add_not_null, generate_sql_call, build_add_column,
}
use postgres_mapepire_proxy.Ddl.AlterTable.{parse_rename_column, parse_rename_table}
use postgres_mapepire_proxy.Ddl.TypeRegistry.Align.{align_create_table}
use postgres_mapepire_proxy.Session.Lowering.Decide.{
  find_column, decide, decide_index, column_types, index_schema, LiveColumn,
}
use postgres_mapepire_proxy.Session.Lowering.Learn.{
  Plan, table_renamed, column_renamed, column_added, as_translated,
}
use postgres_mapepire_proxy.Session.Lowering.Replacement.{
  generate_sql_failed, Live, of_error, translation, database, replacement_of, build_replacement,
  generated_rows, generated_table, source_text, add_not_null, with_plan, with_added_column,
}
use postgres_mapepire_proxy.Session.Lowering.{
  Setting, Lowering, acknowledged, run_as, lower_translated, lower_column, lower_table, planned,
  lower_statement, lower_decided, lower_sql, plan_column, system_name_of,
}
use postgres_mapepire_proxy.Session.Lowering.Plans.{
  of_error-ok, replacement_of-ok, plan_column-ok, plan_add_not_null-ok, IsAddNotNull-probe,
  probe_of, IsAddNotNull,
}

module _ (live : Live) (setting : Setting) where
  -- What must hold of the statement that is run, by its plan.
  abbrev pub IsPlanned : Text → Translation → Plan → Type 0
  IsPlanned sql t (table_renamed request) =
      (parse_rename_table sql setting.current_schema ≡ some request) × (t.sql ≡ request.db2_sql)
  IsPlanned sql t (column_renamed plan) =
      (rename : ColumnRename) × (columns : List LiveColumn) × (column : LiveColumn)
      × (parse_rename_column sql setting.current_schema ≡ some rename)
      × (live.columns rename.schema rename.table ≡ ok columns)
      × (find_column rename.old_column columns ≡ some column)
      × (plan_rename rename (system_name_of column rename.old_column) setting.tables ≡ some plan)
      × (t.sql ≡ plan.db2_sql)
  IsPlanned sql t (column_added plan) =
      (u : Translation) × (translate_sql setting.classify sql setting.options ≡ ok u)
      × IsAddNotNull (align_create_table u.sql setting.current_schema setting.types).0
          setting.current_schema plan
      × (live.probe (probe_of plan.schema plan.table) ≡ ok [])
      × (rows : List Row) × (source : Text) × ((live.generate (generate_sql_call plan)
            >>= generated_rows live)
          ≡ ok rows)
      × (generated_table (split_simple_statements (source_text rows)) ≡ some source)
      × (build_add_column source plan setting.current_schema ≡ some t.sql)
  IsPlanned sql t as_translated =
      (u : Translation) × (translate_sql setting.classify sql setting.options ≡ ok u)
      × (t.sql ≡ (align_create_table u.sql setting.current_schema setting.types).0)
      × (plan_add_not_null t.sql setting.current_schema ≡ none)

  -- An index is acknowledged, without being created, only where it is not unique, the policy says so,
  -- and a statement runs only by its plan.
  abbrev pub IsJustified : Text → Lowering → Type 0
  IsJustified sql (acknowledged index) =
      (parse_simple_create_index sql ≡ some index)
      × (index.unique ≡ false)
      × (setting.policy ≡ skip_index)
  IsJustified sql (run_as t plan) = IsPlanned sql t plan

  -- The replacement of an added column.
  add_not_null-ok :
      (plan : AddNotNullPlan) (found : List Row) {sql : Text}
      → add_not_null live plan setting.current_schema found ≡ ok sql
      → (found ≡ [])
        × (rows : List Row) × (source : Text) × ((live.generate (generate_sql_call plan)
              >>= generated_rows live)
            ≡ ok rows)
        × (generated_table (split_simple_statements (source_text rows)) ≡ some source)
        × (build_add_column source plan setting.current_schema ≡ some sql)
  unfolding add_not_null build_replacement
  add_not_null-ok plan (row ∷ found) e = cc
  add_not_null-ok plan [] e =
      let (rows, f, g) =
        bind-succeeds
          (of_error generate_sql_failed
            (live.generate (generate_sql_call plan) >>= generated_rows live))
          (replacement_of plan setting.current_schema) e in
      let (source, h, i) = replacement_of-ok plan setting.current_schema rows g in
      (refl, rows, source, of_error-ok generate_sql_failed _ f, h, i)

  -- The statement of a plan for a column, or of none.
  with_plan-ok :
      (sql : Text) (u aligned : Translation) (added : Option AddNotNullPlan)
      (outcome : Translation × Plan)
      → translate_sql setting.classify sql setting.options ≡ ok u
      → aligned.sql ≡ (align_create_table u.sql setting.current_schema setting.types).0
      → plan_add_not_null aligned.sql setting.current_schema ≡ added
      → with_plan live setting.current_schema aligned added ≡ ok outcome
      → IsPlanned sql outcome.0 outcome.1
  unfolding with_plan
  with_plan-ok sql u aligned none outcome translated same made e =
      subst (λ (o : Translation × Plan). IsPlanned sql o.0 o.1) (ok-injective refl e)
        (u, translated, same, made)
  with_plan-ok sql u aligned (some plan) outcome translated same made e =
      let (replaced, f, g) =
        bind-succeeds
          (of_error database (live.probe plan.probe_sql)
            >>= add_not_null live plan setting.current_schema)
          (λ sql'. ok (record aligned { sql = sql' }, column_added plan)) e in
      let (found, h, i) =
        bind-succeeds (of_error database (live.probe plan.probe_sql))
          (add_not_null live plan setting.current_schema) f in
      let asked = plan_add_not_null-ok aligned.sql setting.current_schema plan made in
      let (none_found, rows, source, generated, table, built) = add_not_null-ok plan found i in
      subst (λ (o : Translation × Plan). IsPlanned sql o.0 o.1) (ok-injective refl g)
        (
          u,
          translated,
          subst (λ x. IsAddNotNull x setting.current_schema plan) same asked,
          sym (ap live.probe (IsAddNotNull-probe aligned.sql setting.current_schema plan asked))
              ∙ of_error-ok database _ h
              ∙ ap ok none_found,
          rows,
          source,
          generated,
          table,
          built,
        )

  lower_translated-ok :
      (sql : Text) (outcome : Translation × Plan)
      → lower_translated live setting sql ≡ ok outcome
      → IsPlanned sql outcome.0 outcome.1
  unfolding lower_translated with_added_column
  lower_translated-ok sql outcome e =
      let (u, f, g) =
        bind-succeeds (of_error translation (translate_sql setting.classify sql setting.options)) _
          e in
      with_plan-ok sql u _ _ outcome (of_error-ok translation _ f) refl refl g

  lower_column-ok :
      (sql : Text) (rename : Option ColumnRename) (outcome : Translation × Plan)
      → parse_rename_column sql setting.current_schema ≡ rename
      → lower_column live setting sql rename ≡ ok outcome
      → IsPlanned sql outcome.0 outcome.1
  unfolding lower_column
  lower_column-ok sql none outcome parsed e = lower_translated-ok sql outcome e
  lower_column-ok sql (some rename) outcome parsed e =
      let (plan, f, g) =
        bind-succeeds
          (of_error database (live.columns rename.schema rename.table)
            >>= plan_column rename setting.tables)
          (λ p. ok (planned (setting.classify sql) p.db2_sql, column_renamed p)) e in
      let (columns, h, i) =
        bind-succeeds (of_error database (live.columns rename.schema rename.table))
          (plan_column rename setting.tables) f in
      let (column, found, made) = plan_column-ok rename setting.tables columns i in
      subst (λ (o : Translation × Plan). IsPlanned sql o.0 o.1) (ok-injective refl g)
        (rename, columns, column, parsed, of_error-ok database _ h, found, made, refl)

  lower_table-ok :
      (sql : Text) (request : Option TableRename) (outcome : Translation × Plan)
      → parse_rename_table sql setting.current_schema ≡ request
      → lower_table live setting sql request ≡ ok outcome
      → IsPlanned sql outcome.0 outcome.1
  unfolding lower_table
  lower_table-ok sql none outcome parsed e = lower_column-ok sql _ outcome refl e
  lower_table-ok sql (some request) outcome parsed e =
      subst (λ (o : Translation × Plan). IsPlanned sql o.0 o.1) (ok-injective refl e) (parsed, refl)

  run_as-ok :
      (sql : Text) (lowering : Lowering)
      → (lower_statement live setting sql >>= λ (t, plan). ok (run_as t plan)) ≡ ok lowering
      → IsJustified sql lowering
  unfolding lower_statement
  run_as-ok sql lowering e =
      let (outcome, f, g) =
        bind-succeeds (lower_statement live setting sql) (λ (t, plan). ok (run_as t plan)) e in
      subst (IsJustified sql) (ok-injective refl g) (lower_table-ok sql _ outcome refl f)

  -- What follows the decision on an index.
  lower_decided-ok :
      (sql : Text) (index : PgSimpleIndex) (found : List ColumnType) (lowering : Lowering)
      (decision : IndexAction × List ColumnType)
      → parse_simple_create_index sql ≡ some index
      → decide_lob_index index found setting.policy ≡ decision
      → lower_decided live setting sql (some (index, decision)) ≡ ok lowering
      → IsJustified sql lowering
  unfolding lower_decided
  lower_decided-ok sql index found lowering (error, columns) parsed decided e = cc
  lower_decided-ok sql index found lowering (pass, columns) parsed decided e =
      run_as-ok sql lowering e
  lower_decided-ok sql index found lowering (skip, columns) parsed decided e =
      let (common, skipped, lobs) =
        decide-skip index found setting.policy (ap (λ d. d.0) decided) in
      subst (IsJustified sql) (ok-injective refl e) (parsed, common, skipped)

  decide_index-ok :
      (sql : Text) (index : Option PgSimpleIndex) (lowering : Lowering)
      → parse_simple_create_index sql ≡ index
      → (of_error database
            (decide_index live.columns setting.policy setting.types setting.current_schema index)
          >>= lower_decided live setting sql)
        ≡ ok lowering
      → IsJustified sql lowering
  unfolding decide_index lower_decided
  decide_index-ok sql none lowering parsed e = run_as-ok sql lowering e
  decide_index-ok sql (some index) lowering parsed e =
      let (decision, f, g) =
        bind-succeeds
          (of_error database (
            decide_index live.columns setting.policy setting.types setting.current_schema
              (some index)))
          (lower_decided live setting sql) e in
      let (found, h, i) =
        bind-succeeds
          (column_types live.columns setting.types
            (index_schema live.columns setting.current_schema index) index)
          (λ found. ok (some (index, decide_lob_index index found setting.policy)))
          (of_error-ok database _ f) in
      lower_decided-ok sql index found lowering _ parsed refl
        (ap (lower_decided live setting sql) (ok-injective refl i) ∙ g)

  -- Where a statement is lowered, its plan allows it: an index is acknowledged without being created
  -- only where it is not unique and the policy says so; a table is renamed as the statement says; a
  -- column is renamed only where the table has it and the session its definition; a column that is NOT
  -- NULL without a default is added only to a table without rows, by its generated definition; and
  -- what else is run is the translation of the statement, with its foreign keys aligned.
  pub lower_sql-IsJustified :
      (sql : Text) (lowering : Lowering)
      → lower_sql live setting sql ≡ ok lowering
      → IsJustified sql lowering
  unfolding lower_sql decide
  lower_sql-IsJustified sql lowering e = decide_index-ok sql _ lowering refl e
