-- ===== src/Session/Lowering/Learn.antt =====
-- What the two DDL registries of a session learn from a statement that has succeeded.
use postgres_mapepire_proxy.Prelude.{◌∷◌, ◌++◌, Text}
use postgres_mapepire_proxy.Ddl.Tables.{
  TableRename, RenamePlan, Tables, register_table, commit_rename, rename_stored,
}
use postgres_mapepire_proxy.Ddl.AddColumn.{
  AddNotNullPlan, register_add_column, invalidate_set_data_type,
}
use postgres_mapepire_proxy.Ddl.TypeRegistry.{
  Types, rename_column, rename_table, register_create_table, register_alter_add_column,
  register_alter_set_data_type,
}

-- The plan that executeSql runs: `tableRename`, `columnRenamePlan`, `addNotNullPlan`, or none of them.
pub data Plan : Type 0 where
  table_renamed : TableRename → Plan
  column_renamed : RenamePlan → Plan
  column_added : AddNotNullPlan → Plan
  as_translated : Plan

-- ddlForeignKeyTypes behind a statement, with its translated text and the current schema.
unfoldable pub learn_types : Plan → Text → Text → Types → Types
learn_types (table_renamed request) sql schema types =
    rename_table (request.schema ++ b'.' ∷ request.table) request.new_table schema types
learn_types (column_renamed plan) sql schema types =
    rename_column (plan.request.schema ++ b'.' ∷ plan.request.table) plan.request.old_column
      plan.request.new_column schema types
learn_types (column_added plan) sql schema types =
    register_alter_add_column plan.translated_alter_sql schema types
learn_types as_translated sql schema types =
    register_alter_set_data_type sql schema
      (register_alter_add_column sql schema (register_create_table sql schema types))

-- ddlTableDefinitions behind it.
unfoldable pub learn_tables : Plan → Text → Text → Tables → Tables
learn_tables (table_renamed request) sql schema tables = (rename_stored request tables).1
learn_tables (column_renamed plan) sql schema tables = commit_rename plan tables
learn_tables (column_added plan) sql schema tables =
    register_add_column plan.translated_alter_sql schema tables
learn_tables as_translated sql schema tables =
    invalidate_set_data_type sql schema
      (register_add_column sql schema (register_table sql schema tables))
