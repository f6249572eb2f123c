-- ===== src/Ddl/Tables.antt =====
-- DdlTableDefinitionRegistry (sql/column-rename.ts): the CREATE TABLE statements that a session has run,
-- and the statements that rename a column or a table of theirs. Its Map and its transactions are those
-- of Ddl.Registry; every statement is stored by value, so that a clone of the Map is the Map.
use postgres_mapepire_proxy.Prelude.{
  ℕ, suc, ◌==◌, List, [], ◌∷◌, ◌++◌, Bool, true, false, if◌then◌else◌, Option, none, some, Text,
  codes, text_eq,
}
use postgres_mapepire_proxy.Sql.Text.{◌>>=◌}
use postgres_mapepire_proxy.Sql.Identifier.{quote_identifier}
use postgres_mapepire_proxy.Ddl.Registry.{Registry, get, put, delete}
use postgres_mapepire_proxy.Ddl.Names.{normalize_identifier, qualified_name}
use postgres_mapepire_proxy.Ddl.References.{replace_identifier_references}
use postgres_mapepire_proxy.Ddl.CreateTable.{
  CreateTable, parse_table, canonical_create_table, rebuild_create, parse_column_definition,
  render_system_identifier, replace_relation,
}

pub record StoredTable : Type 0 where
  pub schema : Text
  pub table : Text
  pub create_sql : Text

abbrev pub Tables : Type 0
Tables = Registry StoredTable

-- tableKey(schema, table)
unfoldable pub table_key : Text → Text → Text
table_key schema table = normalize_identifier schema ++ b'.' ∷ normalize_identifier table

abbrev pub set_table : Text → StoredTable → Tables → Tables
set_table key stored r = record r { entries = put key stored r.entries }

-- registerCreateTable(sql, currentSchema)
unfoldable pub register_table : Text → Text → Tables → Tables
register_table sql current_schema r = elim (parse_table sql current_schema) [
  | none ↦ r
  | some parsed ↦
      set_table (table_key parsed.schema parsed.table)
        (record {
          schema = parsed.schema;
          table = parsed.table;
          create_sql = canonical_create_table sql;
        })
        r
]

-- PgColumnRename, as far as the plan reads it
pub record ColumnRename : Type 0 where
  pub schema : Text
  pub table : Text
  pub old_column : Text
  pub new_column : Text
  pub new_column_sql : Text

-- PgTableRename, without the text that it is made of
pub record TableRename : Type 0 where
  pub schema : Text
  pub table : Text
  pub new_table : Text
  pub new_table_sql : Text
  pub db2_sql : Text

-- ColumnRenamePlan
pub record RenamePlan : Type 0 where
  pub request : ColumnRename
  pub system_column_name : Text
  pub db2_sql : Text
  pub stored_create_sql : Text

-- What planRename makes of one definition, and whether it is the column.
unfoldable pub rename_definition : ColumnRename → Text → Text → Text × Bool
rename_definition request system_name definition =
    let old = normalize_identifier request.old_column in
    let others : Text × Bool =
      (replace_identifier_references old request.new_column_sql definition, false) in
    elim (parse_column_definition definition) [
      | none ↦ others
      | some column ↦
          if text_eq (normalize_identifier column.name_sql) old
          then (
            column.leading
                ++ request.new_column_sql
                ++ (if text_eq (normalize_identifier request.new_column_sql)
                      (normalize_identifier system_name)
                    then []
                    else codes " FOR COLUMN " ++ render_system_identifier system_name)
                ++ b' ' ∷ replace_identifier_references old request.new_column_sql column.rest,
            true,
          )
          else others
    ]

-- The map over the definitions from an index on: the definitions and `target`, the last one found.
unfoldable pub rename_definitions :
    ColumnRename → Text → ℕ → List Text → Option ℕ → List Text × Option ℕ
rename_definitions request system_name index [] target = ([], target)
rename_definitions request system_name index (definition ∷ rest) target =
    let (renamed, found) = rename_definition request system_name definition in
    let (definitions, last) =
      rename_definitions request system_name (suc index) rest
        (if found then some index else target) in
    (renamed ∷ definitions, last)

-- Whether a column other than the target has the new name, from an index on.
unfoldable pub name_taken : Text → ℕ → ℕ → List Text → Bool
name_taken new target index [] = false
name_taken new target index (definition ∷ rest) =
    let more = name_taken new target (suc index) rest in
    if index == target then more else elim (parse_column_definition definition) [
      | none ↦ more
      | some column ↦ if text_eq (normalize_identifier column.name_sql) new then true else more
    ]

-- The rest of planRename, with the stored statement parsed.
unfoldable pub plan_of : ColumnRename → Text → CreateTable → Option RenamePlan
plan_of request system_name parsed =
    let (definitions, target) = rename_definitions request system_name 0 parsed.definitions none in
    elim target [
      | none ↦ none
      | some index ↦
          if name_taken (normalize_identifier request.new_column) index 0 parsed.definitions
          then none
          else some (record {
            request = request;
            system_column_name = system_name;
            db2_sql = rebuild_create parsed definitions true;
            stored_create_sql = rebuild_create parsed definitions false;
          })
    ]

-- planRename(request, systemColumnName)
unfoldable pub plan_rename : ColumnRename → Text → Tables → Option RenamePlan
plan_rename request system_name r =
    get (table_key request.schema request.table) r.entries >>= λ stored.
    parse_table stored.create_sql request.schema >>= plan_of request system_name

-- commitRename(plan)
unfoldable pub commit_rename : RenamePlan → Tables → Tables
commit_rename plan r =
    set_table (table_key plan.request.schema plan.request.table)
      (record {
        schema = plan.request.schema;
        table = plan.request.table;
        create_sql = plan.stored_create_sql;
      })
      r

-- The statement under the table's new name, where renameTable can make one.
unfoldable pub moved_sql : TableRename → Tables → Option Text
moved_sql request r = get (table_key request.schema request.table) r.entries >>= λ stored.
    parse_table stored.create_sql request.schema >>= λ parsed.
    elim (replace_relation stored.create_sql
      (quote_identifier request.schema ++ b'.' ∷ request.new_table_sql)) [
        | none ↦ none
        | some [] ↦ none
        | some (c ∷ sql) ↦ some (c ∷ sql)
      ]

-- renameTable(request)
unfoldable pub rename_stored : TableRename → Tables → Bool × Tables
rename_stored request r = elim (moved_sql request r) [
  | none ↦ (false, r)
  | some sql ↦ (
    true,
    record r {
      entries =
          put (table_key request.schema request.new_table)
            (record { schema = request.schema; table = request.new_table; create_sql = sql })
            (delete (table_key request.schema request.table) r.entries);
    },
  )
]

-- hasTable(tableName, currentSchema)
unfoldable pub has_table : Text → Text → Tables → Bool
has_table table_name current_schema r =
    let qualified = qualified_name table_name current_schema in
    elim (get (table_key qualified.schema qualified.table) r.entries) [
      | none ↦ false
      | some stored ↦ true
    ]
