-- ===== src/Ddl/AddColumn.antt =====
-- sql/column-rename.ts: an added column in the stored statement and in a CREATE OR REPLACE TABLE, and
-- the plan for a column that is NOT NULL without a default.
pub mod Laws
use postgres_mapepire_proxy.Prelude.{
  ℕ, ◌==◌, List, [], ◌∷◌, ◌++◌, Bool, true, false, not, ◌&&◌, ◌||◌, if◌then◌else◌, Option, none,
  some, Text, codes, map, text_eq, some_of,
}
use postgres_mapepire_proxy.Sql.Text.{
  trim, double, cut_semicolon, keyword, spaces, upper, is_letter, is_digit, ◌>>=◌,
}
use postgres_mapepire_proxy.Sql.Identifier.{quote_identifier}
use postgres_mapepire_proxy.Sql.Scan.{joined}
use postgres_mapepire_proxy.Ddl.Registry.{Registry, get, put, delete}
use postgres_mapepire_proxy.Ddl.Names.{normalize_identifier}
use postgres_mapepire_proxy.Ddl.ColumnTypes.{word_ends}
use postgres_mapepire_proxy.Ddl.CreateTable.{
  CreateTable, parse_structure, parse_table, rebuild_create, with_head, is_constraint,
  ColumnDefinition, parse_column_definition,
}
use postgres_mapepire_proxy.Ddl.Tables.{Tables, StoredTable, table_key, set_table}
use postgres_mapepire_proxy.Ddl.AlterTable.{
  AddedColumn, parse_add_column, retyped_table, schema_of, table_of,
}

-- `definitions.splice(insertAt, 0, column)`: in front of the first constraint, or at the end.
unfoldable pub insert_column : Text → List Text → List Text
insert_column column [] = column ∷ []
insert_column column (d ∷ ds) =
    let later = d ∷ insert_column column ds in if is_constraint d then column ∷ d ∷ ds else later

-- `${add.columnSql} ${add.definition}`
abbrev pub column_text : Text → Text → Text
column_text column_sql definition = column_sql ++ b' ' ∷ definition

-- registerAlterAddColumn(sql, currentSchema)
unfoldable pub register_add_column : Text → Text → Tables → Tables
register_add_column sql current_schema r =
    let found : Option (Text × StoredTable) = parse_add_column sql current_schema >>= λ add.
    let key = table_key add.schema add.table in
    get key r.entries >>= λ stored. parse_table stored.create_sql current_schema >>= λ parsed.
    some (
      key,
      record stored {
        create_sql =
            rebuild_create parsed
              (insert_column (column_text add.column_sql add.definition) parsed.definitions) false;
      },
    ) in
    elim found [ none ↦ r | some (key, stored) ↦ set_table key stored r ]

-- invalidateAlterSetDataType(sql, currentSchema)
unfoldable pub invalidate_set_data_type : Text → Text → Tables → Tables
invalidate_set_data_type sql current_schema r = elim (retyped_table sql) [
  | none ↦ r
  | some relation ↦ record r {
    entries = delete (table_key (schema_of relation current_schema) (table_of relation)) r.entries;
  }
]

-- AddNotNullColumnPlan
pub record AddNotNullPlan : Type 0 where
  pub schema : Text
  pub table : Text
  pub column : Text
  pub column_sql : Text
  pub definition : Text
  pub translated_alter_sql : Text
  pub probe_sql : Text

-- A pattern between word boundaries, somewhere; the flag says that a word character stands before.
unfoldable pub has_match : (Text → Option Text) → Bool → Text → Bool
has_match p after [] = false
has_match p after (c ∷ s) =
    let later = has_match p (is_letter c || is_digit c || c == b'_') s in
    elim (p (c ∷ s) >>= word_ends) [ none ↦ later | some rest ↦ if after then later else true ]

-- NOT NULL, and none of DEFAULT, GENERATED and IDENTITY.
unfoldable pub is_bare_not_null : Text → Bool
is_bare_not_null definition =
    has_match (λ s. keyword (codes "not") s >>= spaces >>= keyword (codes "null")) false definition
    && not (has_match (keyword (codes "default")) false definition)
    && not (has_match (keyword (codes "generated")) false definition)
    && not (has_match (keyword (codes "identity")) false definition)

abbrev pub added_plan : Text → AddedColumn → AddNotNullPlan
added_plan sql add = record {
  schema = add.schema;
  table = add.table;
  column = normalize_identifier add.column_sql;
  column_sql = add.column_sql;
  definition = add.definition;
  translated_alter_sql = sql;
  probe_sql =
      codes "SELECT 1 AS PROXY_ROW FROM "
      ++ quote_identifier add.schema
      ++ b'.' ∷ quote_identifier add.table
      ++ codes " FETCH FIRST 1 ROW ONLY";
}

-- planAlterTableAddNotNullNoDefault(sql, currentSchema)
unfoldable pub plan_add_not_null : Text → Text → Option AddNotNullPlan
plan_add_not_null sql current_schema = parse_add_column sql current_schema >>= λ add.
    if is_bare_not_null add.definition then some (added_plan sql add) else none

-- sameIdentifier(a, b)
unfoldable pub same_name : Text → Text → Bool
same_name a b = text_eq a b || text_eq (map upper a) (map upper b)

-- Whether a definition is the column of the plan.
abbrev pub has_column : Text → Text → Bool
has_column column definition = elim (parse_column_definition definition) [
  | none ↦ false
  | some found ↦ same_name (normalize_identifier found.name_sql) column
]

-- buildCreateOrReplaceAddColumn(createSql, plan, currentSchema)
unfoldable pub build_add_column : Text → AddNotNullPlan → Text → Option Text
build_add_column create_sql plan current_schema =
    parse_structure create_sql current_schema >>= λ parsed.
    if same_name parsed.schema plan.schema
      && same_name parsed.table plan.table
      && not (some_of (has_column plan.column) parsed.definitions)
    then (let definitions =
          insert_column (column_text plan.column_sql plan.definition) parsed.definitions in
        let suffix = trim (cut_semicolon parsed.suffix) in
        some (
          trim (
            with_head (codes "CREATE OR REPLACE ") parsed.prefix
            ++ b'('
              ∷ (joined definitions ++ b')' ∷ (elim suffix [ [] ↦ [] | c ∷ s ↦ b' ' ∷ c ∷ s ])))))
    else none

-- quoteSqlString(value)
unfoldable pub quote_sql_string : Text → Text
quote_sql_string value = 39 ∷ (double 39 value ++ 39 ∷ [])

-- buildPortableGenerateSqlCall(plan)
unfoldable pub generate_sql_call : AddNotNullPlan → Text
generate_sql_call plan =
    codes "CALL QSYS2.GENERATE_SQL("
    ++ quote_sql_string plan.table
    ++ codes ", "
    ++ quote_sql_string plan.schema
    ++ codes ", 'TABLE', "
    ++ codes "CONSTRAINT_OPTION => '2', CREATE_OR_REPLACE_OPTION => '1')"
