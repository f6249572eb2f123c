-- ===== src/Session/Rows/Keys.antt =====
-- The rows of fetchIbmiForeignKeys and fetchIbmiKeyConstraints: one row for each column of a
-- constraint, gathered by the constraint in the order of their first rows.
use postgres_mapepire_proxy.Prelude.{
  List, [], ◌∷◌, ◌++◌, Bool, ◌&&◌, ◌||◌, if◌then◌else◌, Option, none, some, Text, codes, map,
  text_eq,
}
use postgres_mapepire_proxy.Sql.Text.{upper}
use postgres_mapepire_proxy.Ddl.Registry.{get, put}
use postgres_mapepire_proxy.Pool.Capabilities.{Row}
use postgres_mapepire_proxy.Session.Rows.{text_at, nullable_at, filter, is_filled}

-- IbmiForeignKeyRow
pub record IbmiForeignKey : Type 0 where
  pub constraint_schema : Text
  pub constraint_name : Text
  pub table_schema : Text
  pub table_name : Text
  pub columns : List Text
  pub referenced_schema : Text
  pub referenced_table : Text
  pub referenced_columns : List Text
  pub update_rule : Option Text
  pub delete_rule : Option Text

-- `${constraintSchema}\\u0000${constraintName}`
abbrev pub constraint_key : Row → Text
constraint_key row =
    text_at row (codes "CONSTRAINT_SCHEMA") ++ 0 ∷ text_at row (codes "CONSTRAINT_NAME")

-- The constraint of its first row, without columns.
unfoldable pub foreign_key_of : Row → IbmiForeignKey
foreign_key_of row = record {
  constraint_schema = text_at row (codes "CONSTRAINT_SCHEMA");
  constraint_name = text_at row (codes "CONSTRAINT_NAME");
  table_schema = text_at row (codes "TABLE_SCHEMA");
  table_name = text_at row (codes "TABLE_NAME");
  columns = [];
  referenced_schema = text_at row (codes "REFERENCED_TABLE_SCHEMA");
  referenced_table = text_at row (codes "REFERENCED_TABLE_NAME");
  referenced_columns = [];
  update_rule = nullable_at row (codes "UPDATE_RULE");
  delete_rule = nullable_at row (codes "DELETE_RULE");
}

-- `grouped.get(key)`, or the item that is made
abbrev pub or_new {ℓ} : {A : Type ℓ} → Option A → A → A
or_new none item = item
or_new (some found) item = found

-- `if (column) columns.push(column)`
abbrev pub pushed : List Text → Option Text → List Text
pushed columns none = columns
pushed columns (some column) = columns ++ column ∷ []

-- The loop over the rows of fetchIbmiForeignKeys.
unfoldable pub group_foreign_keys :
    List Row → List (Text × IbmiForeignKey) → List (Text × IbmiForeignKey)
group_foreign_keys [] grouped = grouped
group_foreign_keys (row ∷ rows) grouped =
    let key = constraint_key row in
    let item = or_new (get key grouped) (foreign_key_of row) in
    group_foreign_keys rows (
      put key
        (record item {
          columns = pushed item.columns (nullable_at row (codes "FK_COLUMN"));
          referenced_columns =
              pushed item.referenced_columns (nullable_at row (codes "REFERENCED_COLUMN"));
        })
        grouped)

-- fetchIbmiForeignKeys, from the rows of its query
unfoldable pub foreign_keys_of : List Row → List IbmiForeignKey
foreign_keys_of rows =
    filter
      (λ k. is_filled k.constraint_name && is_filled k.table_name && is_filled k.referenced_table)
      (map (λ (key, item). item) (group_foreign_keys rows []))

-- IbmiKeyConstraintRow
pub record IbmiKeyConstraint : Type 0 where
  pub constraint_schema : Text
  pub constraint_name : Text
  pub constraint_type : Text
  pub table_schema : Text
  pub table_name : Text
  pub columns : List Text

abbrev pub type_of : Row → Text
type_of row = map upper (text_at row (codes "CONSTRAINT_TYPE"))

unfoldable pub key_constraint_of : Row → IbmiKeyConstraint
key_constraint_of row = record {
  constraint_schema = text_at row (codes "CONSTRAINT_SCHEMA");
  constraint_name = text_at row (codes "CONSTRAINT_NAME");
  constraint_type = type_of row;
  table_schema = text_at row (codes "TABLE_SCHEMA");
  table_name = text_at row (codes "TABLE_NAME");
  columns = [];
}

abbrev pub is_key_type : Text → Bool
is_key_type t = text_eq t (codes "PRIMARY KEY") || text_eq t (codes "UNIQUE")

-- The loop over the rows of fetchIbmiKeyConstraints.
unfoldable pub group_key_constraints :
    List Row → List (Text × IbmiKeyConstraint) → List (Text × IbmiKeyConstraint)
group_key_constraints [] grouped = grouped
group_key_constraints (row ∷ rows) grouped =
    let key = constraint_key row in
    let item = or_new (get key grouped) (key_constraint_of row) in
    let column = nullable_at row (codes "COLUMN_NAME") in
    let more =
      group_key_constraints rows
        (put key (record item { columns = pushed item.columns column }) grouped) in
    let less = group_key_constraints rows grouped in
    if is_key_type (type_of row) then more else less

-- fetchIbmiKeyConstraints, from the rows of its query
unfoldable pub key_constraints_of : List Row → List IbmiKeyConstraint
key_constraints_of rows = map (λ (key, item). item) (group_key_constraints rows [])
