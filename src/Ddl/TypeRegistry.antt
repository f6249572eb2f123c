-- ===== src/Ddl/TypeRegistry.antt =====
-- DdlForeignKeyTypeRegistry (sql/ddl-foreign-key.ts): the registry of translated column types. Its Map
-- and its transactions are those of Ddl.Registry.
pub mod Align
pub mod Renames
mod Tests
use postgres_mapepire_proxy.Prelude.{
  ℕ, zero, suc, ◌+◌, ◌-◌, ◌==◌, List, [], ◌∷◌, ◌++◌, Bool, true, false, not, Option, none, some,
  ◌&&◌, ◌||◌, if◌then◌else◌, Text, codes, map, length, take, drop, get_elem?,
}
use postgres_mapepire_proxy.Sql.Text.{trim_start, spaces, or_match, ◌>>=◌}
use postgres_mapepire_proxy.Ddl.Registry.{Registry, get, put, delete}
use postgres_mapepire_proxy.Ddl.Names.{
  normalize_upper, Qualified, qualified_upper, name_at, Relation, relation_at,
}
use postgres_mapepire_proxy.Ddl.ColumnTypes.{
  matched, extract_type_prefix, equivalent_type, replace_column_type,
}
use postgres_mapepire_proxy.Ddl.ForeignKeys.{
  ParsedColumn, ParsedForeignKey, ParsedCreateTable, parse_create_table, word_space,
}

-- typeKey(schema, table, column)
unfoldable pub type_key : Text → Text → Text → Text
type_key schema table column =
    normalize_upper schema ++ b'.' ∷ (normalize_upper table ++ b'.' ∷ normalize_upper column)

-- The types of a session: this.types with the snapshot.
abbrev pub Types : Type 0
Types = Registry Text

-- this.types.set(key, type)
abbrev set_type : Text → Text → Types → Types
set_type key type_name r = record r { entries = put key type_name r.entries }

-- getColumnType(tableName, columnName, currentSchema)
unfoldable pub get_column_type : Text → Text → Text → Types → Option Text
get_column_type table_name column current_schema r =
    let table = qualified_upper table_name current_schema in
    get (type_key table.schema table.table column) r.entries

-- A type that a test like `!type` lets through.
abbrev pub known : Option Text → Option Text
known none = none
known (some []) = none
known (some (c ∷ t)) = some (c ∷ t)

-- renameColumn(tableName, oldColumn, newColumn, currentSchema)
unfoldable pub rename_column : Text → Text → Text → Text → Types → Types
rename_column table_name old_column new_column current_schema r =
    let table = qualified_upper table_name current_schema in
    let old_key = type_key table.schema table.table old_column in
    elim (known (get old_key r.entries)) [
      | none ↦ r
      | some type_name ↦ record r {
        entries =
            put (type_key table.schema table.table new_column) type_name (delete old_key r.entries);
      }
    ]

-- key.startsWith(prefix), with key.slice(prefix.length)
unfoldable pub behind : Text → Text → Option Text
behind [] key = some key
behind (p ∷ ps) [] = none
behind (p ∷ ps) (c ∷ key) = if p == c then behind ps key else none

-- The loop over this.types.entries() in renameTable: what stays, and `moved`.
unfoldable pub moved_entries :
    Text → Text → Text → List (Text × Text) → List (Text × Text) × List (Text × Text)
moved_entries prefix schema new_table [] = ([], [])
moved_entries prefix schema new_table ((key, value) ∷ entries) =
    let (stay, moved) = moved_entries prefix schema new_table entries in
    elim (behind prefix key) [
      | none ↦ ((key, value) ∷ stay, moved)
      | some column ↦ (stay, (type_key schema new_table column, value) ∷ moved)
    ]

-- `for (const [key, value] of moved) this.types.set(key, value)`
unfoldable pub put_all : List (Text × Text) → List (Text × Text) → List (Text × Text)
put_all [] entries = entries
put_all ((key, value) ∷ moved) entries = put_all moved (put key value entries)

-- renameTable(tableName, newTable, currentSchema)
unfoldable pub rename_table : Text → Text → Text → Types → Types
rename_table table_name new_table current_schema r =
    let table = qualified_upper table_name current_schema in
    let prefix =
      normalize_upper table.schema ++ b'.' ∷ (normalize_upper table.table ++ b'.' ∷ []) in
    let (stay, moved) = moved_entries prefix table.schema new_table r.entries in
    record r { entries = put_all moved stay }

-- `for (const column of parsed.columns.values()) this.types.set(…)`
unfoldable pub put_columns :
    Text → Text → List (Text × ParsedColumn) → List (Text × Text) → List (Text × Text)
put_columns schema table [] entries = entries
put_columns schema table ((name, column) ∷ columns) entries =
    put_columns schema table columns
      (put (type_key schema table column.name) column.type_name entries)

-- registerCreateTable(sql, currentSchema)
unfoldable pub register_create_table : Text → Text → Types → Types
register_create_table sql current_schema r = elim (parse_create_table sql current_schema) [
  | none ↦ r
  | some parsed ↦ record r {
    entries = put_columns parsed.schema parsed.table parsed.columns r.entries;
  }
]

-- `ALTER TABLE relation` and `\s+`: the relation's text, and what stands behind it.
unfoldable pub alter_head : Text → Option (Text × Text)
alter_head sql = word_space (codes "alter") (trim_start sql) >>= word_space (codes "table") >>= λ r.
    relation_at r >>= λ (relation, rest). spaces rest >>= λ r'. some (matched r rest, r')

-- A name, `\s+` and what stands behind it.
abbrev pub name_space : Text → Option (Text × Text)
name_space s = name_at s >>= λ (name, r). spaces r >>= λ rest. some (name, rest)

-- `ADD\s+(?:COLUMN\s+)?(name)\s+([\s\S]+)$`
unfoldable pub added_column : Text → Option (Text × Text)
added_column s = word_space (codes "add") s >>= λ r.
    or_match (word_space (codes "column") r >>= name_space) (name_space r)

-- `ALTER\s+COLUMN\s+(name)\s+SET\s+DATA\s+TYPE\s+([\s\S]+)$`
unfoldable pub retyped_column : Text → Option (Text × Text)
retyped_column s =
    word_space (codes "alter") s >>= word_space (codes "column") >>= name_space >>= λ (name, r).
    word_space (codes "set") r
    >>= word_space (codes "data")
    >>= word_space (codes "type")
    >>= λ rest. some (name, rest)

-- What both ALTER forms do with the column and its type.
abbrev register_column : Text → Text → Option (Text × Text) → Types → Types
register_column relation current_schema column r =
    let found : Option (Text × Text) = column >>= λ (name, rest). elim (extract_type_prefix rest) [
      | none ↦ none
      | some t ↦ some (name, t)
    ] in
    elim found [
      | none ↦ r
      | some (name, type_name) ↦
          let table = qualified_upper relation current_schema in
          set_type (type_key table.schema table.table name) type_name r
    ]

-- registerAlterAddColumn(sql, currentSchema)
unfoldable pub register_alter_add_column : Text → Text → Types → Types
register_alter_add_column sql current_schema r = elim (alter_head sql) [
  | none ↦ r
  | some (relation, rest) ↦ register_column relation current_schema (added_column rest) r
]

-- registerAlterSetDataType(sql, currentSchema)
unfoldable pub register_alter_set_data_type : Text → Text → Types → Types
register_alter_set_data_type sql current_schema r = elim (alter_head sql) [
  | none ↦ r
  | some (relation, rest) ↦ register_column relation current_schema (retyped_column rest) r
]
