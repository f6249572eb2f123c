-- ===== src/Ddl/AlterTable.antt =====
-- sql/column-rename.ts: the ALTER TABLE statements that rename a column or a table, add a column or
-- change a column's type.
use mathlib.Core.List.{reverse}
use postgres_mapepire_proxy.Prelude.{
  ◌==◌, ltb, [], ◌∷◌, ◌++◌, Bool, true, false, ◌&&◌, if◌then◌else◌, Option, none, some, Text, codes,
  length,
}
use postgres_mapepire_proxy.Sql.Text.{trim, trim_start, keyword, spaces, or_match, ◌>>=◌}
use postgres_mapepire_proxy.Ddl.Names.{normalize_identifier, name_at, Relation, relation_at}
use postgres_mapepire_proxy.Ddl.ColumnTypes.{word_ends}
use postgres_mapepire_proxy.Ddl.ForeignKeys.{word_space}
use postgres_mapepire_proxy.Ddl.TypeRegistry.{name_space}
use postgres_mapepire_proxy.Ddl.CreateTable.{render_sql_identifier}
use postgres_mapepire_proxy.Ddl.Tables.{ColumnRename, TableRename}

-- `^\s*ALTER\s+TABLE\s+` and a relation, with the white space behind it.
unfoldable pub alter_relation : Text → Option (Relation × Text)
alter_relation sql =
    word_space (codes "alter") (trim_start sql) >>= word_space (codes "table") >>= λ r.
    relation_at r >>= λ (relation, rest). spaces rest >>= λ behind. some (relation, behind)

-- `\s*;?\s*$`
unfoldable pub at_end : Text → Bool
at_end s = elim (trim_start s) [
  | [] ↦ true
  | c ∷ rest ↦ c == b';' && elim (trim_start rest) [ [] ↦ true | d ∷ t ↦ false ]
]

-- `second ? first : currentSchema` and `second ?? first`, normalized.
unfoldable pub schema_of : Relation → Text → Text
schema_of relation current_schema = elim relation.second [
  | none ↦ normalize_identifier current_schema
  | some second ↦ normalize_identifier relation.first
]

unfoldable pub table_of : Relation → Text
table_of relation = elim relation.second [
  | none ↦ normalize_identifier relation.first
  | some second ↦ normalize_identifier second
]

-- `second ? first.second : first`, as the statement has them.
unfoldable pub relation_sql : Relation → Text
relation_sql relation = elim relation.second [
  | none ↦ relation.first
  | some second ↦ relation.first ++ b'.' ∷ second
]

-- `(name)\s+TO\s+(name)\s*;?\s*$`
unfoldable pub renamed_names : Text → Option (Text × Text)
renamed_names s = name_space s >>= λ (old, r).
    word_space (codes "to") r >>= name_at >>= λ (new, rest).
    if at_end rest then some (old, new) else none

-- parsePgAlterTableRenameColumn(sql, currentSchema)
unfoldable pub parse_rename_column : Text → Text → Option ColumnRename
parse_rename_column sql current_schema = alter_relation sql >>= λ (relation, r).
    word_space (codes "rename") r >>= λ t.
    or_match (word_space (codes "column") t >>= renamed_names) (renamed_names t) >>= λ (old, new).
    some (record {
      schema = schema_of relation current_schema;
      table = table_of relation;
      old_column = normalize_identifier old;
      new_column = normalize_identifier new;
      new_column_sql = render_sql_identifier new;
    })

-- parsePgAlterTableRenameTable(sql, currentSchema)
unfoldable pub parse_rename_table : Text → Text → Option TableRename
parse_rename_table sql current_schema = alter_relation sql >>= λ (relation, r).
    word_space (codes "rename") r >>= word_space (codes "to") >>= name_at >>= λ (new, rest).
    if at_end rest
    then some (record {
      schema = schema_of relation current_schema;
      table = table_of relation;
      new_table = normalize_identifier new;
      new_table_sql = render_sql_identifier new;
      db2_sql =
          codes "RENAME TABLE "
          ++ relation_sql relation
          ++ codes " TO "
          ++ render_sql_identifier new;
    })
    else none

pub record AddedColumn : Type 0 where
  pub schema : Text
  pub table : Text
  pub column_sql : Text
  pub definition : Text

-- A text read backwards, without `\s*;?\s*` in front.
unfoldable pub without_end : Text → Text
without_end s = elim (trim_start s) [
  | [] ↦ []
  | c ∷ rest ↦ if c == b';' then trim_start rest else c ∷ rest
]

-- `\s+([\s\S]+?)\s*;?\s*$`, the group trimmed: it has a character, also where all could be left out.
unfoldable pub definition_at : Text → Option Text
definition_at s = spaces s >>= λ rest. elim rest [
  | [] ↦ if ltb 1 (length s) then some [] else none
  | c ∷ t ↦ elim (without_end (reverse (c ∷ t))) [
    | [] ↦ some (trim (c ∷ []))
    | d ∷ r ↦ some (trim (reverse (d ∷ r)))
  ]
]

-- A name and a definition.
unfoldable pub column_at : Text → Option (Text × Text)
column_at s = name_at s >>= λ (name, r). definition_at r >>= λ definition. some (name, definition)

-- parseAlterAddColumn(sql, currentSchema)
unfoldable pub parse_add_column : Text → Text → Option AddedColumn
parse_add_column sql current_schema = alter_relation sql >>= λ (relation, r).
    word_space (codes "add") r >>= λ t.
    or_match (word_space (codes "column") t >>= column_at) (column_at t) >>= λ (name, definition).
    some (record {
      schema = schema_of relation current_schema;
      table = table_of relation;
      column_sql = name;
      definition = definition;
    })

-- The pattern of invalidateAlterSetDataType: its relation.
unfoldable pub retyped_table : Text → Option Relation
retyped_table sql = alter_relation sql >>= λ (relation, r).
    word_space (codes "alter") r >>= word_space (codes "column") >>= name_space >>= λ (name, t).
    word_space (codes "set") t
    >>= word_space (codes "data")
    >>= keyword (codes "type")
    >>= word_ends
    >>= λ rest. some relation
