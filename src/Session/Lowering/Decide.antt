-- ===== src/Session/Lowering/Decide.antt =====
-- The decision on an index in executeSql: the types of its columns, from the registry or else from the
-- catalogue of IBM i, and decideLobIndexCompatibility.
use postgres_mapepire_proxy.Prelude.{List, [], ◌∷◌, ◌++◌, Option, none, some, if◌then◌else◌, Text}
use postgres_mapepire_proxy.Prelude.Results.{Result, ok, ◌>>=◌}
use postgres_mapepire_proxy.Ddl.TypeRegistry.{Types, get_column_type, known}
use postgres_mapepire_proxy.Sql.LobIndex.{
  PgSimpleIndex, ColumnType, Policy, IndexAction, parse_simple_create_index, decide_lob_index,
}
use postgres_mapepire_proxy.Session.Execute.Control.{same_identifier}

-- IbmiColumnRow, as far as executeSql reads it
pub record LiveColumn : Type 0 where
  pub name : Text
  pub system_name : Option Text
  pub data_type : Text

-- columns.find((candidate) => sameSqlIdentifier(candidate.name, column))
unfoldable pub find_column : Text → List LiveColumn → Option LiveColumn
find_column column [] = none
find_column column (c ∷ cs) =
    if same_identifier c.name column then some c else find_column column cs

-- The columns that the registry knows, with their types, and the unresolved ones.
unfoldable pub registered_types : Text → Text → Types → List Text → List ColumnType × List Text
registered_types schema table types [] = ([], [])
registered_types schema table types (column ∷ columns) =
    let (found, unresolved) = registered_types schema table types columns in
    elim (known (get_column_type (schema ++ b'.' ∷ table) column schema types)) [
      | some type_name ↦ (record { column = column; type_name = type_name } ∷ found, unresolved)
      | none ↦ (found, column ∷ unresolved)
    ]

-- The types of the unresolved columns that the table has.
unfoldable pub live_types : List LiveColumn → List Text → List ColumnType
live_types live [] = []
live_types live (column ∷ columns) = elim (find_column column live) [
  | some c ↦ record { column = column; type_name = c.data_type } ∷ live_types live columns
  | none ↦ live_types live columns
]

module _ {E : Type 0} (fetch_columns : Text → Text → Result E (List LiveColumn)) where
  -- columnTypes: the catalogue is asked only where a column is unresolved.
  unfoldable pub column_types : Types → Text → PgSimpleIndex → Result E (List ColumnType)
  column_types types schema index =
      let (found, unresolved) = registered_types schema index.table_name types index.columns in
      elim unresolved [
        | [] ↦ ok found
        | column ∷ columns ↦ fetch_columns schema index.table_name >>= λ live.
            ok (found ++ live_types live (column ∷ columns))
      ]

  -- `simpleIndex.tableSchema ?? this.currentSchema`
  abbrev pub index_schema : Text → PgSimpleIndex → Text
  index_schema current_schema index = elim index.table_schema [
    | none ↦ current_schema
    | some schema ↦ schema
  ]

  -- The decision on a plain CREATE INDEX.
  unfoldable pub decide_index :
      Policy
      → Types
      → Text
      → Option PgSimpleIndex
      → Result E (Option (PgSimpleIndex × (IndexAction × List ColumnType)))
  decide_index policy types current_schema none = ok none
  decide_index policy types current_schema (some index) =
      column_types types (index_schema current_schema index) index >>= λ found.
      ok (some (index, decide_lob_index index found policy))

  -- The decision on a statement, where it is such an index.
  unfoldable pub decide :
      Policy
      → Types
      → Text
      → Text
      → Result E (Option (PgSimpleIndex × (IndexAction × List ColumnType)))
  decide policy types current_schema sql =
      decide_index policy types current_schema (parse_simple_create_index sql)
