-- ===== src/Ddl/TypeRegistry/Align.antt =====
-- alignCreateTable (sql/ddl-foreign-key.ts): the types of foreign-key columns are made those of the keys
-- that they refer to.
pub mod Body
pub mod Settled
pub mod Frame
use postgres_mapepire_proxy.Prelude.{
  ℕ, zero, suc, ◌+◌, ◌-◌, ◌==◌, List, [], ◌∷◌, ◌++◌, Bool, true, false, Option, none, some,
  if◌then◌else◌, Text, length, take, drop,
}
use postgres_mapepire_proxy.Sql.Scan.{joined}
use postgres_mapepire_proxy.Ddl.Registry.{get}
use postgres_mapepire_proxy.Ddl.Names.{normalize_upper, Qualified, qualified_upper}
use postgres_mapepire_proxy.Ddl.ColumnTypes.{equivalent_type, replace_column_type}
use postgres_mapepire_proxy.Ddl.ForeignKeys.{
  ParsedColumn, ParsedForeignKey, ParsedCreateTable, parse_create_table,
}
use postgres_mapepire_proxy.Ddl.TypeRegistry.{Types, type_key, known}

pub record Alignment : Type 0 where
  pub constraint : Option Text
  pub child_table : Text
  pub child_column : Text
  pub parent_table : Text
  pub parent_column : Text
  pub previous_type : Text
  pub aligned_type : Text

-- definitions[index] = f(definitions[index]), for an index in range
unfoldable pub update : ℕ → (Text → Text) → List Text → List Text
update i f [] = []
update zero f (d ∷ ds) = f d ∷ ds
update (suc i) f (d ∷ ds) = d ∷ update i f ds

-- The body of fk.childColumns.forEach: one child column and the parent column that it refers to.
unfoldable pub align_pair :
    Types
    → ParsedCreateTable
    → ParsedForeignKey
    → Qualified
    → Text
    → Text
    → List Text × List Alignment
    → List Text × List Alignment
align_pair r parsed key parent child_name parent_name (definitions, alignments) =
    elim (get (normalize_upper child_name) parsed.columns) [
      | none ↦ (definitions, alignments)
      | some child ↦
          elim (known (get (type_key parent.schema parent.table parent_name) r.entries)) [
            | none ↦ (definitions, alignments)
            | some parent_type ↦
                if equivalent_type child.type_name parent_type then (definitions, alignments) else (
                  update child.definition_index
                      (λ d. replace_column_type d child.type_name parent_type) definitions,
                  alignments
                      ++ record {
                        constraint = key.constraint;
                        child_table = parsed.table;
                        child_column = normalize_upper child_name;
                        parent_table = parent.table;
                        parent_column = normalize_upper parent_name;
                        previous_type = child.type_name;
                        aligned_type = parent_type;
                      }
                        ∷ [],
                )
          ]
    ]

-- fk.childColumns.forEach(…) with its index, on the definitions and the alignments so far.
unfoldable pub align_pairs :
    Types
    → ParsedCreateTable
    → ParsedForeignKey
    → Qualified
    → List Text
    → List Text
    → List Text × List Alignment
    → List Text × List Alignment
align_pairs r parsed key parent [] parents state = state
align_pairs r parsed key parent (child ∷ children) [] state = state
align_pairs r parsed key parent (child ∷ children) (column ∷ parents) state =
    align_pairs r parsed key parent children parents
      (align_pair r parsed key parent child column state)

-- The loop over parsed.foreignKeys.
unfoldable pub align_keys :
    Types
    → ParsedCreateTable
    → List ParsedForeignKey
    → List Text × List Alignment
    → List Text × List Alignment
align_keys r parsed [] state = state
align_keys r parsed (key ∷ keys) state =
    if length key.child_columns == length key.parent_columns
    then align_keys r parsed keys (
        align_pairs r parsed key (qualified_upper key.parent_table parsed.schema) key.child_columns
          key.parent_columns state)
    else align_keys r parsed keys state

-- alignCreateTable(sql, currentSchema)
unfoldable pub align_create_table : Text → Text → Types → Text × List Alignment
align_create_table sql current_schema r = elim (parse_create_table sql current_schema) [
  | none ↦ (sql, [])
  | some parsed ↦
      let (definitions, alignments) =
        align_keys r parsed parsed.foreign_keys (parsed.definitions, []) in
      elim alignments [
        | [] ↦ (sql, [])
        | a ∷ later ↦ (
          take (parsed.open_at + 1) sql ++ joined definitions ++ drop parsed.close_at sql,
          a ∷ later,
        )
      ]
]
