-- ===== src/Ddl/ForeignKeys.antt =====
-- parseCreateTable and parseForeignKey (sql/ddl-foreign-key.ts): the columns and the foreign keys of a
-- CREATE TABLE. The field restAfterType, which nothing reads, is left out.
use postgres_mapepire_proxy.Prelude.{
  ℕ, suc, ◌+◌, ◌-◌, ◌==◌, List, [], ◌∷◌, ◌++◌, Bool, true, false, Option, none, some, if◌then◌else◌,
  Text, codes, length, take, drop,
}
use postgres_mapepire_proxy.Sql.Text.{trim, trim_start, keyword, spaces, or_match, ◌>>=◌}
use postgres_mapepire_proxy.Sql.Scan.{first_unquoted_char, matching_paren, split_definition_list}
use postgres_mapepire_proxy.Ddl.Registry.{put}
use postgres_mapepire_proxy.Ddl.Names.{normalize_upper, qualified_upper, name_at, relation_at}
use postgres_mapepire_proxy.Ddl.ColumnTypes.{
  matched, mark_at, up_to_close, word_ends, extract_type_prefix,
}

pub record ParsedColumn : Type 0 where
  pub name : Text
  pub definition_index : ℕ
  pub type_name : Text

pub record ParsedForeignKey : Type 0 where
  pub constraint : Option Text
  pub child_columns : List Text
  pub parent_table : Text
  pub parent_columns : List Text

pub record ParsedCreateTable : Type 0 where
  pub schema : Text
  pub table : Text
  pub open_at : ℕ
  pub close_at : ℕ
  pub definitions : List Text
  pub columns : List (Text × ParsedColumn)
  pub foreign_keys : List ParsedForeignKey

-- value.split(',').map(trim).filter(Boolean)
unfoldable pub identifier_list : Text → Text → List Text
identifier_list part [] = elim (trim part) [ [] ↦ [] | c ∷ p ↦ (c ∷ p) ∷ [] ]
identifier_list part (c ∷ rest) =
    let next = identifier_list [] rest in
    let longer = identifier_list (part ++ c ∷ []) rest in
    if c == b',' then elim (trim part) [ [] ↦ next | d ∷ p ↦ (d ∷ p) ∷ next ] else longer

-- sql.slice(from, to)
abbrev pub slice : ℕ → ℕ → Text → Text
slice from to sql = take (to - from) (drop from sql)

-- splitIdentifierList(value)
unfoldable pub split_identifier_list : Text → List Text
split_identifier_list value = identifier_list [] value

-- A word and `\s+`.
unfoldable pub word_space : Text → Text → Option Text
word_space word s = keyword word s >>= spaces

-- `(?:(?:GLOBAL|LOCAL)\s+TEMPORARY\s+|TEMPORARY\s+|TEMP\s+|UNLOGGED\s+)?`
unfoldable pub temporary : Text → Text
temporary s =
    let scoped = or_match (word_space (codes "global") s) (word_space (codes "local") s) in
    let found = or_match (scoped >>= word_space (codes "temporary")) (
      or_match (word_space (codes "temporary") s)
        (or_match (word_space (codes "temp") s) (word_space (codes "unlogged") s))) in
    elim found [ some rest ↦ rest | none ↦ s ]

-- The head of a CREATE TABLE: the text of its relation, and what stands behind it.
unfoldable pub create_head : Text → Option (Text × Text)
create_head sql = word_space (codes "create") (trim_start sql) >>= λ r.
    word_space (codes "table") (temporary r) >>= λ r'.
    relation_at r' >>= λ (relation, rest). some (matched r' rest, rest)

-- `(?:CONSTRAINT\s+(name)\s+)?` in front of a foreign key.
unfoldable pub constraint_at : Text → Option Text × Text
constraint_at s =
    let found : Option (Text × Text) =
      word_space (codes "constraint") s >>= name_at >>= λ (name, r). elim (spaces r) [
        | none ↦ none
        | some rest ↦ some (name, rest)
      ] in
    elim found [ some (name, rest) ↦ (some (normalize_upper name), rest) | none ↦ (none, s) ]

-- The rest of a foreign key from FOREIGN on.
unfoldable pub references_at : Option Text → Text → Option ParsedForeignKey
references_at constraint s =
    word_space (codes "foreign") s
    >>= keyword (codes "key")
    >>= mark_at b'('
    >>= up_to_close []
    >>= λ (children, r). spaces r >>= word_space (codes "references") >>= λ r'.
        relation_at r' >>= λ (relation, rest).
        mark_at b'(' rest >>= up_to_close [] >>= λ (parents, end). some (record {
          constraint = constraint;
          child_columns = split_identifier_list children;
          parent_table = matched r' rest;
          parent_columns = split_identifier_list parents;
        })

-- parseForeignKey(definition)
unfoldable pub parse_foreign_key : Text → Option ParsedForeignKey
parse_foreign_key definition =
    let (constraint, rest) = constraint_at (trim_start definition) in references_at constraint rest

-- `^\s*(?:CONSTRAINT|PRIMARY|UNIQUE|CHECK|EXCLUDE)\b`
unfoldable pub begins_word : List Text → Text → Bool
begins_word [] s = false
begins_word (word ∷ words) s =
    let more = begins_word words s in
    elim (keyword word s >>= word_ends) [ some rest ↦ true | none ↦ more ]

abbrev pub is_table_constraint : Text → Bool
is_table_constraint definition =
    begins_word
      (codes "constraint" ∷ codes "primary" ∷ codes "unique" ∷ codes "check" ∷ codes "exclude" ∷ [])
      (trim_start definition)

-- The column of a definition that is no constraint.
unfoldable pub parse_column : ℕ → Text → Option ParsedColumn
parse_column index definition =
    if is_table_constraint definition
    then none
    else (name_at (trim_start definition) >>= λ (name, r).
        spaces r >>= extract_type_prefix >>= λ type_name.
        some
          (record { name = normalize_upper name; definition_index = index; type_name = type_name }))

-- definitions.forEach(…), from an index on, with the columns and the foreign keys so far.
unfoldable pub read_definitions :
    ℕ
    → List Text
    → List (Text × ParsedColumn)
    → List ParsedForeignKey
    → List (Text × ParsedColumn) × List ParsedForeignKey
read_definitions index [] columns keys = (columns, keys)
read_definitions index (definition ∷ rest) columns keys = elim (parse_foreign_key definition) [
  | some key ↦ read_definitions (suc index) rest columns (keys ++ key ∷ [])
  | none ↦ elim (parse_column index definition) [
    | none ↦ read_definitions (suc index) rest columns keys
    | some column ↦ read_definitions (suc index) rest (put column.name column columns) keys
  ]
]

-- The result of parseCreateTable, from the relation and the two parentheses.
unfoldable pub table_between : Text → Text → Text → ℕ → ℕ → ParsedCreateTable
table_between sql current_schema relation open_at close_at =
    let qualified = qualified_upper relation current_schema in
    let definitions = split_definition_list (slice (open_at + 1) close_at sql) in
    let (columns, keys) = read_definitions 0 definitions [] [] in
    record {
      schema = qualified.schema;
      table = qualified.table;
      open_at = open_at;
      close_at = close_at;
      definitions = definitions;
      columns = columns;
      foreign_keys = keys;
    }

-- parseCreateTable(sql, currentSchema)
unfoldable pub parse_create_table : Text → Text → Option ParsedCreateTable
parse_create_table sql current_schema = create_head sql >>= λ (relation, rest).
    first_unquoted_char rest b'(' >>= λ offset.
    let open_at = length sql - length rest + offset in
    matching_paren sql open_at >>= λ close_at.
    some (table_between sql current_schema relation open_at close_at)
