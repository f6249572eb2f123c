-- ===== src/Ddl/CreateTable.antt =====
-- sql/column-rename.ts: the parts of a CREATE TABLE statement as the rename of columns needs them, and
-- the statement put together again.
use postgres_mapepire_proxy.Prelude.{
  ℕ, suc, ◌+◌, ◌-◌, ◌==◌, ltb, List, [], ◌∷◌, ◌++◌, Bool, true, false, not, ◌&&◌, ◌||◌,
  if◌then◌else◌, Option, none, some, Text, codes, map, every, length, take, drop,
}
use postgres_mapepire_proxy.Sql.Text.{
  trim, trim_start, trim_end, keyword, spaces, upper, is_digit, or_match, ◌>>=◌,
}
use postgres_mapepire_proxy.Sql.Identifier.{quote_identifier}
use postgres_mapepire_proxy.Sql.Scan.{Mark, marks, joined, first_unquoted_char, matching_paren}
use postgres_mapepire_proxy.Ddl.Names.{keep, qualified_name, name_at, relation_at}
use postgres_mapepire_proxy.Ddl.ColumnTypes.{matched}
use postgres_mapepire_proxy.Ddl.ForeignKeys.{word_space, temporary, slice, begins_word}

pub record CreateTable : Type 0 where
  pub schema : Text
  pub table : Text
  pub prefix : Text
  pub definitions : List Text
  pub suffix : Text

-- A pattern that may be missing.
unfoldable pub optional : Option Text → Text → Text
optional none s = s
optional (some rest) s = rest

-- `(?:OR\s+REPLACE\s+)?`
unfoldable pub or_replace : Text → Text
or_replace s = optional (word_space (codes "or") s >>= word_space (codes "replace")) s

-- The text in front of the relation's name, from CREATE on: what stands behind it.
unfoldable pub table_head : Text → Option Text
table_head sql = word_space (codes "create") (trim_start sql) >>= λ r.
    word_space (codes "table") (temporary (or_replace r))

-- `ON\s+REPLACE\s+PRESERVE(?:\s+ALL)?\s+ROWS`
unfoldable pub preserve_rows : Text → Option Text
preserve_rows s =
    word_space (codes "on") s
    >>= word_space (codes "replace")
    >>= keyword (codes "preserve")
    >>= λ r.
        or_match (spaces r >>= keyword (codes "all") >>= spaces >>= keyword (codes "rows"))
          (spaces r >>= keyword (codes "rows"))

-- The loop of splitDefinitionList, where the depth may fall below zero: it is the difference of the
-- parentheses opened and closed. The parts are trimmed, and the empty ones left out.
unfoldable pub parts_from : ℕ → ℕ → Text → List Mark → List Text
parts_from opened closed part [] = keep (trim part) []
parts_from opened closed part ((m, c) ∷ ms) =
    let deeper = parts_from (suc opened) closed (part ++ c ∷ []) ms in
    let back = parts_from opened (suc closed) (part ++ c ∷ []) ms in
    let cut = keep (trim part) (parts_from opened closed [] ms) in
    let same = parts_from opened closed (part ++ c ∷ []) ms in
    if m && c == b'('
    then deeper
    else if m && c == b')'
    then back
    else if m && c == b',' && opened == closed
    then cut
    else same

-- splitDefinitionList(body)
unfoldable pub split_definitions : Text → List Text
split_definitions body = parts_from 0 0 [] (marks false false body)

-- parseCreateTableStructure(sql, currentSchema), without the two indices, which are not read again
unfoldable pub parse_structure : Text → Text → Option CreateTable
parse_structure sql current_schema = table_head sql >>= λ r. relation_at r >>= λ (relation, rest).
    first_unquoted_char rest b'(' >>= λ offset.
    let open_at = length sql - length rest + offset in
    matching_paren sql open_at >>= λ close_at.
    let qualified = qualified_name (matched r rest) current_schema in
    some (record {
      schema = qualified.schema;
      table = qualified.table;
      prefix = trim_end (take open_at sql);
      definitions = split_definitions (slice (open_at + 1) close_at sql);
      suffix = trim (drop (close_at + 1) sql);
    })

-- canonicalCreatePrefix(prefix), and the same with another head, for a prefix that matches
unfoldable pub with_head : Text → Text → Text
with_head head prefix = elim (word_space (codes "create") (trim_start prefix)) [
  | none ↦ prefix
  | some rest ↦ head ++ or_replace rest
]

unfoldable pub canonical_create_prefix : Text → Text
canonical_create_prefix prefix = with_head (codes "CREATE ") prefix

-- Whether a suffix is empty, or ON REPLACE PRESERVE ROWS with a semicolon or without.
unfoldable pub is_clean : Text → Bool
is_clean [] = true
is_clean (c ∷ s) = elim (preserve_rows (c ∷ s)) [
  | none ↦ false
  | some rest ↦ elim (trim_start rest) [ [] ↦ true | d ∷ [] ↦ d == b';' | d ∷ e ∷ t ↦ false ]
]

-- parseCreateTable(sql, currentSchema)
unfoldable pub parse_table : Text → Text → Option CreateTable
parse_table sql current_schema = parse_structure sql current_schema >>= λ parsed.
    if is_clean parsed.suffix
    then some (record parsed { prefix = canonical_create_prefix parsed.prefix; suffix = [] })
    else none

-- `\s+ON\s+REPLACE\s+PRESERVE(?:\s+ALL)?\s+ROWS\s*$`, from the first place where it matches.
unfoldable pub cut_preserve : Text → Text
cut_preserve [] = []
cut_preserve (c ∷ s) =
    let rest = c ∷ cut_preserve s in
    elim (spaces (c ∷ s) >>= preserve_rows) [
      | none ↦ rest
      | some behind ↦ elim (trim_start behind) [ [] ↦ [] | d ∷ t ↦ rest ]
    ]

-- canonicalCreateTable(sql)
unfoldable pub canonical_create_table : Text → Text
canonical_create_table sql =
    let found =
      word_space (codes "create") (trim_start sql)
      >>= word_space (codes "or")
      >>= word_space (codes "replace") in
    trim (cut_preserve (elim found [ none ↦ sql | some rest ↦ codes "CREATE " ++ rest ]))

-- rebuildCreate(parsed, definitions, replace)
unfoldable pub rebuild_create : CreateTable → List Text → Bool → Text
rebuild_create parsed definitions replace =
    let head : Text = elim (word_space (codes "create") parsed.prefix) [
      | none ↦ parsed.prefix
      | some rest ↦ codes "CREATE OR REPLACE " ++ rest
    ] in
    (if replace then head else parsed.prefix)
    ++ b'('
      ∷ (joined definitions ++ b')' ∷ (if replace then codes " ON REPLACE PRESERVE ROWS" else []))

-- `^\s*(?:CONSTRAINT|PRIMARY|UNIQUE|FOREIGN|CHECK|EXCLUDE)\b`
abbrev pub is_constraint : Text → Bool
is_constraint definition =
    begins_word
      (codes "constraint"
        ∷ codes "primary"
        ∷ codes "unique"
        ∷ codes "foreign"
        ∷ codes "check"
        ∷ codes "exclude"
        ∷ [])
      (trim_start definition)

pub record ColumnDefinition : Type 0 where
  pub leading : Text
  pub name_sql : Text
  pub rest : Text

-- `(?:FOR\s+COLUMN\s+(name)\s+)?` with something behind it.
unfoldable pub for_column : Text → Text
for_column s =
    let found : Option Text =
      word_space (codes "for") s >>= word_space (codes "column") >>= name_at >>= λ (system, r).
      spaces r in
    elim found [ none ↦ s | some [] ↦ s | some (c ∷ rest) ↦ c ∷ rest ]

-- parseColumnDefinition(definition), of a definition that is trimmed; the name of a FOR COLUMN clause
-- is not read again
unfoldable pub parse_column_definition : Text → Option ColumnDefinition
parse_column_definition definition =
    if is_constraint definition
    then none
    else (name_at (trim_start definition) >>= λ (name, r). spaces r >>= λ rest. some (record {
      leading = matched definition (trim_start definition);
      name_sql = name;
      rest = for_column rest;
    }))

-- renderSqlIdentifier(value)
unfoldable pub render_sql_identifier : Text → Text
render_sql_identifier value = elim (trim value) [
  | [] ↦ []
  | c ∷ s ↦ if c == b'"' then c ∷ s else map upper (c ∷ s)
]

-- [A-Z_$#@] and [A-Z0-9_$#@]
abbrev pub is_system_start : ℕ → Bool
is_system_start c =
    (not (ltb c b'A') && not (ltb b'Z' c)) || c == b'_' || c == b'$' || c == b'#' || c == b'@'

-- renderSystemIdentifier(name)
unfoldable pub render_system_identifier : Text → Text
render_system_identifier name = elim (map upper name) [
  | [] ↦ quote_identifier name
  | c ∷ s ↦
      if is_system_start c && every (λ d. is_system_start d || is_digit d) s && ltb (length s) 10
      then c ∷ s
      else quote_identifier name
]

-- replaceCreateTableRelation(sql, newTableSql)
unfoldable pub replace_relation : Text → Text → Option Text
replace_relation sql new_table_sql = table_head sql >>= λ r.
    relation_at r >>= λ (relation, rest). some (matched sql r ++ new_table_sql ++ rest)
