-- ===== src/Sql/LobIndex.antt =====
-- sql/lob-index.ts: the plain CREATE INDEX statements, and whether Db2 can have such an index.
-- normalizeIdentifier is that of Ddl.Names.
pub mod Laws
use mathlib.Core.List.{reverse}
use postgres_mapepire_proxy.Prelude.{
  ℕ, suc, ◌+◌, ◌-◌, ◌==◌, List, [], ◌∷◌, ◌++◌, Bool, true, false, not, ◌&&◌, ◌||◌, if◌then◌else◌,
  Option, none, some, Text, codes, map,
}
use postgres_mapepire_proxy.Sql.Text.{trim, trim_start, trim_end, keyword, spaces, or_match, ◌>>=◌}
use postgres_mapepire_proxy.Ddl.Names.{normalize_identifier, keep, name_at, Relation, relation_at}
use postgres_mapepire_proxy.Ddl.ColumnTypes.{mark_at, word_ends}
use postgres_mapepire_proxy.Ddl.ForeignKeys.{word_space}
use postgres_mapepire_proxy.Ddl.CreateTable.{optional}

pub record PgSimpleIndex : Type 0 where
  pub original : Text
  pub unique : Bool
  pub index_schema : Option Text
  pub index_name : Text
  pub table_schema : Option Text
  pub table_name : Text
  pub columns : List Text

-- The quotes that the loop of splitTopLevel is in.
pub data Quote : Type 0 where
  outside : Quote
  in_single : Quote
  in_double : Quote

-- A character outside quotes: the depth behind it, where it is no comma that cuts.
abbrev pub depth_after : ℕ → ℕ → ℕ
depth_after c depth = if c == b'(' then suc depth else if c == b')' then depth - 1 else depth

abbrev pub quote_after : ℕ → Quote
quote_after c = if c == 39 then in_single else if c == b'"' then in_double else outside

-- The loop of splitTopLevel, with the text from `start` on.
unfoldable pub top_level_from : Quote → ℕ → Text → Text → List Text
top_level_from quote depth part [] = keep (trim part) []
top_level_from outside depth part (c ∷ s) =
    let next = top_level_from (quote_after c) (depth_after c depth) (part ++ c ∷ []) s in
    let cut = keep (trim part) (top_level_from outside depth [] s) in
    if c == b',' && depth == 0 then cut else next
top_level_from in_single depth part (c ∷ []) = keep (trim (part ++ c ∷ [])) []
top_level_from in_single depth part (c ∷ d ∷ s) =
    let doubled = top_level_from in_single depth (part ++ c ∷ d ∷ []) s in
    let ends = top_level_from outside depth (part ++ c ∷ []) (d ∷ s) in
    let next = top_level_from in_single depth (part ++ c ∷ []) (d ∷ s) in
    if c == 39 then (if d == 39 then doubled else ends) else next
top_level_from in_double depth part (c ∷ []) = keep (trim (part ++ c ∷ [])) []
top_level_from in_double depth part (c ∷ d ∷ s) =
    let doubled = top_level_from in_double depth (part ++ c ∷ d ∷ []) s in
    let ends = top_level_from outside depth (part ++ c ∷ []) (d ∷ s) in
    let next = top_level_from in_double depth (part ++ c ∷ []) (d ∷ s) in
    if c == b'"' then (if d == b'"' then doubled else ends) else next

-- splitTopLevel(value)
unfoldable pub split_top_level : Text → List Text
split_top_level value = top_level_from outside 0 [] value

-- `([\s\S]+)\)\s*;?\s*$`, read from the end: the text in front of the last parenthesis.
unfoldable pub closed_body : Text → Option Text
closed_body s =
    let from_end = trim_start (reverse s) in
    let before : Text = elim from_end [
      | [] ↦ []
      | c ∷ r ↦ if c == b';' then trim_start r else c ∷ r
    ] in
    elim before [
      | [] ↦ none
      | c ∷ [] ↦ none
      | c ∷ d ∷ r ↦ if c == b')' then some (reverse (d ∷ r)) else none
    ]

-- `^\s*(name)(?:\s+(?:ASC|DESC))?(?:\s+NULLS\s+(?:FIRST|LAST))?\s*$`: the column of a key.
unfoldable pub key_column : Text → Option Text
key_column key = name_at (trim_start key) >>= λ (name, r).
    let ordered =
      optional (spaces r >>= λ t. or_match (keyword (codes "asc") t) (keyword (codes "desc") t))
        r in
    let placed =
      optional
        (spaces ordered >>= word_space (codes "nulls") >>= λ t.
          or_match (keyword (codes "first") t) (keyword (codes "last") t))
        ordered in
    elim (trim_start placed) [ [] ↦ some (normalize_identifier name) | c ∷ t ↦ none ]

-- The columns of all keys, or none where a key is no plain column.
unfoldable pub key_columns : List Text → Option (List Text)
key_columns [] = some []
key_columns (key ∷ keys) =
    key_column key >>= λ column. key_columns keys >>= λ columns. some (column ∷ columns)

-- `first.second`, or `first` alone: the schema and the name.
abbrev pub schema_of : Relation → Option Text
schema_of relation = elim relation.second [
  | none ↦ none
  | some second ↦ some (normalize_identifier relation.first)
]

abbrev pub name_of : Relation → Text
name_of relation = elim relation.second [
  | none ↦ normalize_identifier relation.first
  | some second ↦ normalize_identifier second
]

-- parsePgSimpleCreateIndex(sql)
unfoldable pub parse_simple_create_index : Text → Option PgSimpleIndex
parse_simple_create_index sql = word_space (codes "create") (trim_start sql) >>= λ r.
    let only_unique = word_space (codes "unique") r in
    word_space (codes "index") (optional only_unique r) >>= λ t.
    let named =
      optional
        (word_space (codes "if") t >>= word_space (codes "not") >>= word_space (codes "exists"))
        t in
    relation_at named >>= λ (index, rest). spaces rest >>= word_space (codes "on") >>= λ u.
    relation_at u >>= λ (table, behind). mark_at b'(' behind >>= closed_body >>= λ body.
    elim (split_top_level body) [
      | [] ↦ none
      | key ∷ keys ↦ elim (key_columns (key ∷ keys)) [
        | none ↦ none
        | some columns ↦ some (record {
          original = sql;
          unique = elim only_unique [ none ↦ false | some rest' ↦ true ];
          index_schema = schema_of index;
          index_name = name_of index;
          table_schema = schema_of table;
          table_name = name_of table;
          columns = columns;
        })
      ]
    ]

-- The patterns of isDb2LobType, with `\b` behind each.
unfoldable pub lob_rest : Text → Option Text
lob_rest t =
    let large = λ (r : Option Text).
      r >>= spaces >>= word_space (codes "large") >>= keyword (codes "object") in
    or_match (keyword (codes "clob") t >>= word_ends) (
      or_match (large (keyword (codes "character") t) >>= word_ends) (
        or_match (large (keyword (codes "char") t) >>= word_ends) (
          or_match (keyword (codes "dbclob") t >>= word_ends) (
            or_match (keyword (codes "blob") t >>= word_ends) (
              or_match (large (keyword (codes "binary") t) >>= word_ends) (
                or_match (keyword (codes "xml") t >>= word_ends)
                  (keyword (codes "datalink") t >>= word_ends)))))))

-- isDb2LobType(type), of a type that is there
unfoldable pub is_lob_type : Text → Bool
is_lob_type type_name = elim (lob_rest (trim type_name)) [ none ↦ false | some rest ↦ true ]

-- UnsupportedNonuniqueLobIndexPolicy
pub data Policy : Type 0 where
  skip_index : Policy
  refuse_index : Policy

pub record ColumnType : Type 0 where
  pub column : Text
  pub type_name : Text

pub data IndexAction : Type 0 where
  pass : IndexAction
  skip : IndexAction
  error : IndexAction

-- columnTypes.filter((entry) => isDb2LobType(entry.type))
unfoldable pub lob_columns : List ColumnType → List ColumnType
lob_columns [] = []
lob_columns (entry ∷ entries) =
    let rest = lob_columns entries in if is_lob_type entry.type_name then entry ∷ rest else rest

-- decideLobIndexCompatibility(index, columnTypes, policy)
unfoldable pub decide_lob_index :
    PgSimpleIndex → List ColumnType → Policy → IndexAction × List ColumnType
decide_lob_index index column_types policy = elim (lob_columns column_types) [
  | [] ↦ (pass, [])
  | entry ∷ entries ↦ if index.unique then (error, entry ∷ entries) else elim policy [
    | refuse_index ↦ (error, entry ∷ entries)
    | skip_index ↦ (skip, entry ∷ entries)
  ]
]
