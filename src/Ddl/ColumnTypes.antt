-- ===== src/Ddl/ColumnTypes.antt =====
-- extractTypePrefix, typePrefixSource, normalizeType, equivalentType and replaceColumnType
-- (sql/ddl-foreign-key.ts): the type at the front of a column's definition. A pattern is a function
-- from a text to what stands behind the match.
pub mod Patterns
pub mod Columns
pub mod Replaced
use postgres_mapepire_proxy.Prelude.{
  ℕ, zero, suc, ◌+◌, ◌-◌, ◌==◌, List, [], ◌∷◌, ◌++◌, Bool, true, false, not, Option, none, some,
  ◌&&◌, ◌||◌, if◌then◌else◌, Text, codes, map, length, take, drop, text_eq,
}
use postgres_mapepire_proxy.Sql.Text.{
  trim, trim_start, collapse, keyword, spaces, upper, is_letter, is_digit, or_match, ◌>>=◌,
}
use postgres_mapepire_proxy.Ddl.Names.{name_at}

-- What a pattern matched: the text before the rest.
unfoldable pub matched : Text → Text → Text
matched s rest = take (length s - length rest) s

-- `\s*` and a character.
unfoldable pub mark_at : ℕ → Text → Option Text
mark_at wanted s = elim (trim_start s) [
  | [] ↦ none
  | c ∷ rest ↦ if c == wanted then some rest else none
]

-- `\d*` and `\d+`
unfoldable pub digits : Text → Text
digits [] = []
digits (c ∷ s) = let rest = digits s in if is_digit c then rest else c ∷ s

unfoldable pub number_at : Text → Option Text
number_at [] = none
number_at (c ∷ s) = if is_digit c then some (digits s) else none

-- `[^)]*\)`: the text before the parenthesis, and what stands behind it.
unfoldable pub up_to_close : Text → Text → Option (Text × Text)
up_to_close read [] = none
up_to_close read (c ∷ s) =
    let longer = up_to_close (read ++ c ∷ []) s in if c == b')' then some (read, s) else longer

-- `\s*\(\s*\d+\s*\)`
unfoldable pub length_at : Text → Option Text
length_at s = mark_at b'(' s >>= λ r. number_at (trim_start r) >>= λ r'. mark_at b')' r'

-- `\s*\([^)]*\)`
unfoldable pub arguments_at : Text → Option Text
arguments_at s = mark_at b'(' s >>= λ r. up_to_close [] r >>= λ (read, rest). some rest

-- `(?:\s+CCSID\s+\d+)?`
unfoldable pub ccsid : Text → Text
ccsid s =
    let found = spaces s >>= keyword (codes "ccsid") >>= spaces >>= number_at in
    elim found [ some rest ↦ rest | none ↦ s ]

-- `(?:\s*\(\s*\d+\s*\))?`
unfoldable pub precision : Text → Text
precision s = elim (length_at s) [ some rest ↦ rest | none ↦ s ]

-- `\b` behind a word.
abbrev pub word_ends : Text → Option Text
word_ends [] = some []
word_ends (c ∷ s) = if is_letter c || is_digit c || c == b'_' then none else some (c ∷ s)

-- `(?:BIGINT|INTEGER|INT|SMALLINT|BOOLEAN|DATE|DOUBLE|REAL|FLOAT)\b`
unfoldable pub plain_word : List Text → Text → Option Text
plain_word [] s = none
plain_word (word ∷ words) s = or_match (keyword word s >>= word_ends) (plain_word words s)

abbrev pub plain_words : List Text
plain_words =
    codes "bigint"
    ∷ codes "integer"
    ∷ codes "int"
    ∷ codes "smallint"
    ∷ codes "boolean"
    ∷ codes "date"
    ∷ codes "double"
    ∷ codes "real"
    ∷ codes "float"
    ∷ []

-- `CHAR(?:ACTER)?\s*\(\s*\d+\s*\)`
unfoldable pub char_at : Text → Option Text
char_at s =
    or_match (keyword (codes "character") s >>= length_at) (keyword (codes "char") s >>= length_at)

-- The patterns of `candidates`, which are those of `patterns`.
abbrev pub type_patterns : List (Text → Option Text)
type_patterns =
    (λ s. keyword (codes "varchar") s >>= length_at >>= λ r. some (ccsid r))
    ∷ (λ s.
        keyword (codes "character") s
        >>= spaces
        >>= keyword (codes "varying")
        >>= length_at
        >>= λ r. some (ccsid r))
    ∷ (λ s. char_at s >>= λ r. some (ccsid r))
    ∷ (λ s. keyword (codes "varbinary") s >>= length_at)
    ∷ (λ s. keyword (codes "decimal") s >>= arguments_at)
    ∷ (λ s. keyword (codes "numeric") s >>= arguments_at)
    ∷ (λ s. keyword (codes "decfloat") s >>= arguments_at)
    ∷ (λ s. keyword (codes "timestamp") s >>= λ r. some (precision r))
    ∷ (λ s. keyword (codes "time") s >>= λ r. some (precision r))
    ∷ (λ s. keyword (codes "clob") s >>= arguments_at >>= λ r. some (ccsid r))
    ∷ (λ s. keyword (codes "blob") s >>= arguments_at)
    ∷ (λ s. keyword (codes "dbclob") s >>= arguments_at)
    ∷ plain_word plain_words
    ∷ []

-- `for (const pattern of patterns)`: what stands behind the first match.
unfoldable pub first_match : List (Text → Option Text) → Text → Option Text
first_match [] s = none
first_match (p ∷ ps) s = or_match (p s) (first_match ps s)

unfoldable pub type_rest : Text → Option Text
type_rest s = first_match type_patterns s

-- normalizeType(value)
unfoldable pub normalize_type : Text → Text
normalize_type value = map upper (collapse (trim value))

-- equivalentType(a, b)
unfoldable pub equivalent_type : Text → Text → Bool
equivalent_type a b = text_eq (normalize_type a) (normalize_type b)

-- typePrefixSource(rest)
unfoldable pub type_prefix_source : Text → Option Text
type_prefix_source rest = type_rest rest >>= λ r. some (matched rest r)

-- extractTypePrefix(rest)
unfoldable pub extract_type_prefix : Text → Option Text
extract_type_prefix rest = type_rest rest >>= λ r. some (normalize_type (matched rest r))

-- `\s*`, a name and `\s+` at the front of a definition: what stands behind them.
unfoldable pub column_rest : Text → Option Text
column_rest definition = name_at (trim_start definition) >>= λ (name, r). spaces r

-- replaceColumnType(definition, previousType, alignedType)
unfoldable pub replace_column_type : Text → Text → Text → Text
replace_column_type definition previous aligned = elim (column_rest definition) [
  | none ↦ definition
  | some rest ↦ elim (extract_type_prefix rest) [
    | none ↦ definition
    | some actual ↦
        if equivalent_type actual previous
        then elim (type_prefix_source rest) [
          | none ↦ definition
          | some [] ↦ definition
          | some (c ∷ source) ↦
              matched definition rest ++ aligned ++ drop (length (c ∷ source)) rest
        ]
        else definition
  ]
]
