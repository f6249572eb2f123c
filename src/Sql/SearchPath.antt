-- ===== src/Sql/SearchPath.antt =====
-- sql/search-path.ts: the schema that a PostgreSQL search_path selects, and the SET forms that name one.
pub mod Laws
pub mod Settings
mod Tests
use postgres_mapepire_proxy.Prelude.{
  ℕ, ◌==◌, List, [], ◌∷◌, ◌++◌, Bool, true, false, not, ◌&&◌, ◌||◌, if◌then◌else◌, Option, none,
  some, Text, text_eq, codes, map, every,
}
use postgres_mapepire_proxy.Sql.Text.{
  trim, trim_start, keyword, spaces, upper, undouble, is_letter, is_digit, or_match, ◌>>=◌,
}
use postgres_mapepire_proxy.Sql.Identifier.{without_last}
use postgres_mapepire_proxy.Ddl.Names.{ends_with_quote}

pub record SearchPathSelection : Type 0 where
  pub schema : Text
  pub requested : List Text
  pub ignored : List Text
  -- `scope`, 'local' or 'session'
  pub is_local : Bool
  pub reset : Bool

-- A pattern `/^word$/i`.
unfoldable pub is_word : Text → Text → Bool
is_word word t = elim (keyword word t) [ some [] ↦ true | some (c ∷ s) ↦ false | none ↦ false ]

-- `/^pg_temp(?:_\d+)?$/i`
unfoldable pub is_temp : Text → Bool
is_temp t = elim (keyword (codes "pg_temp") t) [
  | none ↦ false
  | some [] ↦ true
  | some (c ∷ []) ↦ false
  | some (c ∷ d ∷ s) ↦ c == b'_' && every is_digit (d ∷ s)
]

-- `/^[A-Za-z_#$@][A-Za-z0-9_#$@]*$/`
abbrev pub begins_name : ℕ → Bool
begins_name c = is_letter c || c == b'_' || c == b'#' || c == b'$' || c == b'@'

unfoldable pub is_plain : Text → Bool
is_plain [] = false
is_plain (c ∷ s) = begins_name c && every (λ d. begins_name d || is_digit d) s

-- t.endsWith(q)
unfoldable pub ends_with : ℕ → Text → Bool
ends_with q [] = false
ends_with q (c ∷ []) = c == q
ends_with q (c ∷ d ∷ s) = ends_with q (d ∷ s)

-- The tests of unquoteIdentifier in their order, on the trimmed token.
unfoldable pub unquoted : Text → Option Text
unquoted [] = none
unquoted (c ∷ s) =
    if is_word (codes "$user") (c ∷ s) || is_word (codes "\"$user\"") (c ∷ s)
    then none
    else if is_word (codes "pg_catalog") (c ∷ s) || is_temp (c ∷ s)
    then none
    else if c == b'"' && ends_with b'"' (c ∷ s)
    then some (undouble b'"' (without_last s))
    else if c == 39 && ends_with 39 (c ∷ s)
    then some (undouble 39 (without_last s))
    else if is_plain (c ∷ s)
    then some (map upper (c ∷ s))
    else none

-- unquoteIdentifier(token)
unfoldable pub unquote_identifier : Text → Option Text
unquote_identifier token = unquoted (trim token)

-- `if (token.trim()) out.push(token.trim())`, in front of what follows.
abbrev pub push : Text → List Text → List Text
push [] out = out
push (c ∷ token) out = (c ∷ token) ∷ out

-- The loop of splitSearchPath, with `quote` and `token`.
unfoldable pub path_from : Option ℕ → Text → Text → List Text
path_from quote token [] = push (trim token) []
path_from none token (c ∷ s) =
    let opened = path_from (some c) (token ++ c ∷ []) s in
    let next = path_from none [] s in
    let longer = path_from none (token ++ c ∷ []) s in
    if c == b'"' || c == 39 then opened else if c == b',' then push (trim token) next else longer
path_from (some q) token (c ∷ []) = push (trim (token ++ c ∷ [])) []
path_from (some q) token (c ∷ d ∷ s) =
    let doubled = path_from (some q) (token ++ c ∷ d ∷ []) s in
    let closed = path_from none (token ++ c ∷ []) (d ∷ s) in
    let longer = path_from (some q) (token ++ c ∷ []) (d ∷ s) in
    if c == q then (if d == q then doubled else closed) else longer

-- splitSearchPath(raw)
unfoldable pub split_search_path : Text → List Text
split_search_path raw = path_from none [] raw

-- `concrete.find((entry) => entry.schema !== undefined)`
unfoldable pub first_schema : List Text → Option (Text × Text)
first_schema [] = none
first_schema (token ∷ tokens) = elim (unquote_identifier token) [
  | none ↦ first_schema tokens
  | some schema ↦ some (token, schema)
]

-- `concrete.filter((entry) => entry.token !== selected.token)`
unfoldable pub without_token : Text → List Text → List Text
without_token token [] = []
without_token token (t ∷ ts) =
    let rest = without_token token ts in if text_eq t token then rest else t ∷ rest

-- selectEffectiveSearchPath(raw, scope)
unfoldable pub select_effective_search_path : Text → Bool → Option SearchPathSelection
select_effective_search_path raw is_local =
    let requested = split_search_path raw in
    elim (first_schema requested) [
      | none ↦ none
      | some (token, []) ↦ none
      | some (token, c ∷ schema) ↦ some (record {
        schema = c ∷ schema;
        requested = requested;
        ignored = without_token token requested;
        is_local = is_local;
        reset = false;
      })
    ]

-- replace(/;$/, '')
unfoldable pub cut_last_semicolon : Text → Text
cut_last_semicolon [] = []
cut_last_semicolon (c ∷ []) = if c == b';' then [] else c ∷ []
cut_last_semicolon (c ∷ d ∷ s) = c ∷ cut_last_semicolon (d ∷ s)

-- `SET(?:\s+(SESSION|LOCAL))?\s+`: whether LOCAL stands there, and what stands behind it.
unfoldable pub set_scope : Text → Option (Bool × Text)
set_scope s = keyword (codes "set") s >>= spaces >>= λ r.
    or_match (keyword (codes "session") r >>= spaces >>= λ t. some (false, t))
      (or_match (keyword (codes "local") r >>= spaces >>= λ t. some (true, t)) (some (false, r)))

-- `(.+)$`: the text, which has no line terminator.
abbrev pub one_line : Text → Option Text
one_line [] = none
one_line (c ∷ s) =
    if every (λ d. not (d == 10 || d == 13 || d == 0x2028 || d == 0x2029)) (c ∷ s)
    then some (c ∷ s)
    else none

-- The reset of the path to the default schema.
abbrev pub default_path : Text → Bool → SearchPathSelection
default_path default_schema is_local = record {
  schema = default_schema;
  requested = default_schema ∷ [];
  ignored = [];
  is_local = is_local;
  reset = true;
}

-- SET SCHEMA
unfoldable pub set_schema : Text → Option (Option SearchPathSelection)
set_schema compact = set_scope compact >>= λ (is_local, r).
    keyword (codes "schema") r >>= spaces >>= one_line >>= λ raw.
    let value = trim raw in
    some (elim (unquote_identifier value) [
      | none ↦ none
      | some [] ↦ none
      | some (c ∷ schema) ↦ some (record {
        schema = c ∷ schema;
        requested = value ∷ [];
        ignored = [];
        is_local = is_local;
        reset = false;
      })
    ])

-- SET search_path TO, or with an equals sign
unfoldable pub set_search_path : Text → Text → Option SearchPathSelection
set_search_path default_schema compact = set_scope compact >>= λ (is_local, r).
    keyword (codes "search_path") r >>= λ t.
    let value = trim_start t in
    or_match (keyword (codes "to") value) (keyword (codes "=") value) >>= λ v.
    one_line (trim_start v) >>= λ raw.
    if is_word (codes "default") (trim raw)
    then some (default_path default_schema is_local)
    else select_effective_search_path (trim raw) is_local

-- `/^RESET\s+SEARCH_PATH$/i`
abbrev pub is_reset : Text → Bool
is_reset compact = elim (keyword (codes "reset") compact >>= spaces) [
  | none ↦ false
  | some r ↦ is_word (codes "search_path") r
]

-- parseSearchPathCommand(sql, defaultSchema)
unfoldable pub parse_search_path_command : Text → Text → Option SearchPathSelection
parse_search_path_command sql default_schema =
    let compact = trim (cut_last_semicolon (trim sql)) in
    if is_reset compact
    then some (default_path default_schema false)
    else elim (set_schema compact) [
      | some selection ↦ selection
      | none ↦ set_search_path default_schema compact
    ]
