-- ===== src/Sql/SearchPath/Settings.antt =====
-- sql/search-path.ts: the search_path of the startup message's options, and set_config.
use postgres_mapepire_proxy.Prelude.{
  ℕ, ◌==◌, List, [], ◌∷◌, ◌++◌, Bool, true, false, ◌&&◌, if◌then◌else◌, Option, none, some, Text,
  codes,
}
use postgres_mapepire_proxy.Sql.Text.{
  is_space, trim, trim_start, collapse, keyword, spaces, undouble, or_match, ◌>>=◌,
}
use postgres_mapepire_proxy.Sql.Identifier.{is_word_start, is_word_part, without_last}
use postgres_mapepire_proxy.Ddl.ColumnTypes.{mark_at, word_ends}
use postgres_mapepire_proxy.Sql.SearchPath.{
  SearchPathSelection, default_path, ends_with, cut_last_semicolon, select_effective_search_path,
}

-- `(?:[^q]|qq)*q` behind the first quote: what is matched, and what stands behind it.
unfoldable pub quoted_value : ℕ → Text → Text → Option (Text × Text)
quoted_value q read [] = none
quoted_value q read (c ∷ []) = if c == q then some (read ++ c ∷ [], []) else none
quoted_value q read (c ∷ d ∷ rest) =
    let longer = quoted_value q (read ++ c ∷ d ∷ []) rest in
    let next = quoted_value q (read ++ c ∷ []) (d ∷ rest) in
    if c == q
    then or_match (if d == q then longer else none) (some (read ++ c ∷ [], d ∷ rest))
    else next

-- `[^\s]+`, where it has begun.
unfoldable pub up_to_space : Text → Text
up_to_space [] = []
up_to_space (c ∷ s) = let rest = up_to_space s in if is_space c then [] else c ∷ rest

-- The value of a setting: quoted in one way or the other, or up to white space.
unfoldable pub setting_value : Text → Option Text
setting_value [] = none
setting_value (c ∷ s) =
    let bare = if is_space c then none else some (up_to_space (c ∷ s)) in
    let within =
      λ (found : Option (Text × Text)). or_match (found >>= λ (value, rest). some value) bare in
    if c == b'"'
    then within (quoted_value b'"' (c ∷ []) s)
    else if c == 39
    then within (quoted_value 39 (c ∷ []) s)
    else bare

-- `search_path\s*=\s*` and the value.
unfoldable pub path_setting : Text → Option Text
path_setting s =
    keyword (codes "search_path") s >>= mark_at b'=' >>= λ r. setting_value (trim_start r)

-- A pattern at the start of a text or behind white space, at the first place where it matches.
unfoldable pub first_place : (Text → Option Text) → Text → Option Text
first_place p [] = none
first_place p (c ∷ s) = or_match (if is_space c then p s else none) (first_place p s)

unfoldable pub option_value : (Text → Option Text) → Text → Option Text
option_value p text = or_match (p text) (first_place p text)

-- The text in a value's outer single quotes, or the value.
unfoldable pub whole_value : Text → Text
whole_value [] = []
whole_value (c ∷ s) =
    if c == 39 && ends_with 39 (c ∷ s) then undouble 39 (without_last s) else c ∷ s

-- The loop over the patterns.
unfoldable pub first_selection : List (Text → Option Text) → Text → Option SearchPathSelection
first_selection [] text = none
first_selection (p ∷ ps) text =
    or_match (option_value p text >>= λ raw. select_effective_search_path (whole_value raw) false)
      (first_selection ps text)

abbrev pub option_patterns : List (Text → Option Text)
option_patterns =
    (λ s. keyword (codes "-c") s >>= λ r. path_setting (trim_start r))
    ∷ (λ s. keyword (codes "-c") s >>= path_setting)
    ∷ (λ s. keyword (codes "--") s >>= path_setting)
    ∷ []

-- parseStartupSearchPath(options), of options that are there
unfoldable pub parse_startup_search_path : Text → Option SearchPathSelection
parse_startup_search_path options = elim (trim options) [
  | [] ↦ none
  | c ∷ text ↦ first_selection option_patterns (c ∷ text)
]

-- `(?:pg_catalog\.)?`
unfoldable pub catalog_prefix : Text → Text
catalog_prefix s = elim (keyword (codes "pg_catalog.") s) [ none ↦ s | some rest ↦ rest ]

-- `(?:\s+as\s+([a-z_][a-z0-9_$]*))?`: the name, and what stands behind it.
unfoldable pub plain_name : Text → Text × Text
plain_name [] = ([], [])
plain_name (c ∷ s) =
    let (name, rest) = plain_name s in if is_word_part c then (c ∷ name, rest) else ([], c ∷ s)

unfoldable pub as_name : Text → Option Text × Text
as_name s = elim (spaces s >>= keyword (codes "as") >>= spaces) [
  | none ↦ (none, s)
  | some [] ↦ (none, s)
  | some (c ∷ r) ↦
      let (name, rest) = plain_name (c ∷ r) in
      if is_word_start c then (some name, rest) else (none, s)
]

-- `(?:\s+from\s+(?:…pg_settings\b|…pg_show_all_settings\s*\(\s*\)).*)?$`, on one line
unfoldable pub from_settings : Text → Bool
from_settings [] = true
from_settings (c ∷ s) =
    let source =
      spaces (c ∷ s) >>= keyword (codes "from") >>= spaces >>= λ r. some (catalog_prefix r) in
    let found =
      or_match (source >>= keyword (codes "pg_settings") >>= word_ends)
        (source >>= keyword (codes "pg_show_all_settings") >>= mark_at b'(' >>= mark_at b')') in
    elim found [ none ↦ false | some rest ↦ true ]

pub record SetConfig : Type 0 where
  pub selection : SearchPathSelection
  pub field_name : Text

-- `(true|false)`: whether the setting is local, and what stands behind it.
unfoldable pub truth_at : Text → Option (Bool × Text)
truth_at s =
    or_match (keyword (codes "true") s >>= λ r. some (true, r))
      (keyword (codes "false") s >>= λ r. some (false, r))

-- What parseSetConfigSearchPath makes of the value, the scope and the field's name.
unfoldable pub config_of : Text → Text → Bool → Text → Option SetConfig
config_of default_schema raw is_local field_name = elim (trim raw) [
  | [] ↦ some (record { selection = default_path default_schema is_local; field_name = field_name })
  | c ∷ t ↦ select_effective_search_path raw is_local >>= λ selection.
      some (record { selection = selection; field_name = field_name })
]

-- parseSetConfigSearchPath(sql, defaultSchema)
unfoldable pub parse_set_config : Text → Text → Option SetConfig
parse_set_config sql default_schema =
    keyword (codes "select") (collapse (cut_last_semicolon (trim sql))) >>= spaces >>= λ r.
    keyword (codes "set_config") (catalog_prefix r) >>= mark_at b'(' >>= λ t.
    keyword (codes "'search_path'") (trim_start t)
    >>= mark_at b','
    >>= mark_at 39
    >>= quoted_value 39 []
    >>= λ (quoted, u). mark_at b',' u >>= λ v. truth_at (trim_start v) >>= λ (is_local, w).
        mark_at b')' w >>= λ behind.
        let (name, rest) = as_name behind in
        if from_settings rest
        then config_of default_schema (undouble 39 (without_last quoted)) is_local
            (elim name [ none ↦ codes "set_config" | some n ↦ n ])
        else none
