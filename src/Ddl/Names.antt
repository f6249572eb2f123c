-- ===== src/Ddl/Names.antt =====
-- Names in DDL statements: normalizeIdentifier, splitQualifiedIdentifier and splitQualifiedName of
-- sql/ddl-foreign-key.ts and sql/column-rename.ts, and their patterns for an identifier and for a
-- relation. `toUpperCase` is that of ASCII letters.
use postgres_mapepire_proxy.Prelude.{
  ℕ, ◌==◌, List, [], ◌∷◌, ◌++◌, Bool, false, not, Option, none, some, ◌&&◌, ◌||◌, if◌then◌else◌,
  Text, map,
}
use postgres_mapepire_proxy.Sql.Text.{
  trim, trim_start, undouble, upper, is_letter, is_digit, or_match, ◌>>=◌,
}
use postgres_mapepire_proxy.Sql.Identifier.{without_last, is_word_start}

-- s.endsWith('"')
unfoldable pub ends_with_quote : Text → Bool
ends_with_quote [] = false
ends_with_quote (c ∷ []) = c == b'"'
ends_with_quote (c ∷ d ∷ s) = ends_with_quote (d ∷ s)

-- The content of a quoted name and the text of an unquoted one, before the change of case.
abbrev pub unquoted : (Text → Text) → Text → Text
unquoted case [] = map upper []
unquoted case (c ∷ s) =
    if c == b'"' && ends_with_quote (c ∷ s)
    then case (undouble b'"' (without_last s))
    else map upper (c ∷ s)

-- normalizeIdentifier(value) of the type registry, which makes capitals of quoted names too.
unfoldable pub normalize_upper : Text → Text
normalize_upper value = unquoted (map upper) (trim value)

-- normalizeIdentifier(value) of the table definitions, which keeps the case of quoted names.
unfoldable pub normalize_identifier : Text → Text
normalize_identifier value = unquoted (λ s. s) (trim value)

-- The loop of splitQualifiedIdentifier with `inDouble` and the text from `start` on, and the
-- `filter(Boolean)` behind it.
abbrev pub keep : Text → List Text → List Text
keep [] parts = parts
keep (c ∷ part) parts = (c ∷ part) ∷ parts

unfoldable pub qualified_from : Bool → Text → Text → List Text
qualified_from double part [] = keep (trim part) []
qualified_from double part (c ∷ []) =
    if not (c == b'"') && (not double && c == b'.')
    then keep (trim part) []
    else keep (trim (part ++ c ∷ [])) []
qualified_from double part (c ∷ d ∷ rest) =
    let doubled = qualified_from double (part ++ c ∷ d ∷ []) rest in
    let quoted = qualified_from (not double) (part ++ c ∷ []) (d ∷ rest) in
    let next = qualified_from double [] (d ∷ rest) in
    let kept = qualified_from double (part ++ c ∷ []) (d ∷ rest) in
    if c == b'"'
    then (if double && d == b'"' then doubled else quoted)
    else if not double && c == b'.'
    then keep (trim part) next
    else kept

-- splitQualifiedIdentifier(value)
unfoldable pub split_qualified_identifier : Text → List Text
split_qualified_identifier value = qualified_from false [] value

pub record Qualified : Type 0 where
  pub schema : Text
  pub table : Text

-- `parts[parts.length - 2]` and `parts[parts.length - 1]`, or the default schema and `parts[0] ?? value`.
unfoldable pub last_two : (Text → Text) → Text → Text → List Text → Qualified
last_two normal value default [] = record { schema = normal default; table = normal value }
last_two normal value default (a ∷ []) = record { schema = normal default; table = normal a }
last_two normal value default (a ∷ b ∷ []) = record { schema = normal a; table = normal b }
last_two normal value default (a ∷ b ∷ c ∷ parts) = last_two normal value default (b ∷ c ∷ parts)

-- splitQualifiedName(value, defaultSchema) of the type registry
unfoldable pub qualified_upper : Text → Text → Qualified
qualified_upper value default =
    last_two normalize_upper value default (split_qualified_identifier value)

-- splitQualifiedName(value, defaultSchema) of the table definitions
unfoldable pub qualified_name : Text → Text → Qualified
qualified_name value default =
    last_two normalize_identifier value default (split_qualified_identifier value)

-- [A-Za-z0-9_$#@]
abbrev pub is_name_part : ℕ → Bool
is_name_part c = is_letter c || is_digit c || c == b'_' || c == b'$' || c == b'#' || c == b'@'

-- `(?:[^"]|"")*"` behind the first quote: what is matched, and what stands behind it.
unfoldable pub quoted_name : Text → Text → Option (Text × Text)
quoted_name read [] = none
quoted_name read (c ∷ []) = if c == b'"' then some (read ++ c ∷ [], []) else none
quoted_name read (c ∷ d ∷ rest) =
    let longer = quoted_name (read ++ c ∷ d ∷ []) rest in
    let next = quoted_name (read ++ c ∷ []) (d ∷ rest) in
    if c == b'"'
    then or_match (if d == b'"' then longer else none) (some (read ++ c ∷ [], d ∷ rest))
    else next

-- `[A-Za-z0-9_$#@]*`
unfoldable pub name_parts : Text → Text → Text × Text
name_parts read [] = (read, [])
name_parts read (c ∷ rest) =
    let longer = name_parts (read ++ c ∷ []) rest in
    if is_name_part c then longer else (read, c ∷ rest)

-- The pattern `"(?:[^"]|"")*"|[A-Za-z_][A-Za-z0-9_$#@]*` at the front of a text.
unfoldable pub name_at : Text → Option (Text × Text)
name_at [] = none
name_at (c ∷ s) =
    if c == b'"'
    then quoted_name (c ∷ []) s
    else if is_word_start c
    then some (name_parts (c ∷ []) s)
    else none

-- A name, `\s*\.\s*` and a second name, which may be missing.
unfoldable pub second_name : Text → Option (Text × Text)
second_name [] = none
second_name (c ∷ s) = if c == b'.' then name_at (trim_start s) else none

pub record Relation : Type 0 where
  pub first : Text
  pub second : Option Text

unfoldable pub relation_at : Text → Option (Relation × Text)
relation_at s = name_at s >>= λ (first, rest). elim (second_name (trim_start rest)) [
  | none ↦ some (record { first = first; second = none }, rest)
  | some (second, rest') ↦ some (record { first = first; second = some second }, rest')
]
