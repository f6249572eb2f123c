-- ===== src/Session/Rows.antt =====
-- proxy/session.ts: how a session reads the rows that Mapepire returns for its catalogue queries. A row
-- is a list of columns; a value is a number, a text or null (Pool.Capabilities.Scalar).
pub mod Columns
pub mod Indexes
pub mod Keys
mod Tests
use postgres_mapepire_proxy.Prelude.{
  ℕ, ◌==◌, List, [], ◌∷◌, ◌++◌, Bool, true, false, not, ◌&&◌, if◌then◌else◌, Option, none, some,
  Text, map, text_eq,
}
use postgres_mapepire_proxy.Sql.Text.{trim, upper, decimal}
use postgres_mapepire_proxy.Sql.Scan.Rewrites.{number_of}
use postgres_mapepire_proxy.Ddl.Registry.{get}
use postgres_mapepire_proxy.Ddl.Names.{keep}
use postgres_mapepire_proxy.Pool.Capabilities.{Scalar, number, text, null, Row}

-- The first column whose name is the same in capitals.
unfoldable pub same_in_capitals : Text → Row → Option Scalar
same_in_capitals wanted [] = none
same_in_capitals wanted ((key, value) ∷ row) =
    if text_eq (map upper key) wanted then some value else same_in_capitals wanted row

-- caseInsensitiveValue(row, name), with `none` for undefined
unfoldable pub case_insensitive_value : Row → Text → Option Scalar
case_insensitive_value row name = elim (get name row) [
  | some value ↦ some value
  | none ↦ same_in_capitals (map upper name) row
]

-- `String(value ?? default)`
unfoldable pub string_or : Text → Option Scalar → Text
string_or default none = default
string_or default (some null) = default
string_or default (some (text t)) = t
string_or default (some (number n)) = decimal n

-- A text, or none where it is empty.
abbrev pub filled : Text → Option Text
filled [] = none
filled (c ∷ t) = some (c ∷ t)

-- nullableString(value), with `none` for null
unfoldable pub nullable_string : Option Scalar → Option Text
nullable_string value = filled (trim (string_or [] value))

-- The loop of splitCatalogColumnNames, with the flag `quoted` and the token so far.
unfoldable pub names_from : Bool → Text → Text → List Text
names_from quoted token [] = keep (trim token) []
names_from quoted token (c ∷ []) =
    if c == b'"'
    then keep (trim token) []
    else if c == b',' && not quoted
    then keep (trim token) []
    else keep (trim (token ++ c ∷ [])) []
names_from quoted token (c ∷ d ∷ s) =
    let doubled = names_from quoted (token ++ b'"' ∷ []) s in
    let turned = names_from (not quoted) token (d ∷ s) in
    let next = names_from quoted (token ++ c ∷ []) (d ∷ s) in
    let cut = keep (trim token) (names_from quoted [] (d ∷ s)) in
    if c == b'"'
    then (if quoted && d == b'"' then doubled else turned)
    else if c == b',' && not quoted
    then cut
    else next

-- splitCatalogColumnNames(value)
unfoldable pub split_catalog_column_names : Option Text → List Text
split_catalog_column_names none = []
split_catalog_column_names (some value) = names_from false [] value

-- `String(value ?? default).trim()`
abbrev pub text_or_at : Row → Text → Text → Text
text_or_at row name default = trim (string_or default (case_insensitive_value row name))

abbrev pub text_at : Row → Text → Text
text_at row name = text_or_at row name []

abbrev pub nullable_at : Row → Text → Option Text
nullable_at row name = nullable_string (case_insensitive_value row name)

-- `Number(value ?? 0)`, of a number or a text of digits
unfoldable pub number_or_zero : Option Scalar → ℕ
number_or_zero none = 0
number_or_zero (some null) = 0
number_or_zero (some (text t)) = number_of 0 (trim t)
number_or_zero (some (number n)) = n

abbrev pub number_at : Row → Text → ℕ
number_at row name = number_or_zero (case_insensitive_value row name)

-- nullableNumber(value), of a number or a text of digits
unfoldable pub nullable_number : Option Scalar → Option ℕ
nullable_number none = none
nullable_number (some null) = none
nullable_number (some (text [])) = none
nullable_number (some (text (c ∷ t))) = some (number_of 0 (trim (c ∷ t)))
nullable_number (some (number n)) = some n

-- rows.filter(p)
unfoldable pub filter {ℓ} : {A : Type ℓ} → (A → Bool) → List A → List A
filter p [] = []
filter p (a ∷ rows) = let rest = filter p rows in if p a then a ∷ rest else rest

abbrev pub is_filled : Text → Bool
is_filled [] = false
is_filled (c ∷ t) = true
