-- ===== src/Sql/Identifier.antt =====
-- Identifiers: quoteIdent, quoteDb2Identifier, decodePgIdentifier and the pattern IDENTIFIER.
pub mod RoundTrip
use postgres_mapepire_proxy.Prelude.{
  ℕ, zero, suc, ◌+◌, ◌-◌, List, [], ◌∷◌, ◌++◌, ltb, leb, ◌==◌, Bool, true, false, not, Option, none,
  some, ◌&&◌, ◌||◌, if◌then◌else◌, Text, map, every,
}
use postgres_mapepire_proxy.Sql.Text.{is_letter, is_digit, lower, double, undouble}

-- quoteDb2Identifier(identifier), quoteIdent(identifier)
unfoldable pub quote_identifier : Text → Text
quote_identifier name = b'"' ∷ (double b'"' name ++ b'"' ∷ [])

-- [A-Za-z_]
abbrev pub is_word_start : ℕ → Bool
is_word_start c = is_letter c || c == b'_'

-- [A-Za-z0-9_$]
abbrev pub is_word_part : ℕ → Bool
is_word_part c = is_letter c || is_digit c || c == b'_' || c == b'$'

-- `(?:[^"]|"")*"` up to the end of the text, behind the first quote.
unfoldable pub ends_quoted : Text → Bool
ends_quoted [] = false
ends_quoted (c ∷ []) = c == b'"'
ends_quoted (c ∷ d ∷ s) =
    let pair = ends_quoted s in
    let single = ends_quoted (d ∷ s) in if c == b'"' then d == b'"' && pair else single

-- Whether the whole text is an IDENTIFIER.
unfoldable pub is_identifier : Text → Bool
unfolding ends_quoted
is_identifier [] = false
is_identifier (c ∷ s) = (c == b'"' && ends_quoted s) || (is_word_start c && every is_word_part s)

-- `token.slice(1, -1)` behind the first character.
unfoldable pub without_last : Text → Text
without_last [] = []
without_last (c ∷ []) = []
without_last (c ∷ d ∷ s) = c ∷ without_last (d ∷ s)

-- decodePgIdentifier(token)
unfoldable pub decode_pg_identifier : Text → Text
unfolding without_last undouble lower
decode_pg_identifier [] = []
decode_pg_identifier (c ∷ s) =
    if c == b'"' then undouble b'"' (without_last s) else map lower (c ∷ s)
