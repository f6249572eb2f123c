-- ===== src/Sql/Scan.antt =====
-- The quote-aware scanners of sql/translator.ts, which sql/ddl-foreign-key.ts repeats:
-- firstUnquotedChar, matchingParen, splitDefinitionList, topLevelKeywordIndex,
-- uppercaseUnquotedRelationIdentifiers and hasMultipleStatements. Four of them begin with the same
-- statements on quotes: `marks` is that part, and their loops run over what it lets through.
pub mod Laws
pub mod Parens
pub mod Placeholders
pub mod Rewrites
pub mod RowSource
mod Tests
use mathlib.Core.List.{reverse}
use postgres_mapepire_proxy.Prelude.{
  ℕ, zero, suc, ◌+◌, ◌-◌, ◌==◌, List, [], ◌∷◌, ◌++◌, Bool, true, false, not, ltb, Option, none,
  some, ◌&&◌, ◌||◌, if◌then◌else◌, Text, map, drop,
}
use postgres_mapepire_proxy.Sql.Text.{upper, trim_start, keyword}
use postgres_mapepire_proxy.Sql.Identifier.{is_word_part}

-- A character, and whether the loop goes on to the statements behind the quote tests with it.
abbrev pub Mark : Type 0
Mark = Bool × ℕ

-- The quote tests of a loop over `sql` with `inSingle` and `inDouble`.
unfoldable pub marks : Bool → Bool → Text → List Mark
marks single double [] = []
marks single double (c ∷ []) =
    if (c == 39 && not double) || (c == 34 && not single)
    then (false, c) ∷ []
    else (not single && not double, c) ∷ []
marks single double (c ∷ d ∷ rest) =
    let doubled = (false, c) ∷ (false, d) ∷ marks single double rest in
    let quoted = (false, c) ∷ marks (not single) double (d ∷ rest) in
    let named = (false, c) ∷ marks single (not double) (d ∷ rest) in
    let next = (not single && not double, c) ∷ marks single double (d ∷ rest) in
    if c == 39 && not double
    then (if single && d == 39 then doubled else quoted)
    else if c == 34 && not single
    then (if double && d == 34 then doubled else named)
    else next

-- The characters of marks.
unfoldable pub chars : List Mark → Text
chars [] = []
chars ((m, c) ∷ ms) = c ∷ chars ms

-- `if (!inSingle && !inDouble && c === wanted) return i`, from `i` on.
unfoldable pub first_from : ℕ → ℕ → List Mark → Option ℕ
first_from wanted i [] = none
first_from wanted i ((m, c) ∷ ms) =
    let rest = first_from wanted (i + 1) ms in if m && c == wanted then some i else rest

-- firstUnquotedChar(sql, wanted): an index, or none for -1.
unfoldable pub first_unquoted_char : Text → ℕ → Option ℕ
first_unquoted_char sql wanted = first_from wanted 0 (marks false false sql)

-- The loop of matchingParen. The depth, which may fall below zero, is the difference of the
-- parentheses opened and closed so far.
unfoldable pub match_from : ℕ → ℕ → ℕ → List Mark → Option ℕ
match_from opened closed i [] = none
match_from opened closed i ((m, c) ∷ ms) =
    let deeper = match_from (suc opened) closed (i + 1) ms in
    let back = match_from opened (suc closed) (i + 1) ms in
    let same = match_from opened closed (i + 1) ms in
    if m && c == b'('
    then deeper
    else if m && c == b')'
    then (if suc closed == opened then some i else back)
    else same

-- matchingParen(sql, open)
unfoldable pub matching_paren : Text → ℕ → Option ℕ
matching_paren sql open_at = match_from 0 0 open_at (marks false false (drop open_at sql))

-- The loop of splitDefinitionList, with the depth and the text from `start` on.
unfoldable pub definitions_from : ℕ → Text → List Mark → List Text
definitions_from depth part [] = part ∷ []
definitions_from depth part ((m, c) ∷ ms) =
    let deeper = definitions_from (suc depth) (part ++ c ∷ []) ms in
    let back = definitions_from (depth - 1) (part ++ c ∷ []) ms in
    let cut = part ∷ definitions_from depth [] ms in
    let same = definitions_from depth (part ++ c ∷ []) ms in
    if m && c == b'('
    then deeper
    else if m && c == b')'
    then back
    else if m && c == b',' && depth == 0
    then cut
    else same

-- splitDefinitionList(body)
unfoldable pub split_definition_list : Text → List Text
split_definition_list body = definitions_from 0 [] (marks false false body)

-- `!/[A-Za-z0-9_$]/.test(after)` with the character behind the word, or the empty text at the end.
abbrev pub free_after : Text → Bool
free_after [] = true
free_after (c ∷ rest) = not (is_word_part c)

-- The tests on `before`, the word at `i` and `after`.
abbrev pub word_at : Text → Option ℕ → Text → Bool
word_at word none s = elim (keyword word s) [ some rest ↦ free_after rest | none ↦ false ]
word_at word (some before) s = elim (keyword word s) [
  | some rest ↦ not (is_word_part before) && free_after rest
  | none ↦ false
]

-- The loop of topLevelKeywordIndex, with the depth, the character before and the index.
unfoldable pub keyword_from : Text → ℕ → Option ℕ → ℕ → List Mark → Option ℕ
keyword_from word depth before i [] = none
keyword_from word depth before i ((m, c) ∷ ms) =
    let deeper = keyword_from word (suc depth) (some c) (i + 1) ms in
    let back = keyword_from word (depth - 1) (some c) (i + 1) ms in
    let same = keyword_from word depth (some c) (i + 1) ms in
    let found = word_at word before (c ∷ chars ms) in
    if m && c == b'('
    then deeper
    else if m && c == b')'
    then back
    else if m && depth == 0 && found
    then some i
    else same

-- topLevelKeywordIndex(sql, word), for a word of small ASCII letters.
unfoldable pub top_level_keyword_index : Text → Text → Option ℕ
top_level_keyword_index sql word = keyword_from word 0 none 0 (marks false false sql)

-- The loop of uppercaseUnquotedRelationIdentifiers, which toggles at each double quote.
unfoldable pub uppercase_from : Bool → Bool → Text → Text
uppercase_from single double [] = []
uppercase_from single double (c ∷ []) =
    if (c == 39 && not double) || (c == 34 && not single)
    then c ∷ []
    else if not single && not double
    then upper c ∷ []
    else c ∷ []
uppercase_from single double (c ∷ d ∷ rest) =
    let doubled = c ∷ d ∷ uppercase_from single double rest in
    let quoted = c ∷ uppercase_from (not single) double (d ∷ rest) in
    let named = c ∷ uppercase_from single (not double) (d ∷ rest) in
    let next = uppercase_from single double (d ∷ rest) in
    if c == 39 && not double
    then (if single && d == 39 then doubled else quoted)
    else if c == 34 && not single
    then named
    else if not single && not double
    then upper c ∷ next
    else c ∷ next

-- uppercaseUnquotedRelationIdentifiers(sql)
unfoldable pub uppercase_unquoted : Text → Text
uppercase_unquoted sql = uppercase_from false false sql

-- The loop of hasMultipleStatements: `semicolons`.
unfoldable pub semicolons_from : Bool → Bool → Text → ℕ
semicolons_from single double [] = 0
semicolons_from single double (c ∷ []) =
    if (c == 39 && not double) || (c == 34 && not single)
    then 0
    else if c == b';' && not single && not double
    then 1
    else 0
semicolons_from single double (c ∷ d ∷ rest) =
    let doubled = semicolons_from single double rest in
    let quoted = semicolons_from (not single) double (d ∷ rest) in
    let named = semicolons_from single (not double) (d ∷ rest) in
    let next = semicolons_from single double (d ∷ rest) in
    if c == 39 && not double
    then (if single && d == 39 then doubled else quoted)
    else if c == 34 && not single
    then named
    else if c == b';' && not single && not double
    then suc next
    else next

-- Whether a text begins with a semicolon.
semicolon_first : Text → Bool
semicolon_first [] = false
semicolon_first (c ∷ s) = c == b';'

-- hasMultipleStatements(sql); `/;\s*$/` is read backwards.
unfoldable pub has_multiple_statements : Text → Bool
unfolding semicolon_first
has_multiple_statements sql =
    let semicolons = semicolons_from false false sql in
    ltb 1 semicolons || (semicolons == 1 && not (semicolon_first (trim_start (reverse sql))))

-- parts.join(',')
abbrev pub joined : List Text → Text
joined [] = []
joined (p ∷ []) = p
joined (p ∷ q ∷ ps) = p ++ b',' ∷ joined (q ∷ ps)
