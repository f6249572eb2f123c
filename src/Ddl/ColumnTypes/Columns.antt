-- ===== src/Ddl/ColumnTypes/Columns.antt =====
-- The patterns of a type and of a column's name, and the text that a match cuts off.
use postgres_mapepire_proxy.Prelude.{
  ◌==◌, List, [], ◌∷◌, ◌++◌, Option, some, All, Text, take, codes, ◌≡◌, sym, ap, ◌∙◌, subst, arith,
  length-append, take-append, Bool-cases, Option-cases, inl, inr,
}
use postgres_mapepire_proxy.Sql.Text.{trim_start, keyword, spaces, ◌>>=◌}
use postgres_mapepire_proxy.Sql.Identifier.{is_word_start}
use postgres_mapepire_proxy.Ddl.Names.{quoted_name, name_parts, name_at, is_name_part}
use postgres_mapepire_proxy.Ddl.ColumnTypes.{
  matched, length_at, arguments_at, ccsid, precision, char_at, plain_words, type_patterns,
  first_match, type_rest, column_rest,
}
use postgres_mapepire_proxy.Ddl.ColumnTypes.Patterns.{
  Ends, Ends-cons, Ends-refl, Ends-trans, IsPattern, or_match-Ends, bind-Ends, trim_start-Ends,
  spaces-IsPattern, keyword-IsPattern, length_at-IsPattern, arguments_at-IsPattern, ccsid-Ends,
  precision-Ends, char_at-IsPattern, plain_word-IsPattern, worded, followed,
}

first_match-IsPattern :
    (ps : List (Text → Option Text)) → All IsPattern ps → IsPattern (first_match ps)
unfolding first_match
first_match-IsPattern [] h s rest e = absurd cc
first_match-IsPattern (p ∷ ps) (h, hs) s rest e =
    or_match-Ends s (p s) (first_match ps s) rest (h s) (first_match-IsPattern ps hs s) e

varying :
    IsPattern
      (λ s. keyword (codes "character") s >>= spaces >>= keyword (codes "varying") >>= length_at)
varying s rest =
    bind-Ends s (keyword (codes "character") s >>= spaces >>= keyword (codes "varying")) length_at
      rest
      (λ r.
        bind-Ends s (keyword (codes "character") s >>= spaces) (keyword (codes "varying")) r
          (λ t.
            bind-Ends s (keyword (codes "character") s) spaces t
              (keyword-IsPattern (codes "character") s) spaces-IsPattern)
          (keyword-IsPattern (codes "varying")))
      length_at-IsPattern

pub type_rest-IsPattern : IsPattern type_rest
unfolding type_rest
type_rest-IsPattern = first_match-IsPattern type_patterns (
  followed _ ccsid (worded (codes "varchar") length_at length_at-IsPattern) ccsid-Ends,
  (
    followed _ ccsid varying ccsid-Ends,
    (
      followed char_at ccsid char_at-IsPattern ccsid-Ends,
      (
        worded (codes "varbinary") length_at length_at-IsPattern,
        (
          worded (codes "decimal") arguments_at arguments_at-IsPattern,
          (
            worded (codes "numeric") arguments_at arguments_at-IsPattern,
            (
              worded (codes "decfloat") arguments_at arguments_at-IsPattern,
              (
                followed _ precision (keyword-IsPattern (codes "timestamp")) precision-Ends,
                (
                  followed _ precision (keyword-IsPattern (codes "time")) precision-Ends,
                  (
                    followed _ ccsid (worded (codes "clob") arguments_at arguments_at-IsPattern)
                        ccsid-Ends,
                    (
                      worded (codes "blob") arguments_at arguments_at-IsPattern,
                      (
                        worded (codes "dbclob") arguments_at arguments_at-IsPattern,
                        (plain_word-IsPattern plain_words, tt),
                      ),
                    ),
                  ),
                ),
              ),
            ),
          ),
        ),
      ),
    ),
  ),
)

quoted_name-Ends : (read s name rest : Text) → quoted_name read s ≡ some (name, rest) → Ends s rest
unfolding quoted_name
quoted_name-Ends read [] name rest e = absurd cc
quoted_name-Ends read (c ∷ []) name rest e = (c ∷ [], ground arith)
quoted_name-Ends read (c ∷ d ∷ s) name rest e = elim (Bool-cases (c == b'"')) [
  | inr other ↦
      Ends-cons c (d ∷ s) rest (quoted_name-Ends (read ++ c ∷ []) (d ∷ s) name rest (ground arith))
  | inl quote ↦ elim (Bool-cases (d == b'"')) [
    | inr single ↦ (c ∷ [], ground arith)
    | inl pair ↦ elim (Option-cases (quoted_name (read ++ c ∷ d ∷ []) s)) [
      | inl shut ↦ (c ∷ [], ground arith)
      | inr ((found, r), longer) ↦
          Ends-cons c (d ∷ s) rest
            (Ends-cons d s rest (quoted_name-Ends (read ++ c ∷ d ∷ []) s name rest (ground arith)))
    ]
  ]
]

name_parts-Ends : (read s : Text) → Ends s (name_parts read s).1
unfolding name_parts
name_parts-Ends read [] = Ends-refl []
name_parts-Ends read (c ∷ s) = elim (Bool-cases (is_name_part c)) [
  | inl part ↦ simp part (Ends-cons c s _ (name_parts-Ends (read ++ c ∷ []) s))
  | inr other ↦ simp other (Ends-refl (c ∷ s))
]

name_at-Ends : (s name rest : Text) → name_at s ≡ some (name, rest) → Ends s rest
unfolding name_at
name_at-Ends [] name rest e = absurd cc
name_at-Ends (c ∷ s) name rest e = elim (Bool-cases (c == b'"')) [
  | inl quote ↦ Ends-cons c s rest (quoted_name-Ends (c ∷ []) s name rest (ground arith))
  | inr other ↦ elim (Bool-cases (is_word_start c)) [
    | inl word ↦ Ends-cons c s rest (subst (Ends s) (ground arith) (name_parts-Ends (c ∷ []) s))
    | inr neither ↦ absurd (ground arith)
  ]
]

pub column_rest-IsPattern : IsPattern column_rest
unfolding column_rest
column_rest-IsPattern s rest e = elim (Option-cases (name_at (trim_start s))) [
  | inl nothing ↦ absurd (ground arith)
  | inr ((name, r), found) ↦ Ends-trans s (trim_start s) rest (trim_start-Ends s) (
      Ends-trans (trim_start s) r rest (name_at-Ends (trim_start s) name r found)
        (spaces-IsPattern r rest (ground arith)))
]

matched-append : (read rest : Text) → matched (read ++ rest) rest ≡ read
unfolding matched
matched-append read rest =
    ap (λ n. take n (read ++ rest)) (omega (arith, length-append read rest)) ∙ take-append read rest

-- A text split by a match.
pub matched-Ends : (s rest : Text) → Ends s rest → matched s rest ++ rest ≡ s
matched-Ends s rest (read, e) =
    ap (λ t. matched t rest ++ rest) e ∙ ap (λ t. t ++ rest) (matched-append read rest) ∙ sym e
