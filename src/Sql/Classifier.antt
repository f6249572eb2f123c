-- ===== src/Sql/Classifier.antt =====
-- sql/classifier.ts: classify. The parser, a package, is a parameter: the type of the first node of
-- what it reads, in small letters and empty where there is none, or none where it throws.
use postgres_mapepire_proxy.Prelude.{
  ℕ, ◌==◌, List, [], ◌∷◌, Bool, true, false, not, ◌&&◌, ◌||◌, if◌then◌else◌, Option, none, some,
  Text, codes, text_eq, some_of,
}
use postgres_mapepire_proxy.Sql.Text.{trim, trim_start, keyword, lower, is_letter, is_digit}
use postgres_mapepire_proxy.Session.State.{
  Kind, select, insert, update, delete, merge, ddl, call, values, begin, commit, rollback, set,
  show, other,
}

-- replace(/^\(+/, '')
unfoldable pub without_parens : Text → Text
without_parens [] = []
without_parens (c ∷ s) = let rest = without_parens s in if c == b'(' then rest else c ∷ s

-- `^([A-Za-z]+)` in small letters, or the empty text.
unfoldable pub first_word : Text → Text
first_word [] = []
first_word (c ∷ s) = let rest = first_word s in if is_letter c then lower c ∷ rest else []

-- A character of `\w`
abbrev pub is_word_char : ℕ → Bool
is_word_char c = is_letter c || is_digit c || c == b'_'

abbrev pub ends_word : Text → Bool
ends_word [] = true
ends_word (c ∷ s) = not (is_word_char c)

-- `/\btransaction\b/i.test(s)`; the flag says that the character before is one of a word.
unfoldable pub has_word : Text → Bool → Text → Bool
has_word word after [] = false
has_word word after (c ∷ s) =
    let later = has_word word (is_word_char c) s in
    elim (keyword word (c ∷ s)) [
      | none ↦ later
      | some rest ↦ if not after && ends_word rest then true else later
    ]

abbrev pub is_one_of : List Text → Text → Bool
is_one_of words w = some_of (λ x. text_eq x w) words

-- The kinds of the parser's fallback.
unfoldable pub kind_of_node : Option Text → Kind
kind_of_node none = other
kind_of_node (some t) =
    if text_eq t (codes "select")
    then select
    else if text_eq t (codes "insert")
    then insert
    else if text_eq t (codes "update")
    then update
    else if text_eq t (codes "delete")
    then delete
    else other

-- classify(sql)
unfoldable pub classify : (Text → Option Text) → Text → Kind
classify astify sql =
    let s = trim_start (without_parens (trim sql)) in
    let first = first_word s in
    if text_eq first (codes "begin")
      || (text_eq first (codes "start") && has_word (codes "transaction") false s)
    then begin
    else if is_one_of (codes "commit" ∷ codes "end" ∷ []) first
    then commit
    else if text_eq first (codes "rollback")
    then rollback
    else if text_eq first (codes "set")
    then set
    else if text_eq first (codes "show")
    then show
    else if text_eq first (codes "values")
    then values
    else if text_eq first (codes "select")
    then select
    else if text_eq first (codes "insert")
    then insert
    else if text_eq first (codes "update")
    then update
    else if text_eq first (codes "delete")
    then delete
    else if text_eq first (codes "merge")
    then merge
    else if text_eq first (codes "call")
    then call
    else if is_one_of
        (codes "create"
          ∷ codes "alter"
          ∷ codes "drop"
          ∷ codes "truncate"
          ∷ codes "comment"
          ∷ codes "grant"
          ∷ codes "revoke"
          ∷ [])
        first
    then ddl
    else kind_of_node (astify sql)
