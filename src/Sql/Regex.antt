-- ===== src/Sql/Regex.antt =====
-- The regular expressions of the SQL modules: a pattern as data, and a matcher that tries the
-- alternatives in JavaScript's order, takes as many rounds of a star as it can and goes back. A
-- letter of a pattern written by `word` stands for both cases of an ASCII letter, as under the flag i.
pub mod Laws
pub mod Classes
use postgres_mapepire_proxy.Prelude.{
  ℕ, zero, suc, ◌-◌, ◌==◌, List, [], ◌∷◌, ◌++◌, Bool, true, false, not, ltb, ◌||◌, ◌&&◌,
  if◌then◌else◌, Option, none, some, Text, length, take, drop,
}
use postgres_mapepire_proxy.Sql.Text.{is_letter, is_digit, lower, or_match}

infixr 22 ◌~◌
infixr 21 ◌<|>◌
pub data Regex : Type 0 where
  empty : Regex
  one : (ℕ → Bool) → Regex
  ◌~◌ ◌<|>◌ : Regex → Regex → Regex
  star : Regex → Regex
  -- `(…)`, with its number
  group : ℕ → Regex → Regex
  -- `(?=…)`, `(?!…)` and `(?<!…)` of one character
  ahead not_ahead : Regex → Regex
  not_behind : (ℕ → Bool) → Regex
  -- `^`, `$` and `\b`
  at_start at_end boundary : Regex

-- A place in a text: the character before it, the text behind it, and what is captured so far.
pub record Place : Type 0 where
  pub before : Option ℕ
  pub rest : Text
  pub captured : List (ℕ × Text)

-- A character of `\w`
abbrev pub is_word_char : ℕ → Bool
is_word_char c = is_letter c || is_digit c || c == b'_'

abbrev pub of_word : Option ℕ → Bool
of_word none = false
of_word (some c) = is_word_char c

abbrev pub first_of : Text → Option ℕ
first_of [] = none
first_of (c ∷ s) = some c

unfoldable pub at_boundary : Place → Bool
at_boundary p =
    if of_word p.before then not (of_word (first_of p.rest)) else of_word (first_of p.rest)

-- What follows a pattern: the rest of the match.
abbrev pub Rest : Type 0
Rest = Place → Option Place

unfoldable pub take_one : (ℕ → Bool) → Option ℕ → Text → List (ℕ × Text) → Rest → Option Place
take_one test before [] captured k = none
take_one test before (c ∷ s) captured k =
    if test c then k (record { before = some c; rest = s; captured = captured }) else none

-- The text between two places.
unfoldable pub between : Place → Place → Text
between p q = take (length p.rest - length q.rest) p.rest

abbrev pub capture : ℕ → Place → Place → Place
capture n p q = record q { captured = (n, between p q) ∷ q.captured }

-- The rounds of a star, each of which has to go on.
unfoldable pub rounds : ℕ → (Rest → Rest) → Rest → Rest
rounds zero m k p = k p
rounds (suc fuel) m k p =
    let again : Rest = rounds fuel m k in
    or_match (m (λ q. if ltb (length q.rest) (length p.rest) then again q else none) p) (k p)

abbrev pub is_none {ℓ} : {A : Type ℓ} → Option A → Bool
is_none none = true
is_none (some a) = false

abbrev pub not_after : (ℕ → Bool) → Option ℕ → Bool
not_after test none = true
not_after test (some c) = not (test c)

-- Behind a look ahead the place is the same, with what it captured.
unfoldable pub look : Option Place → Rest → Rest
look none k p = none
look (some q) k p = k (record p { captured = q.captured })

unfoldable pub run : Regex → Rest → Rest
run empty k p = k p
run (one test) k p = take_one test p.before p.rest p.captured k
run (r ~ s) k p = run r (run s k) p
run (r <|> s) k p = or_match (run r k p) (run s k p)
run (star r) k p = rounds (length p.rest) (run r) k p
run (group n r) k p = run r (λ q. k (capture n p q)) p
run (ahead r) k p = look (run r some p) k p
run (not_ahead r) k p = if is_none (run r some p) then k p else none
run (not_behind test) k p = if not_after test p.before then k p else none
run at_start k p = if is_none p.before then k p else none
run at_end k p = if is_none (first_of p.rest) then k p else none
run boundary k p = if at_boundary p then k p else none

-- A match: its text, its groups, the last one captured first, and the text behind it.
pub record Match : Type 0 where
  pub matched : Text
  pub groups : List (ℕ × Text)
  pub behind : Text

-- The match that ends at a place, of a search that began at another.
abbrev pub match_of : Option Place → Place → Option Match
match_of none p = none
match_of (some q) p = some (record { matched = between p q; groups = q.captured; behind = q.rest })

abbrev pub place : Option ℕ → Text → Place
place before s = record { before = before; rest = s; captured = [] }

unfoldable pub match_at : Regex → Option ℕ → Text → Option Match
match_at r before s = match_of (run r some (place before s)) (place before s)

-- The first match from left to right, with the text in front of it.
unfoldable pub search_from : Regex → Option ℕ → Text → Text → Option (Text × Match)
search_from r before front [] = elim (match_at r before []) [
  | none ↦ none
  | some m ↦ some (front, m)
]
search_from r before front (c ∷ s) = elim (match_at r before (c ∷ s)) [
  | some m ↦ some (front, m)
  | none ↦ search_from r (some c) (front ++ c ∷ []) s
]

-- r.exec(s)
unfoldable pub exec : Regex → Text → Option (Text × Match)
exec r s = search_from r none [] s

-- r.test(s)
unfoldable pub test : Regex → Text → Bool
test r s = not (is_none (exec r s))

-- m[n]
unfoldable pub group_from : ℕ → List (ℕ × Text) → Option Text
group_from n [] = none
group_from n ((i, t) ∷ groups) = if i == n then some t else group_from n groups

unfoldable pub group_of : ℕ → Match → Option Text
group_of n m = group_from n m.groups

-- m[n], where the group is on every way through the pattern.
unfoldable pub text_from : ℕ → List (ℕ × Text) → Text
text_from n groups = elim (group_from n groups) [ none ↦ [] | some t ↦ t ]

abbrev pub text_of : ℕ → Match → Text
text_of n m = text_from n m.groups

-- s.replace(r, f), without the flag g
unfoldable pub replace : Regex → (Match → Text) → Text → Text
replace r f s = elim (exec r s) [ none ↦ s | some (front, m) ↦ front ++ f m ++ m.behind ]

-- The text from a character `c` on, behind which `onward n` passes over `n` characters first: the
-- replacement of a match, and the character itself where there is none or it is empty.
unfoldable pub onto : Text → ℕ → (ℕ → Text) → Text → Text
onto [] c onward replacement = replacement ++ c ∷ onward 0
onto (d ∷ t) c onward replacement = replacement ++ onward (length t)

unfoldable pub replace_here : (Match → Text) → ℕ → (ℕ → Text) → Option Match → Text
replace_here f c onward none = c ∷ onward 0
replace_here f c onward (some m) = onto m.matched c onward (f m)

unfoldable pub replace_end : (Match → Text) → Option Match → Text
replace_end f none = []
replace_end f (some m) = f m

-- s.replace(r, f), with the flag g: the first number counts the characters of a match that are still
-- to be passed over.
unfoldable pub replace_from : Regex → (Match → Text) → ℕ → Option ℕ → Text → Text
replace_from r f zero before [] = replace_end f (match_at r before [])
replace_from r f (suc skip) before [] = []
replace_from r f (suc skip) before (c ∷ s) = replace_from r f skip (some c) s
replace_from r f zero before (c ∷ s) =
    replace_here f c (λ n. replace_from r f n (some c) s) (match_at r before (c ∷ s))

unfoldable pub replace_all : Regex → (Match → Text) → Text → Text
replace_all r f s = replace_from r f 0 none s
