-- ===== src/Ddl/ColumnTypes/Patterns.antt =====
-- What stands behind a match is the end of the text, for the patterns of a column's type.
use postgres_mapepire_proxy.Prelude.{
  ℕ, ◌==◌, List, [], ◌∷◌, ◌++◌, Option, none, some, Text, codes, ◌≡◌, refl, sym, ap, ◌∙◌, subst,
  arith, append_assoc, Bool-cases, Option-cases, inl, inr,
}
use postgres_mapepire_proxy.Sql.Text.{
  is_space, trim_start, keyword, spaces, lower, is_digit, or_match, ◌>>=◌,
}
use postgres_mapepire_proxy.Ddl.ColumnTypes.{
  mark_at, digits, number_at, up_to_close, length_at, arguments_at, ccsid, precision, word_ends,
  plain_word, char_at,
}

-- `rest` is the end of `s`.
abbrev pub Ends : Text → Text → Type 0
Ends s rest = (read : Text) × (s ≡ read ++ rest)

pub Ends-refl : (s : Text) → Ends s s
Ends-refl s = ([], refl)

pub Ends-cons : (c : ℕ) (s rest : Text) → Ends s rest → Ends (c ∷ s) rest
Ends-cons c s rest (read, e) = (c ∷ read, ap (◌∷◌ c) e)

pub Ends-trans : (s r rest : Text) → Ends s r → Ends r rest → Ends s rest
Ends-trans s r rest (read, e) (more, f) =
    (read ++ more, e ∙ ap (◌++◌ read) f ∙ sym (append_assoc read more rest))

-- A pattern, which matches at the front.
abbrev pub IsPattern : (Text → Option Text) → Type 0
IsPattern p = (s rest : Text) → p s ≡ some rest → Ends s rest

-- One pattern behind another.
pub bind-Ends :
    (s : Text) (o : Option Text) (q : Text → Option Text) (rest : Text)
    → ((r : Text) → o ≡ some r → Ends s r)
    → IsPattern q
    → (o >>= q) ≡ some rest
    → Ends s rest
bind-Ends s none q rest h k e = absurd cc
bind-Ends s (some r) q rest h k e = Ends-trans s r rest (h r refl) (k r rest e)

-- One pattern or another.
pub or_match-Ends :
    (s : Text) (o p : Option Text) (rest : Text)
    → ((r : Text) → o ≡ some r → Ends s r)
    → ((r : Text) → p ≡ some r → Ends s r)
    → or_match o p ≡ some rest
    → Ends s rest
or_match-Ends s none p rest h k e = k rest e
or_match-Ends s (some r) p rest h k e = h rest e

pub trim_start-Ends : (s : Text) → Ends s (trim_start s)
unfolding trim_start
trim_start-Ends [] = Ends-refl []
trim_start-Ends (c ∷ s) = elim (Bool-cases (is_space c)) [
  | inl e ↦ simp e (Ends-cons c s (trim_start s) (trim_start-Ends s))
  | inr e ↦ simp e (Ends-refl (c ∷ s))
]

pub keyword-IsPattern : (word : Text) → IsPattern (keyword word)
unfolding keyword
keyword-IsPattern [] s rest e = ([], ground arith)
keyword-IsPattern (k ∷ word) [] rest e = absurd cc
keyword-IsPattern (k ∷ word) (c ∷ s) rest e = elim (Bool-cases (lower c == k)) [
  | inl same ↦ Ends-cons c s rest (keyword-IsPattern word s rest (ground arith))
  | inr other ↦ absurd (ground arith)
]

pub spaces-IsPattern : IsPattern spaces
unfolding spaces
spaces-IsPattern [] rest e = absurd cc
spaces-IsPattern (c ∷ s) rest e = elim (Bool-cases (is_space c)) [
  | inl space ↦ Ends-cons c s rest (subst (Ends s) (ground arith) (trim_start-Ends s))
  | inr other ↦ absurd (ground arith)
]

mark_at-IsPattern : (wanted : ℕ) → IsPattern (mark_at wanted)
unfolding mark_at
mark_at-IsPattern wanted s rest e = go (trim_start s) refl
  where
    go : (t : Text) → trim_start s ≡ t → Ends s rest
    go [] h = absurd (ground arith)
    go (c ∷ t) h = elim (Bool-cases (c == wanted)) [
      | inl same ↦
          let here : Ends (c ∷ t) rest = (c ∷ [], ground arith) in
          Ends-trans s (c ∷ t) rest (subst (Ends s) h (trim_start-Ends s)) here
      | inr other ↦ absurd (ground arith)
    ]

digits-Ends : (s : Text) → Ends s (digits s)
unfolding digits
digits-Ends [] = Ends-refl []
digits-Ends (c ∷ s) = elim (Bool-cases (is_digit c)) [
  | inl e ↦ simp e (Ends-cons c s (digits s) (digits-Ends s))
  | inr e ↦ simp e (Ends-refl (c ∷ s))
]

number_at-IsPattern : IsPattern number_at
unfolding number_at
number_at-IsPattern [] rest e = absurd cc
number_at-IsPattern (c ∷ s) rest e = elim (Bool-cases (is_digit c)) [
  | inl digit ↦ Ends-cons c s rest (subst (Ends s) (ground arith) (digits-Ends s))
  | inr other ↦ absurd (ground arith)
]

up_to_close-Ends :
    (read s inner rest : Text) → up_to_close read s ≡ some (inner, rest) → Ends s rest
unfolding up_to_close
up_to_close-Ends read [] inner rest e = absurd cc
up_to_close-Ends read (c ∷ s) inner rest e = elim (Bool-cases (c == b')')) [
  | inl close ↦ (c ∷ [], ground arith)
  | inr other ↦ Ends-cons c s rest (up_to_close-Ends (read ++ c ∷ []) s inner rest (ground arith))
]

pub length_at-IsPattern : IsPattern length_at
unfolding length_at
length_at-IsPattern s rest e =
    bind-Ends s (mark_at b'(' s) (λ r. number_at (trim_start r) >>= λ r'. mark_at b')' r') rest
      (mark_at-IsPattern b'(' s) number e
  where
    number : IsPattern (λ r. number_at (trim_start r) >>= λ r'. mark_at b')' r')
    number r rest' f = Ends-trans r (trim_start r) rest' (trim_start-Ends r) (
        bind-Ends (trim_start r) (number_at (trim_start r)) (mark_at b')') rest'
          (number_at-IsPattern (trim_start r)) (mark_at-IsPattern b')') f)

pub arguments_at-IsPattern : IsPattern arguments_at
unfolding arguments_at
arguments_at-IsPattern s rest e =
    bind-Ends s (mark_at b'(' s) (λ r. up_to_close [] r >>= λ (read, end). some end) rest
      (mark_at-IsPattern b'(' s) inside e
  where
    inside : IsPattern (λ r. up_to_close [] r >>= λ (read, end). some end)
    inside r rest' f = elim (Option-cases (up_to_close [] r)) [
      | inl nothing ↦ absurd (ground arith)
      | inr ((read, end), found) ↦ up_to_close-Ends [] r read rest' (ground arith)
    ]

optional-Ends :
    (s : Text) (o : Option Text)
    → ((r : Text) → o ≡ some r → Ends s r)
    → Ends s (elim o [ some rest ↦ rest | none ↦ s ])
optional-Ends s none h = Ends-refl s
optional-Ends s (some r) h = h r refl

pub ccsid-Ends : (s : Text) → Ends s (ccsid s)
unfolding ccsid
ccsid-Ends s = optional-Ends s (spaces s >>= keyword (codes "ccsid") >>= spaces >>= number_at) (λ r.
    bind-Ends s (spaces s >>= keyword (codes "ccsid") >>= spaces) number_at r
      (λ r'.
        bind-Ends s (spaces s >>= keyword (codes "ccsid")) spaces r'
          (λ t.
            bind-Ends s (spaces s) (keyword (codes "ccsid")) t (spaces-IsPattern s)
              (keyword-IsPattern (codes "ccsid")))
          spaces-IsPattern)
      number_at-IsPattern)

pub precision-Ends : (s : Text) → Ends s (precision s)
unfolding precision
precision-Ends s = optional-Ends s (length_at s) (length_at-IsPattern s)

word_ends-IsPattern : IsPattern word_ends
word_ends-IsPattern [] rest e = ([], ground arith)
word_ends-IsPattern (c ∷ s) rest e = ([], ground arith)

pub plain_word-IsPattern : (words : List Text) → IsPattern (plain_word words)
unfolding plain_word
plain_word-IsPattern [] s rest e = absurd cc
plain_word-IsPattern (word ∷ words) s rest e =
    or_match-Ends s (keyword word s >>= word_ends) (plain_word words s) rest
      (λ r. bind-Ends s (keyword word s) word_ends r (keyword-IsPattern word s) word_ends-IsPattern)
      (plain_word-IsPattern words s) e

-- A keyword and a pattern.
pub worded :
    (word : Text) (p : Text → Option Text) → IsPattern p → IsPattern (λ s. keyword word s >>= p)
worded word p h s rest e = bind-Ends s (keyword word s) p rest (keyword-IsPattern word s) h e

-- A pattern and something that may be missing.
pub followed :
    (p : Text → Option Text) (f : Text → Text)
    → IsPattern p
    → ((s : Text) → Ends s (f s))
    → IsPattern (λ s. p s >>= λ r. some (f r))
followed p f h k s rest e =
    bind-Ends s (p s) (λ r. some (f r)) rest (h s)
      (λ r rest' g. subst (Ends r) (ground arith) (k r)) e

-- One of two patterns.
either :
    (p q : Text → Option Text) → IsPattern p → IsPattern q → IsPattern (λ s. or_match (p s) (q s))
either p q h k s rest e = or_match-Ends s (p s) (q s) rest (h s) (k s) e

pub char_at-IsPattern : IsPattern char_at
unfolding char_at
char_at-IsPattern =
    either (λ s. keyword (codes "character") s >>= length_at)
      (λ s. keyword (codes "char") s >>= length_at)
      (worded (codes "character") length_at length_at-IsPattern)
      (worded (codes "char") length_at length_at-IsPattern)
