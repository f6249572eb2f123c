-- ===== src/Sql/Text.antt =====
-- What the SQL modules use of JavaScript's strings and regular expressions, on texts as lists of
-- UTF-16 code units: `trim`, `\s`, ASCII case, prefixes without regard to case, `replaceAll`.
pub mod Laws
pub mod Decimal
use mathlib.Core.List.{reverse}
use postgres_mapepire_proxy.Prelude.{
  ℕ, zero, suc, ◌+◌, ◌-◌, ◌/◌, ◌%◌, List, [], ◌∷◌, ◌++◌, ltb, leb, ◌==◌, Bool, true, false, not,
  Option, none, some, ◌&&◌, ◌||◌, if◌then◌else◌, Text, map,
}

-- The class `\s`, which is also what `trim` removes.
unfoldable pub is_space : ℕ → Bool
is_space c =
    (leb 9 c && leb c 13)
    || c == 32
    || c == 160
    || c == 0x1680
    || (leb 0x2000 c && leb c 0x200a)
    || c == 0x2028
    || c == 0x2029
    || c == 0x202f
    || c == 0x205f
    || c == 0x3000
    || c == 0xfeff

-- ASCII letters: `toLowerCase` and `toUpperCase` on texts of the classes [A-Za-z0-9_$#@].
unfoldable pub lower : ℕ → ℕ
lower c = if leb b'A' c && leb c b'Z' then c + 32 else c

unfoldable pub upper : ℕ → ℕ
upper c = if leb b'a' c && leb c b'z' then c - 32 else c

abbrev pub is_digit : ℕ → Bool
is_digit c = leb b'0' c && leb c b'9'

abbrev pub is_letter : ℕ → Bool
is_letter c = (leb b'A' c && leb c b'Z') || (leb b'a' c && leb c b'z')

-- s.trimStart()
unfoldable pub trim_start : Text → Text
trim_start [] = []
trim_start (c ∷ s) = let rest = trim_start s in if is_space c then rest else c ∷ s

-- s.trimEnd()
unfoldable pub trim_end : Text → Text
trim_end s = reverse (trim_start (reverse s))

-- s.trim()
unfoldable pub trim : Text → Text
trim s = trim_end (trim_start s)

-- The text without a run of semicolons at its front, read backwards: one for /;\s*$/, all of them
-- for /;+\s*$/.
drop_first : Bool → Text → Text
drop_first many [] = []
drop_first many (c ∷ s) =
    let rest = if many then drop_first many s else s in if c == b';' then rest else c ∷ s

cut : Bool → Text → Text → Text
unfolding drop_first
cut many s [] = s
cut many s (c ∷ r) = if c == b';' then reverse (drop_first many (c ∷ r)) else s

-- s.replace(/;\s*$/, '') and s.replace(/;+\s*$/, '')
unfoldable pub cut_semicolon : Text → Text
unfolding cut
cut_semicolon s = cut false s (trim_start (reverse s))

unfoldable pub cut_semicolons : Text → Text
unfolding cut
cut_semicolons s = cut true s (trim_start (reverse s))

-- s.replace(/\s+/g, ' '); the flag says that the character before was a space.
unfoldable pub collapse_from : Bool → Text → Text
collapse_from after [] = []
collapse_from after (c ∷ s) =
    let rest = collapse_from (is_space c) s in
    if is_space c then (if after then rest else 32 ∷ rest) else c ∷ rest

unfoldable pub collapse : Text → Text
unfolding collapse_from
collapse = collapse_from false

-- A keyword in lower case at the front, without regard to case: what stands behind it.
unfoldable pub keyword : Text → Text → Option Text
keyword [] s = some s
keyword (k ∷ ks) [] = none
keyword (k ∷ ks) (c ∷ s) = if lower c == k then keyword ks s else none

-- `\s+` at the front: what stands behind it.
unfoldable pub spaces : Text → Option Text
spaces [] = none
spaces (c ∷ s) = if is_space c then some (trim_start s) else none

-- s.replaceAll(qq, q), for a quote `q` and the same quote twice.
unfoldable pub undouble : ℕ → Text → Text
undouble q [] = []
undouble q (c ∷ []) = c ∷ []
undouble q (c ∷ d ∷ s) =
    let pair = c ∷ undouble q s in
    let single = c ∷ undouble q (d ∷ s) in if c == q && d == q then pair else single

-- s.replaceAll(q, qq)
unfoldable pub double : ℕ → Text → Text
double q [] = []
double q (c ∷ s) = if c == q then q ∷ q ∷ double q s else c ∷ double q s

-- `a || b` of two matches tried in order.
abbrev pub or_match {ℓ} : {A : Type ℓ} → Option A → Option A → Option A
or_match (some a) b = some a
or_match none b = b

infixl 5 ◌>>=◌
abbrev pub ◌>>=◌ {ℓ κ} : {A : Type ℓ} {B : Type κ} → Option A → (A → Option B) → Option B
none >>= f = none
some a >>= f = f a

-- A number in decimal, with enough fuel for its digits.
digits : ℕ → ℕ → Text → Text
digits zero n acc = acc
digits (suc f) n acc =
    let rest = digits f (n / 10) ((b'0' + n % 10) ∷ acc) in
    if ltb n 10 then (b'0' + n) ∷ acc else rest

unfoldable pub decimal : ℕ → Text
unfolding digits
decimal n = digits (suc n) n []
