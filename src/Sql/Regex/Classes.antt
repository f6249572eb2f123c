-- ===== src/Sql/Regex/Classes.antt =====
-- The pieces that the patterns of the SQL modules are built of.
use postgres_mapepire_proxy.Prelude.{ℕ, ◌==◌, [], ◌∷◌, not, Text}
use postgres_mapepire_proxy.Sql.Text.{is_space, is_digit, lower}
use postgres_mapepire_proxy.Sql.Identifier.{is_word_start}
use postgres_mapepire_proxy.Ddl.Names.{is_name_part}
use postgres_mapepire_proxy.Sql.Regex.{Regex, empty, one, ◌~◌, ◌<|>◌, star, boundary}

-- A text as it stands.
abbrev pub text : Text → Regex
text [] = empty
text (c ∷ s) = one (λ d. d == c) ~ text s

-- A text in small letters under the flag i.
abbrev pub word : Text → Regex
word [] = empty
word (c ∷ s) = one (λ d. lower d == c) ~ word s

abbrev pub plus : Regex → Regex
plus r = r ~ star r

abbrev pub maybe : Regex → Regex
maybe r = r <|> empty

-- `\s*`, `\s+` and `\d+`
abbrev pub blanks : Regex
blanks = star (one is_space)

abbrev pub spaces1 : Regex
spaces1 = plus (one is_space)

abbrev pub digits1 : Regex
digits1 = plus (one is_digit)

-- `(?:[^q]|qq)*`
abbrev pub inner : ℕ → Regex
inner q = star (one (λ c. not (c == q)) <|> one (λ c. c == q) ~ one (λ c. c == q))

-- `q(?:[^q]|qq)*q`
abbrev pub quoted : ℕ → Regex
quoted q = one (λ c. c == q) ~ inner q ~ one (λ c. c == q)

-- `[A-Za-z_][A-Za-z0-9_$#@]*`
abbrev pub plain : Regex
plain = one is_word_start ~ star (one is_name_part)

-- `"(?:[^"]|"")*"|[A-Za-z_][A-Za-z0-9_$#@]*`
abbrev pub identifier : Regex
identifier = quoted b'"' <|> plain

-- `\bword\b`
abbrev pub whole : Text → Regex
whole w = boundary ~ word w ~ boundary
