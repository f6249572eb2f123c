-- ===== src/Ddl/References/Tokens.antt =====
-- The tokens of a statement, as a rename sees them: the texts that are written of them, before and
-- after.
use postgres_mapepire_proxy.Prelude.{
  ℕ, ◌==◌, List, [], ◌∷◌, ◌++◌, ◌≡◌, Text, Bool, true, false, not, every,
}
use postgres_mapepire_proxy.Sql.Text.{double}
use postgres_mapepire_proxy.Sql.Identifier.{is_word_start}
use postgres_mapepire_proxy.Ddl.Names.{is_name_part}
use postgres_mapepire_proxy.Ddl.References.{replaced}

-- A piece of SQL: a string, a quoted name, each by its content; a name as it is written, by its first
-- letter and the rest; or any other character.
pub data Token : Type 0 where
  string : Text → Token
  quoted_name : Text → Token
  plain_name : ℕ → Text → Token
  other : ℕ → Token

-- How it is written: a quote inside quotes is written twice.
abbrev pub written : Token → Text
written (string s) = 39 ∷ (double 39 s ++ 39 ∷ [])
written (quoted_name s) = b'"' ∷ (double b'"' s ++ b'"' ∷ [])
written (plain_name c s) = c ∷ s
written (other c) = c ∷ []

abbrev pub written_all : List Token → Text
written_all [] = []
written_all (t ∷ ts) = written t ++ written_all ts

-- The statement after the rename: the names that are the renamed column, quoted or not, are the new
-- one, and all else is as it was.
abbrev pub renamed : Text → Text → Token → Text
renamed old new (string s) = written (string s)
renamed old new (quoted_name s) = replaced old new (written (quoted_name s))
renamed old new (plain_name c s) = replaced old new (written (plain_name c s))
renamed old new (other c) = written (other c)

abbrev pub renamed_all : Text → Text → List Token → Text
renamed_all old new [] = []
renamed_all old new (t ∷ ts) = renamed old new t ++ renamed_all old new ts

-- A text that does not begin with a character of a kind.
abbrev pub starts_without : (ℕ → Bool) → Text → Bool
starts_without p [] = true
starts_without p (c ∷ s) = not (p c)

-- A name is made of the characters of names, another character begins no token of another kind; and a
-- token is not followed by what would make it longer.
abbrev pub IsToken : Token → Text → Type 0
IsToken (string s) rest = starts_without (λ c. c == 39) rest ≡ true
IsToken (quoted_name s) rest = starts_without (λ c. c == b'"') rest ≡ true
IsToken (plain_name c s) rest =
    (is_word_start c ≡ true)
    × (every is_name_part s ≡ true)
    × (starts_without is_name_part rest ≡ true)
IsToken (other c) rest = ((c == 39) ≡ false) × ((c == b'"') ≡ false) × (is_word_start c ≡ false)

abbrev pub AreTokens : List Token → Type 0
AreTokens [] = Unit {0}
AreTokens (t ∷ ts) = IsToken t (written_all ts) × AreTokens ts
