-- ===== src/Sql/Deallocate.antt =====
-- sql/prepared-control.ts: parsePgDeallocate.
use postgres_mapepire_proxy.Prelude.{
  ℕ, ◌==◌, [], ◌∷◌, Bool, false, not, ◌||◌, if◌then◌else◌, Option, none, some, Text, codes, every,
}
use postgres_mapepire_proxy.Sql.Text.{trim, cut_semicolons, keyword, spaces, or_match, ◌>>=◌}
use postgres_mapepire_proxy.Sql.Identifier.{is_identifier, decode_pg_identifier}
use postgres_mapepire_proxy.Sql.SearchPath.{is_word}

-- PgDeallocateCommand
pub data DeallocateCommand : Type 0 where
  all : DeallocateCommand
  one : Text → DeallocateCommand

-- A character that `.` does not match.
abbrev pub is_line_end : ℕ → Bool
is_line_end c = c == 10 || c == 13 || c == 0x2028 || c == 0x2029

-- Two blanks or more, of which the last is no line end: `\s+(.+)$` with nothing but blanks.
unfoldable pub blank_argument : Text → Bool
blank_argument [] = false
blank_argument (c ∷ []) = false
blank_argument (c ∷ d ∷ []) = not (is_line_end d)
blank_argument (c ∷ d ∷ e ∷ s) = blank_argument (d ∷ e ∷ s)

-- `\s+(.+)$`, the group trimmed.
unfoldable pub argument : Text → Option Text
argument s = spaces s >>= λ r. elim r [
  | [] ↦ if blank_argument s then some [] else none
  | c ∷ t ↦ if every (λ d. not (is_line_end d)) (c ∷ t) then some (trim (c ∷ t)) else none
]

-- parseIdentifier(token)
unfoldable pub parse_identifier : Text → Option Text
parse_identifier token = if is_identifier token then some (decode_pg_identifier token) else none

-- parsePgDeallocate(sql)
unfoldable pub parse_deallocate : Text → Option DeallocateCommand
parse_deallocate sql = keyword (codes "deallocate") (cut_semicolons (trim sql)) >>= λ r.
    or_match (spaces r >>= keyword (codes "prepare") >>= argument) (argument r) >>= λ token.
    if is_word (codes "all") token
    then some all
    else elim (parse_identifier token) [ none ↦ none | some name ↦ some (one name) ]
