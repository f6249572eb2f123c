-- ===== src/Sql/LockQuery.antt =====
-- sql/advisory-lock.ts: parsePgAdvisoryLockQuery and parseAdvisoryKey. BigInt(text).toString() is the
-- text's digits without the zeros in front, and the sign of a number below zero.
use postgres_mapepire_proxy.Prelude.{
  ℕ, zero, suc, length, ◌+◌, ◌-◌, ◌*◌, ◌^◌, ◌==◌, ltb, List, [], ◌∷◌, ◌++◌, Bool, true, false, not,
  ◌&&◌, ◌||◌, if◌then◌else◌, Option, none, some, Text, codes, every,
}
use postgres_mapepire_proxy.Sql.Text.{
  trim, cut_semicolons, collapse, keyword, spaces, is_digit, or_match, ◌>>=◌,
}
use postgres_mapepire_proxy.Sql.Identifier.{is_word_start, is_word_part}
use postgres_mapepire_proxy.Ddl.ColumnTypes.{mark_at, up_to_close}
use postgres_mapepire_proxy.Sql.Locks.{LockQuery, LockAction, try_lock, unlock, unlock_all}

-- What stands behind the first `*/`.
unfoldable pub behind_comment : Text → Option Text
behind_comment [] = none
behind_comment (c ∷ []) = none
behind_comment (c ∷ d ∷ s) =
    let later = behind_comment (d ∷ s) in if c == b'*' && d == b'/' then some s else later

-- replace(/\/\*[\s\S]*?\*\//g, ' '), with fuel for the comments.
unfoldable pub without_blocks : ℕ → Text → Text
without_blocks zero s = s
without_blocks (suc fuel) [] = []
without_blocks (suc fuel) (c ∷ []) = c ∷ []
without_blocks (suc fuel) (c ∷ d ∷ s) =
    let kept = c ∷ without_blocks fuel (d ∷ s) in
    if c == b'/' && d == b'*'
    then elim (behind_comment s) [ none ↦ kept | some rest ↦ 32 ∷ without_blocks fuel rest ]
    else kept

-- replace(/--[^\r\n]*/g, ' '); the flag says that a comment is open.
unfoldable pub without_lines : Bool → Text → Text
without_lines open_comment [] = []
without_lines true (c ∷ s) =
    let inside = without_lines true s in
    let ends = c ∷ without_lines false s in if c == 10 || c == 13 then ends else inside
without_lines false (c ∷ []) = c ∷ []
without_lines false (c ∷ d ∷ s) =
    let opens = 32 ∷ without_lines true s in
    let next = c ∷ without_lines false (d ∷ s) in if c == b'-' && d == b'-' then opens else next

-- `^[+-]?\d+$`: whether the number is below zero or written so, and its digits.
unfoldable pub signed_digits : Text → Option (Bool × Text)
signed_digits [] = none
signed_digits (c ∷ []) = if is_digit c then some (false, c ∷ []) else none
signed_digits (c ∷ d ∷ s) =
    if every is_digit (c ∷ d ∷ s)
    then some (false, c ∷ d ∷ s)
    else if (c == b'-' || c == b'+') && every is_digit (d ∷ s)
    then some (c == b'-', d ∷ s)
    else none

-- Digits without the zeros in front of the last one.
unfoldable pub shortest : Text → Text
shortest [] = []
shortest (c ∷ []) = c ∷ []
shortest (c ∷ d ∷ s) = let rest = shortest (d ∷ s) in if c == b'0' then rest else c ∷ d ∷ s

-- BigInt(text).toString()
unfoldable pub printed_number : Bool × Text → Text
printed_number (below, digits) = elim (shortest digits) [
  | [] ↦ []
  | c ∷ s ↦ if below && not (c == b'0') then b'-' ∷ c ∷ s else c ∷ s
]

-- The value of digits.
unfoldable pub number_from : ℕ → Text → ℕ
number_from n [] = n
number_from n (c ∷ s) = number_from (n * 10 + (c - b'0')) s

-- The test for a 32-bit integer.
unfoldable pub is_int4 : Bool × Text → Bool
is_int4 (below, digits) =
    let n = number_from 0 digits in if below then not (ltb (2 ^ 31) n) else ltb n (2 ^ 31)

-- argsText.split(',').map((part) => part.trim())
unfoldable pub arguments_from : Text → Text → List Text
arguments_from part [] = trim part ∷ []
arguments_from part (c ∷ s) =
    let next = trim part ∷ arguments_from [] s in
    let longer = arguments_from (part ++ c ∷ []) s in if c == b',' then next else longer

-- parseAdvisoryKey(argsText)
unfoldable pub parse_advisory_key : Text → Option Text
parse_advisory_key arguments = elim (arguments_from [] arguments) [
  | [] ↦ none
  | a ∷ [] ↦ signed_digits a >>= λ n. some (codes "bigint:" ++ printed_number n)
  | a ∷ b ∷ [] ↦ signed_digits a >>= λ n. signed_digits b >>= λ m.
      if is_int4 n && is_int4 m
      then some (codes "int4pair:" ++ printed_number n ++ b':' ∷ printed_number m)
      else none
  | a ∷ b ∷ c ∷ more ↦ none
]

-- `"([^"]+)"$` behind the first quote.
unfoldable pub quoted_alias : Text → Option Text
quoted_alias [] = none
quoted_alias (c ∷ []) = none
quoted_alias (c ∷ d ∷ []) = if not (c == b'"') && d == b'"' then some (c ∷ []) else none
quoted_alias (c ∷ d ∷ e ∷ s) =
    let rest = quoted_alias (d ∷ e ∷ s) in
    if c == b'"' then none else elim rest [ none ↦ none | some alias ↦ some (c ∷ alias) ]

unfoldable pub alias_text : Text → Option Text
alias_text [] = none
alias_text (c ∷ s) =
    if c == b'"'
    then quoted_alias s
    else if is_word_start c && every is_word_part s
    then some (c ∷ s)
    else none

-- `(?:\s+as\s+(?:"([^"]+)"|([a-z_][a-z0-9_$]*)))?$`, or the function's name.
unfoldable pub field_alias : Text → Text → Option Text
field_alias function [] = some function
field_alias function (c ∷ s) = spaces (c ∷ s) >>= keyword (codes "as") >>= spaces >>= alias_text

-- `^select\s+(?:pg_catalog\.)?`
unfoldable pub select_head : Text → Option Text
select_head s = keyword (codes "select") s >>= spaces >>= λ r.
    or_match (keyword (codes "pg_catalog.") r) (some r)

-- The first pattern for one of its functions.
unfoldable pub keyed_query : Text → LockAction → Text → Option (Option LockQuery)
keyed_query function action s =
    keyword function s >>= mark_at b'(' >>= up_to_close [] >>= λ (arguments, r).
    field_alias function r >>= λ name. some (elim (parse_advisory_key (trim arguments)) [
      | none ↦ none
      | some key ↦ some (record { action = action; key = key; field_name = name })
    ])

-- The second pattern.
unfoldable pub unlock_all_query : Text → Option LockQuery
unlock_all_query s =
    keyword (codes "pg_advisory_unlock_all") s >>= mark_at b'(' >>= mark_at b')' >>= λ r.
    field_alias (codes "pg_advisory_unlock_all") r >>= λ name.
    some (record { action = unlock_all; key = []; field_name = name })

-- parsePgAdvisoryLockQuery(sql)
unfoldable pub parse_lock_query : Text → Option LockQuery
parse_lock_query sql =
    let s =
      collapse (cut_semicolons (trim (without_lines false (without_blocks (length sql) sql)))) in
    select_head s >>= λ r.
    elim (or_match (keyed_query (codes "pg_try_advisory_lock") try_lock r)
      (keyed_query (codes "pg_advisory_unlock") unlock r)) [
        | some query ↦ query
        | none ↦ unlock_all_query r
      ]
