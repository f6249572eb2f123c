-- ===== src/Ddl/TypeRegistry/Align/Body.antt =====
-- The text between the parentheses of a CREATE TABLE, as parse_create_table reads it.
use postgres_mapepire_proxy.Prelude.{
  ℕ, zero, suc, ◌+◌, ◌-◌, ◌≤◌, List, [], ◌∷◌, ◌++◌, false, some, Text, length, take, drop, ◌≡◌,
  refl, sym, ap, ◌∙◌, subst, arith, Option-cases, inl, inr,
}
use postgres_mapepire_proxy.Sql.Scan.{
  joined, Mark, marks, match_from, matching_paren, first_unquoted_char,
}
use postgres_mapepire_proxy.Sql.Scan.Laws.{join-split}
use postgres_mapepire_proxy.Ddl.ForeignKeys.{
  ParsedCreateTable, slice, create_head, table_between, parse_create_table,
}

match_from-le :
    (opened closed i j : ℕ) (ms : List Mark) → match_from opened closed i ms ≡ some j → i ≤ j
unfolding match_from
match_from-le opened closed i j [] e = absurd cc
match_from-le opened closed i j ((m, c) ∷ ms) e = ground (
  arith,
  match_from-le (suc opened) closed (i + 1) j ms,
  match_from-le opened (suc closed) (i + 1) j ms,
  match_from-le opened closed (i + 1) j ms,
)

match_from-lt : (i j : ℕ) (ms : List Mark) → match_from 0 0 i ms ≡ some j → i + 1 ≤ j
unfolding match_from
match_from-lt i j [] e = absurd cc
match_from-lt i j ((m, c) ∷ ms) e = ground (
  arith,
  match_from-le 1 0 (i + 1) j ms,
  match_from-le 0 1 (i + 1) j ms,
  match_from-le 0 0 (i + 1) j ms,
)

take-drop : (n : ℕ) (s : Text) → take n s ++ drop n s ≡ s
take-drop zero s = refl
take-drop (suc n) [] = refl
take-drop (suc n) (c ∷ s) = ap (◌∷◌ c) (take-drop n s)

drop-nil : (n : ℕ) → drop {A = ℕ} n [] ≡ []
drop-nil zero = refl
drop-nil (suc n) = refl

drop-drop : (from to : ℕ) (s : Text) → from ≤ to → drop to s ≡ drop (to - from) (drop from s)
drop-drop zero to s h = let same : to ≡ to - 0 = omega arith in ap (λ k. drop k s) same
drop-drop (suc from) zero s h = absurd (omega arith)
drop-drop (suc from) (suc to) [] h = sym (drop-nil (suc to - suc from))
drop-drop (suc from) (suc to) (c ∷ s) h =
    let same : to - from ≡ suc to - suc from = omega arith in
    drop-drop from to s (omega arith) ∙ ap (λ k. drop k (drop from s)) same

pub slice-frame :
    (from to : ℕ) (s : Text) → from ≤ to → take from s ++ (slice from to s ++ drop to s) ≡ s
slice-frame from to s h =
    ap (λ t. take from s ++ (slice from to s ++ t)) (drop-drop from to s h)
    ∙ ap (◌++◌ (take from s)) (take-drop (to - from) (drop from s))
    ∙ take-drop from s

closes_behind :
    (sql : Text) (open_at close_at : ℕ)
    → matching_paren sql open_at ≡ some close_at
    → open_at + 1 ≤ close_at
unfolding matching_paren
closes_behind sql open_at close_at closes =
    match_from-lt open_at close_at (marks false false (drop open_at sql)) closes

-- Where the parentheses of a CREATE TABLE are: the one that opens is the first outside quotes behind
-- the name of the table, and the other one matches it.
abbrev pub IsBody : Text → (open_at close_at : ℕ) → Type 0
IsBody sql open_at close_at =
    (relation : Text) × (rest : Text) × (offset : ℕ) × (create_head sql ≡ some (relation, rest))
    × (first_unquoted_char rest b'(' ≡ some offset)
    × (open_at ≡ length sql - length rest + offset)
    × (matching_paren sql open_at ≡ some close_at)

-- What parseCreateTable gives is the list of definitions between the parentheses.
pub parse-frame :
    (sql current_schema : Text) (parsed : ParsedCreateTable)
    → parse_create_table sql current_schema ≡ some parsed
    → IsBody sql parsed.open_at parsed.close_at
      × (joined parsed.definitions ≡ slice (parsed.open_at + 1) parsed.close_at sql)
      × (parsed.open_at + 1 ≤ parsed.close_at)
unfolding parse_create_table table_between
parse-frame sql current_schema parsed e = elim (Option-cases (create_head sql)) [
  | inl none_found ↦ absurd (ground arith)
  | inr ((relation, rest), head) ↦ elim (Option-cases (first_unquoted_char rest b'(')) [
    | inl unopened ↦ absurd (ground arith)
    | inr (offset, opens) ↦
        elim (Option-cases (matching_paren sql (length sql - length rest + offset))) [
          | inl unclosed ↦ absurd (ground arith)
          | inr (close_at, closes) ↦
              let open_at = length sql - length rest + offset in
              let same : table_between sql current_schema relation open_at close_at ≡ parsed =
                ground arith in
              subst
                (λ (p : ParsedCreateTable).
                  IsBody sql p.open_at p.close_at
                  × (joined p.definitions ≡ slice (p.open_at + 1) p.close_at sql)
                  × (p.open_at + 1 ≤ p.close_at))
                same
                (
                  (relation, rest, offset, head, opens, refl, closes),
                  join-split (slice (open_at + 1) close_at sql),
                  closes_behind sql open_at close_at closes,
                )
        ]
  ]
]
