-- ===== src/Sql/Scan/Parens.antt =====
-- What matchingParen finds in a text whose parentheses are in order.
use postgres_mapepire_proxy.Prelude.{
  ℕ, suc, ◌+◌, ◌==◌, List, [], ◌∷◌, ◌++◌, Bool, true, false, some, Text, ◌≡◌, refl, ap, ◌∙◌, arith,
  length, drop, append_assoc, length-append,
}
use postgres_mapepire_proxy.Sql.Scan.{Mark, marks, match_from, matching_paren}

-- A mark that is no parenthesis for the loops: quoted, or another character.
abbrev pub is_other : Mark → Bool
is_other (m, c) = elim m [
  | false ↦ true
  | true ↦ elim (c == b'(') [
    | true ↦ false
    | false ↦ elim (c == b')') [ true ↦ false | false ↦ true ]
  ]
]

-- The words of parentheses in order.
pub data Balanced : List Mark → Type 0 where
  nothing : Balanced []
  other : {mark : Mark} {ms : List Mark} → is_other mark ≡ true → Balanced ms → Balanced (mark ∷ ms)
  group :
      {inside after : List Mark}
      → Balanced inside
      → Balanced after
      → Balanced ((true, b'(') ∷ (inside ++ (true, b')') ∷ after))

length-append_mark :
    (inside : List Mark) (rest : List Mark) (i : ℕ)
    → i + 1 + length inside + 1 + length rest
      ≡ i + length ((true, b'(') ∷ (inside ++ (true, b')') ∷ rest))
length-append_mark inside rest i = omega (arith, length-append inside ((true, b')') ∷ rest))

-- A closing parenthesis that is not the one looked for.
match_close :
    (opened closed i more : ℕ) (rest : List Mark)
    → opened ≡ suc (closed + suc more)
    → match_from opened closed i ((true, b')') ∷ rest) ≡ match_from opened (suc closed) (i + 1) rest
unfolding match_from
match_close opened closed i more rest e = ground arith

-- Behind more opening than closing parentheses, a balanced word is passed over.
match-Balanced :
    (opened closed i j more : ℕ) (ms after : List Mark)
    → Balanced ms
    → opened ≡ suc (closed + more)
    → i + length ms ≡ j
    → (o : ℕ) × (c : ℕ) × (o ≡ suc (c + more))
      × (match_from opened closed i (ms ++ after) ≡ match_from o c j after)
unfolding match_from
match-Balanced opened closed i j more [] after nothing e f =
    let same : i ≡ j = omega arith in
    (opened, closed, e, ap (λ k. match_from opened closed k after) same)
match-Balanced opened closed i j more ((m, c) ∷ ms) after (other o b) e f =
    let (p, q, r, h) = match-Balanced opened closed (i + 1) j more ms after b e (omega arith) in
    (p, q, r, ground arith)
match-Balanced opened closed i j more ms after (group {inside} {after = next} b d) e f =
    let rest = (true, b')') ∷ (next ++ after) in
    let k = i + 1 + length inside in
    let (p, q, r, h) =
      match-Balanced (suc opened) closed (i + 1) k (suc more) inside rest b (omega (arith, e))
        refl in
    let (p', q', r', h') =
      match-Balanced p (suc q) (k + 1) j more next after d (omega (arith, r))
        (length-append_mark inside next i ∙ f) in
    (
      p',
      q',
      r',
      ap (match_from (suc opened) closed (i + 1)) (append_assoc inside ((true, b')') ∷ next) after)
          ∙ h
          ∙ match_close p q k more (next ++ after) r
          ∙ h',
    )

-- Where an opening parenthesis, a text whose unquoted parentheses are in order and a closing one
-- follow from the index `at` on, matchingParen gives the index of that closing one, whatever quoted
-- parentheses stand between them and whatever comes behind.
pub matching_paren-Balanced :
    (sql : Text) (at : ℕ) (inside after : List Mark)
    → marks false false (drop at sql) ≡ (true, b'(') ∷ (inside ++ (true, b')') ∷ after)
    → Balanced inside
    → matching_paren sql at ≡ some (at + 1 + length inside)
unfolding matching_paren
matching_paren-Balanced sql at inside after e b =
    let (p, q, r, h) =
      match-Balanced 1 0 (at + 1) (at + 1 + length inside) 0 inside ((true, b')') ∷ after) b refl
        refl in
    rw e (unfold match_from in h ∙ ground (arith, r))
