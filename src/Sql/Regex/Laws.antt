-- ===== src/Sql/Regex/Laws.antt =====
-- The matcher is sound: what it finds is a way through the pattern.
pub mod Texts
pub mod Rewritten
pub mod Groups
pub mod Found
use postgres_mapepire_proxy.Prelude.{
  ℕ, zero, suc, ◌≡◌, refl, subst, ◌⊎◌, inl, inr, List, [], ◌∷◌, Bool, true, false, Option, none,
  some, Text, Bool-cases, if◌then◌else◌, ltb, length, arith,
}
use postgres_mapepire_proxy.Sql.Text.{or_match}
use postgres_mapepire_proxy.Sql.Regex.{
  Regex, empty, one, ◌~◌, ◌<|>◌, star, group, ahead, not_ahead, not_behind, at_start, at_end,
  boundary, Place, Rest, take_one, capture, rounds, look, is_none, first_of, not_after, at_boundary,
  run,
}

-- A way from one place to another by rounds of `R`.
pub data Rounds (R : Place → Place → Type 0) : Place → Place → Type 0 where
  done : {p q : Place} → p ≡ q → Rounds R p q
  more : {p m q : Place} → R p m → Rounds R m q → Rounds R p q

-- A way through a pattern from one place to another. What the tests at a place ask is left out.
abbrev pub Way : Regex → Place → Place → Type 0
Way empty p q = p ≡ q
Way (one test) p q =
    (c : ℕ) × (s : Text) × (p.rest ≡ c ∷ s)
    × (test c ≡ true)
    × (q ≡ record { before = some c; rest = s; captured = p.captured })
Way (r ~ s) p q = (m : Place) × Way r p m × Way s m q
Way (r <|> s) p q = Way r p q ⊎ Way s p q
Way (star r) p q = Rounds (Way r) p q
Way (group n r) p q = (m : Place) × Way r p m × (q ≡ capture n p m)
Way (ahead r) p q = (m : Place) × Way r p m × (q ≡ record p { captured = m.captured })
Way (not_ahead r) p q = p ≡ q
Way (not_behind test) p q = p ≡ q
Way at_start p q = p ≡ q
Way at_end p q = p ≡ q
Way boundary p q = p ≡ q

or_match-some {ℓ} :
    {A : Type ℓ} (a b : Option A) {z : A} → or_match a b ≡ some z → (a ≡ some z) ⊎ (b ≡ some z)
or_match-some none b e = inr e
or_match-some (some a) b e = inl e

if-some {ℓ} :
    {A : Type ℓ} (b : Bool) (x : Option A) {z : A}
    → (if b then x else none) ≡ some z
    → (b ≡ true) × (x ≡ some z)
if-some true x e = (refl, e)
if-some false x e = absurd (cc)

pub some-injective {ℓ} : {A : Type ℓ} {a b : A} → some a ≡ some b → a ≡ b
some-injective e = cc

take_one-some :
    (test : ℕ → Bool) (before : Option ℕ) (rest : Text) (captured : List (ℕ × Text)) (k : Rest)
    {z : Place}
    → take_one test before rest captured k ≡ some z
    → (c : ℕ) × (s : Text) × (rest ≡ c ∷ s)
      × (test c ≡ true)
      × (k (record { before = some c; rest = s; captured = captured }) ≡ some z)
unfolding take_one
take_one-some test before [] captured k e = absurd (cc)
take_one-some test before (c ∷ s) captured k e =
    let (passed, last) = if-some (test c) _ e in (c, s, refl, passed, last)

-- What a matcher with the rest `k` finds is found by `k` behind a way of `R`.
abbrev Sound : ((Place → Place → Type 0)) → (Rest → Rest) → Type 0
Sound R m = (k : Rest) (p z : Place) → m k p ≡ some z → (q : Place) × R p q × (k q ≡ some z)

rounds-Sound :
    (R : Place → Place → Type 0) (m : Rest → Rest)
    → Sound R m
    → (fuel : ℕ) → Sound (Rounds R) (rounds fuel m)
unfolding rounds
rounds-Sound R m sound zero k p z e = (p, done refl, e)
rounds-Sound R m sound (suc fuel) k p z e =
    let step : Rest =
      λ q. if ltb (length q.rest) (length p.rest) then rounds fuel m k q else none in
    elim (or_match-some (m step p) (k p) e) [
      | inr stop ↦ (p, done refl, stop)
      | inl on ↦
          let (q, first, rest) = sound step p z on in
          let (_, again) = if-some (ltb (length q.rest) (length p.rest)) (rounds fuel m k q) rest in
          let (q', later, last) = rounds-Sound R m sound fuel k q z again in
          (q', more first later, last)
    ]

here :
    (b : Bool) (k : Rest) (p : Place) {z : Place}
    → (if b then k p else none) ≡ some z
    → (q : Place) × (p ≡ q) × (k q ≡ some z)
here b k p e = (p, refl, (if-some b _ e).1)

look-Sound :
    (R : Place → Place → Type 0) (found : Option Place) (k : Rest) (p z : Place)
    → ((m : Place) → found ≡ some m → R p m)
    → look found k p ≡ some z
    → (q : Place) × ((m : Place) × R p m × (q ≡ record p { captured = m.captured }))
      × (k q ≡ some z)
unfolding look
look-Sound R none k p z way e = absurd (cc)
look-Sound R (some m) k p z way e = (record p { captured = m.captured }, (m, way m refl, refl), e)

pub run-Sound : (r : Regex) → Sound (Way r) (run r)
unfolding run
run-Sound empty k p z e = (p, refl, e)
run-Sound (one test) k p z e =
    let (c, s, front, passed, last) = take_one-some test p.before p.rest p.captured k e in
    (_, (c, s, front, passed, refl), last)
run-Sound (r ~ s) k p z e =
    let (m, first, rest) = run-Sound r (run s k) p z e in
    let (q, second, last) = run-Sound s k m z rest in (q, (m, first, second), last)
run-Sound (r <|> s) k p z e = elim (or_match-some (run r k p) (run s k p) e) [
  | inl left ↦ let (q, way, last) = run-Sound r k p z left in (q, inl way, last)
  | inr right ↦ let (q, way, last) = run-Sound s k p z right in (q, inr way, last)
]
run-Sound (star r) k p z e = rounds-Sound (Way r) (run r) (run-Sound r) (length p.rest) k p z e
run-Sound (group n r) k p z e =
    let (m, way, last) = run-Sound r (λ q. k (capture n p q)) p z e in
    (capture n p m, (m, way, refl), last)
run-Sound (ahead r) k p z e =
    look-Sound (Way r) (run r some p) k p z
      (λ m found.
        let (q, way, same) = run-Sound r some p m found in
        subst (λ (x : Place). Way r p x) (some-injective same) way)
      e
run-Sound (not_ahead r) k p z e = here _ k p e
run-Sound (not_behind test) k p z e = here _ k p e
run-Sound at_start k p z e = here _ k p e
run-Sound at_end k p z e = here _ k p e
run-Sound boundary k p z e = here _ k p e
