-- ===== src/Sql/Regex/Laws/Texts.antt =====
-- The texts that a pattern spells, and what a match is made of.
use postgres_mapepire_proxy.Prelude.{
  ℕ, ◌-◌, ◌≡◌, refl, sym, ap, ◌∙◌, ◌⊎◌, inl, inr, [], ◌∷◌, ◌++◌, append_assoc, true, Text, length,
  length-append, take-append, arith,
}
use postgres_mapepire_proxy.Sql.Regex.{
  Regex, empty, one, ◌~◌, ◌<|>◌, star, group, ahead, not_ahead, not_behind, at_start, at_end,
  boundary, Place, between,
}
use postgres_mapepire_proxy.Sql.Regex.Laws.{Rounds, done, more, Way}

pub data Repeats (P : Text → Type 0) : Text → Type 0 where
  none_left : {t : Text} → t ≡ [] → Repeats P t
  one_more : {t : Text} (u v : Text) → t ≡ u ++ v → P u → Repeats P v → Repeats P t

-- The texts of a pattern; what stands around them is not looked at.
abbrev pub Spells : Regex → Text → Type 0
Spells empty t = t ≡ []
Spells (one test) t = (c : ℕ) × (t ≡ c ∷ []) × (test c ≡ true)
Spells (r ~ s) t = (u : Text) × (v : Text) × (t ≡ u ++ v) × Spells r u × Spells s v
Spells (r <|> s) t = Spells r t ⊎ Spells s t
Spells (star r) t = Repeats (Spells r) t
Spells (group n r) t = Spells r t
Spells (ahead r) t = t ≡ []
Spells (not_ahead r) t = t ≡ []
Spells (not_behind test) t = t ≡ []
Spells at_start t = t ≡ []
Spells at_end t = t ≡ []
Spells boundary t = t ≡ []

-- The text between two places, which `P` holds of.
abbrev pub Reads : (Text → Type 0) → Place → Place → Type 0
Reads P p q = (t : Text) × (p.rest ≡ t ++ q.rest) × P t

stays : (p q : Place) → p ≡ q → Reads (λ t. t ≡ []) p q
stays p q e = ([], ap (λ (x : Place). x.rest) e, refl)

joined-Reads :
    {P Q : Text → Type 0} (p m q : Place)
    → Reads P p m
    → Reads Q m q
    → (u : Text) × (v : Text) × (p.rest ≡ (u ++ v) ++ q.rest) × P u × Q v
joined-Reads p m q (u, first, left) (v, second, right) =
    (u, v, first ∙ ap (λ (s : Text). u ++ s) second ∙ sym (append_assoc u v q.rest), left, right)

Rounds-Reads :
    {R : Place → Place → Type 0} {P : Text → Type 0}
    → ((p q : Place) → R p q → Reads P p q)
    → {p q : Place} → Rounds R p q
    → Reads (Repeats P) p q
Rounds-Reads reads {p} {q} (done e) =
    let (t, whole, nothing) = stays p q e in (t, whole, none_left nothing)
Rounds-Reads reads {p} {q} (more {m = m} first rest) =
    let (u, v, whole, left, right) =
      joined-Reads p m q (reads p m first) (Rounds-Reads reads rest) in
    (u ++ v, whole, one_more u v refl left right)

pub Way-Reads : (r : Regex) (p q : Place) → Way r p q → Reads (Spells r) p q
Way-Reads empty p q e = stays p q e
Way-Reads (one test) p q (c, s, front, passed, e) =
    (c ∷ [], front ∙ ap (λ (x : Place). c ∷ x.rest) (sym e), (c, refl, passed))
Way-Reads (r ~ s) p q (m, first, second) =
    let (u, v, whole, left, right) =
      joined-Reads p m q (Way-Reads r p m first) (Way-Reads s m q second) in
    (u ++ v, whole, (u, v, refl, left, right))
Way-Reads (r <|> s) p q (inl way) =
    let (t, whole, spelled) = Way-Reads r p q way in (t, whole, inl spelled)
Way-Reads (r <|> s) p q (inr way) =
    let (t, whole, spelled) = Way-Reads s p q way in (t, whole, inr spelled)
Way-Reads (star r) p q way = Rounds-Reads (Way-Reads r) way
Way-Reads (group n r) p q (m, way, e) =
    let (t, whole, spelled) = Way-Reads r p m way in
    (t, whole ∙ ap (λ (x : Place). t ++ x.rest) (sym e), spelled)
Way-Reads (ahead r) p q (m, way, e) = ([], ap (λ (x : Place). x.rest) (sym e), refl)
Way-Reads (not_ahead r) p q e = stays p q e
Way-Reads (not_behind test) p q e = stays p q e
Way-Reads at_start p q e = stays p q e
Way-Reads at_end p q e = stays p q e
Way-Reads boundary p q e = stays p q e

-- A pattern with no group.
abbrev pub Silent : Regex → Type 0
Silent (r ~ s) = Silent r × Silent s
Silent (r <|> s) = Silent r × Silent s
Silent (star r) = Silent r
Silent (group n r) = ⊥
Silent (ahead r) = Silent r
Silent _ = Unit

abbrev Kept : Place → Place → Type 0
Kept p q = q.captured ≡ p.captured

Rounds-Kept :
    {R : Place → Place → Type 0}
    → ((p q : Place) → R p q → Kept p q)
    → {p q : Place} → Rounds R p q
    → Kept p q
Rounds-Kept kept (done e) = ap (λ (x : Place). x.captured) (sym e)
Rounds-Kept kept (more first rest) = Rounds-Kept kept rest ∙ kept _ _ first

-- It captures nothing.
pub Way-Kept : (r : Regex) → Silent r → (p q : Place) → Way r p q → q.captured ≡ p.captured
Way-Kept (one test) h p q (c, s, front, passed, e) = ap (λ (x : Place). x.captured) e
Way-Kept (r ~ s) h p q (m, first, second) = Way-Kept s h.1 m q second ∙ Way-Kept r h.0 p m first
Way-Kept (r <|> s) h p q (inl way) = Way-Kept r h.0 p q way
Way-Kept (r <|> s) h p q (inr way) = Way-Kept s h.1 p q way
Way-Kept (star r) h p q way = Rounds-Kept (Way-Kept r h) way
Way-Kept (group n r) h p q way = absurd h
Way-Kept (ahead r) h p q (m, way, e) = ap (λ (x : Place). x.captured) e ∙ Way-Kept r h p m way
Way-Kept empty h p q e = ap (λ (x : Place). x.captured) (sym e)
Way-Kept (not_ahead r) h p q e = ap (λ (x : Place). x.captured) (sym e)
Way-Kept (not_behind test) h p q e = ap (λ (x : Place). x.captured) (sym e)
Way-Kept at_start h p q e = ap (λ (x : Place). x.captured) (sym e)
Way-Kept at_end h p q e = ap (λ (x : Place). x.captured) (sym e)
Way-Kept boundary h p q e = ap (λ (x : Place). x.captured) (sym e)

-- What stands between two places is the text that was read.
pub between-Reads : (p q : Place) (t : Text) → p.rest ≡ t ++ q.rest → between p q ≡ t
unfolding between
between-Reads p q t e =
    let long : length p.rest - length q.rest ≡ length t =
      omega (arith, ap length e, length-append t q.rest) in
    rw (long, e) (take-append t q.rest)
