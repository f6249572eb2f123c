-- ===== src/Sql/Split/Laws.antt =====
-- What is quoted is not cut.
use postgres_mapepire_proxy.Prelude.{
  ℕ, ◌==◌, ◌≡◌, refl, ap, sym, ◌∙◌, [], ◌∷◌, ◌++◌, true, false, Text, arith, append_assoc,
  Bool-cases, inl, inr,
}
use postgres_mapepire_proxy.Sql.Text.{trim, double}
use postgres_mapepire_proxy.Sql.Split.{push, split_from, split_simple_statements}

-- A text behind an opening quote `q`, with its quotes doubled and the closing quote.
abbrev pub closed : ℕ → Text → Text
closed q t = double q t ++ q ∷ []

closed-nonempty : (t : Text) → (d : ℕ) × (rest : Text) × (closed 39 t ≡ d ∷ rest)
unfolding double
closed-nonempty [] = (39, [], refl)
closed-nonempty (c ∷ t) = elim (Bool-cases (c == 39)) [
  | inl q ↦ (39, 39 ∷ closed 39 t, simp q refl)
  | inr q ↦ (c, closed 39 t, simp q refl)
]

-- Inside a literal a character that is no quote is kept.
kept_inside :
    (part : Text) (c d : ℕ) (rest : Text)
    → (c == 39) ≡ false
    → split_from true false part (c ∷ d ∷ rest) ≡ split_from true false (part ++ c ∷ []) (d ∷ rest)
unfolding split_from
kept_inside part c d rest q = ground arith

literal_loop :
    (part t : Text)
    → split_from true false part (closed 39 t) ≡ push (trim (part ++ closed 39 t)) []
unfolding split_from double
literal_loop part [] = refl
literal_loop part (c ∷ t) = elim (Bool-cases (c == 39)) [
  | inl q ↦ simp q (
      literal_loop (part ++ 39 ∷ 39 ∷ []) t
      ∙ ap (λ x. push (trim x) []) (append_assoc part (39 ∷ 39 ∷ []) (closed 39 t)))
  | inr q ↦
      let (d, rest, e) = closed-nonempty t in
      simp q (
        ap (λ x. split_from true false part (c ∷ x)) e
        ∙ kept_inside part c d rest q
        ∙ ap (split_from true false (part ++ c ∷ [])) (sym e)
        ∙ literal_loop (part ++ c ∷ []) t
        ∙ ap (λ x. push (trim x) []) (append_assoc part (c ∷ []) (closed 39 t)))
]

opened :
    (d : ℕ) (rest : Text)
    → split_from false false [] (39 ∷ d ∷ rest) ≡ split_from true false (39 ∷ []) (d ∷ rest)
unfolding split_from
opened d rest = refl

-- A string literal is one statement, trimmed, whatever semicolons and quotes it holds.
pub split-literal :
    (t : Text) → split_simple_statements (39 ∷ closed 39 t) ≡ push (trim (39 ∷ closed 39 t)) []
unfolding split_simple_statements
split-literal t =
    let (d, rest, e) = closed-nonempty t in
    ap (λ x. split_from false false [] (39 ∷ x)) e
    ∙ opened d rest
    ∙ ap (split_from true false (39 ∷ [])) (sym e)
    ∙ literal_loop (39 ∷ []) t
