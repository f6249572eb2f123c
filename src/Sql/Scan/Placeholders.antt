-- ===== src/Sql/Scan/Placeholders.antt =====
-- The placeholders of a statement, replaced and numbered.
use postgres_mapepire_proxy.Prelude.{
  ℕ, ◌≡◌, refl, ap, sym, subst, ◌∙◌, List, [], ◌∷◌, ◌++◌, Bool, false, ◌==◌, All, Text, length,
}
use postgres_mapepire_proxy.Sql.Text.{decimal, is_digit}
use postgres_mapepire_proxy.Sql.Text.Decimal.{
  Digits, number_of-decimal, decimal-Digits, decimal_cons,
}
use postgres_mapepire_proxy.Sql.Scan.Rewrites.{
  leading_digits, number_of, placeholders_from, replace_placeholders,
}

-- A statement as texts, each with the number of the placeholder behind it, and a tail.
abbrev pub Marked : Type 0
Marked = List (Text × ℕ)

abbrev pub written : Marked → Text → Text
written [] rest = rest
written ((t, n) ∷ ps) rest = t ++ (b'$' ∷ decimal n ++ written ps rest)

abbrev pub marked : Marked → Text → Text
marked [] rest = rest
marked ((t, n) ∷ ps) rest = t ++ (b'?' ∷ marked ps rest)

abbrev pub numbers : Marked → List ℕ
numbers [] = []
numbers ((t, n) ∷ ps) = n ∷ numbers ps

-- A text with no dollar.
abbrev pub Plain : Text → Type 0
Plain = All (λ c. (c == b'$') ≡ false)

abbrev pub begins_digit : Text → Bool
begins_digit [] = false
begins_digit (c ∷ s) = is_digit c

-- The texts have no dollar, and no digit stands behind a placeholder.
abbrev pub AreApart : Marked → Text → Type 0
AreApart [] rest = Plain rest
AreApart ((t, n) ∷ ps) rest = Plain t × (begins_digit (written ps rest) ≡ false) × AreApart ps rest

leading_digits_lem :
    (ds s : Text) → Digits ds → begins_digit s ≡ false → leading_digits (ds ++ s) ≡ ds
unfolding leading_digits
leading_digits_lem [] [] all other = refl
leading_digits_lem [] (c ∷ s) all other = rw other
leading_digits_lem (d ∷ ds) s all other = rw (all.0, leading_digits_lem ds s all.1 other)

placeholders_skip : (ds s : Text) → placeholders_from (length ds) (ds ++ s) ≡ placeholders_from 0 s
unfolding placeholders_from
placeholders_skip [] s = refl
placeholders_skip (d ∷ ds) s = placeholders_skip ds s

placeholders-Plain :
    (t s : Text)
    → Plain t
    → placeholders_from 0 (t ++ s) ≡ (t ++ (placeholders_from 0 s).0, (placeholders_from 0 s).1)
unfolding placeholders_from
placeholders-Plain [] s plain = refl
placeholders-Plain (c ∷ t) s plain = rw (plain.0, placeholders-Plain t s plain.1)

placeholders_rest : (t : Text) → Plain t → placeholders_from 0 t ≡ (t, [])
unfolding placeholders_from
placeholders_rest [] plain = refl
placeholders_rest (c ∷ t) plain = rw (plain.0, placeholders_rest t plain.1)

placeholders-Digits :
    (d : ℕ) (ds s : Text)
    → Digits (d ∷ ds)
    → begins_digit s ≡ false
    → placeholders_from 0 (b'$' ∷ (d ∷ ds) ++ s)
      ≡ (b'?' ∷ (placeholders_from 0 s).0, number_of 0 (d ∷ ds) ∷ (placeholders_from 0 s).1)
unfolding placeholders_from
placeholders-Digits d ds s all other =
    let read = leading_digits_lem (d ∷ ds) s all other in rw (read, read, placeholders_skip ds s)

placeholders_mark :
    (n : ℕ) (s : Text)
    → begins_digit s ≡ false
    → placeholders_from 0 (b'$' ∷ decimal n ++ s)
      ≡ (b'?' ∷ (placeholders_from 0 s).0, n ∷ (placeholders_from 0 s).1)
placeholders_mark n s other =
    let (d, ds, e) = decimal_cons n in
    let all : Digits (d ∷ ds) = subst Digits e (decimal-Digits n) in
    let spelled : number_of 0 (d ∷ ds) ≡ n = ap (number_of 0) (sym e) ∙ number_of-decimal n in
    rw (e, placeholders-Digits d ds s all other, spelled)

placeholders_written :
    (ps : Marked) (rest : Text)
    → AreApart ps rest
    → placeholders_from 0 (written ps rest) ≡ (marked ps rest, numbers ps)
placeholders_written [] rest apart = placeholders_rest rest apart
placeholders_written ((t, n) ∷ ps) rest apart = rw (
  placeholders-Plain t (b'$' ∷ decimal n ++ written ps rest) apart.0,
  placeholders_mark n (written ps rest) apart.1,
  placeholders_written ps rest apart.2,
)

-- The `$n` of a statement become `?`, in literals too, and their numbers are told in the order of
-- the text: the rest of the text stays. No other dollar stands in it, and no digit behind a `$n`.
pub replace_placeholders_lem :
    (ps : Marked) (rest : Text)
    → AreApart ps rest
    → replace_placeholders (written ps rest) ≡ (marked ps rest, numbers ps)
unfolding replace_placeholders
replace_placeholders_lem = placeholders_written
