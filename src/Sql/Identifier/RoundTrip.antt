-- ===== src/Sql/Identifier/RoundTrip.antt =====
-- A quoted name is one token, and reads back as the name.
use postgres_mapepire_proxy.Prelude.{
  ℕ, ◌≡◌, refl, ap, ◌∙◌, [], ◌∷◌, ◌++◌, ◌==◌, true, false, Text, arith, Bool-cases, inl, inr,
}
use postgres_mapepire_proxy.Sql.Text.{double, undouble}
use postgres_mapepire_proxy.Sql.Identifier.{
  quote_identifier, ends_quoted, is_identifier, without_last, decode_pg_identifier,
}

undouble_other : (q c : ℕ) (r : Text) → (c == q) ≡ false → undouble q (c ∷ r) ≡ c ∷ undouble q r
unfolding undouble
undouble_other q c [] h = refl
undouble_other q c (d ∷ r) h = ground arith

undouble_pair : (q c : ℕ) (r : Text) → (c == q) ≡ true → undouble q (q ∷ q ∷ r) ≡ c ∷ undouble q r
unfolding undouble
undouble_pair q c r h = ground arith

pub undouble-double : (q : ℕ) (s : Text) → undouble q (double q s) ≡ s
unfolding double
undouble-double q [] = unfold undouble in refl
undouble-double q (c ∷ s) = elim (Bool-cases (c == q)) [
  | inl same ↦
      rw (same, double) (undouble_pair q c (double q s) same ∙ ap (◌∷◌ c) (undouble-double q s))
  | inr other ↦
      rw (other, double) (undouble_other q c (double q s) other ∙ ap (◌∷◌ c) (undouble-double q s))
]

ends_quoted_other : (c : ℕ) (r : Text) → (c == b'"') ≡ false → ends_quoted (c ∷ r) ≡ ends_quoted r
unfolding ends_quoted
ends_quoted_other c [] h = ground arith
ends_quoted_other c (d ∷ r) h = ground arith

ends_quoted_pair : (r : Text) → ends_quoted (b'"' ∷ b'"' ∷ r) ≡ ends_quoted r
unfolding ends_quoted
ends_quoted_pair r = refl

ends_quoted-double : (s : Text) → ends_quoted (double b'"' s ++ b'"' ∷ []) ≡ true
unfolding double
ends_quoted-double [] = unfold ends_quoted in refl
ends_quoted-double (c ∷ s) = elim (Bool-cases (c == b'"')) [
  | inl same ↦
      rw (same, double) (ends_quoted_pair (double b'"' s ++ b'"' ∷ []) ∙ ends_quoted-double s)
  | inr other ↦
      rw (other, double)
        (ends_quoted_other c (double b'"' s ++ b'"' ∷ []) other ∙ ends_quoted-double s)
]

pub without_last-append : (s : Text) (c : ℕ) → without_last (s ++ c ∷ []) ≡ s
unfolding without_last
without_last-append [] c = refl
without_last-append (x ∷ []) c = refl
without_last-append (x ∷ y ∷ s) c = ap (◌∷◌ x) (without_last-append (y ∷ s) c)

-- Whatever a name holds, quotes and spaces included, its quoted form is one PostgreSQL identifier
-- token, and decoding the token gives the name.
pub decode-quote :
    (name : Text)
    → (is_identifier (quote_identifier name) ≡ true)
      × (decode_pg_identifier (quote_identifier name) ≡ name)
unfolding quote_identifier is_identifier decode_pg_identifier
decode-quote name = (
  rw (ends_quoted-double name),
  rw (without_last-append (double b'"' name) b'"') (undouble-double b'"' name),
)
