-- ===== src/Sql/Text/Decimal.antt =====
-- The decimal print of a number, and the numbers that digits spell.
use postgres_mapepire_proxy.Prelude.{
  ℕ, zero, suc, ◌+◌, ◌/◌, ◌%◌, ◌<◌, ◌≡◌, ap, ◌∙◌, [], ◌∷◌, true, All, Text, ltb, Bool-cases, inl,
  inr, ltb→lt, arith,
}
use postgres_mapepire_proxy.Sql.Text.{digits, decimal, is_digit}
use postgres_mapepire_proxy.Sql.Scan.Rewrites.{number_of}

number_of-digits : (f n : ℕ) (acc : Text) → n < f → number_of 0 (digits f n acc) ≡ number_of n acc
unfolding digits number_of
number_of-digits zero n acc h = absurd (omega arith)
number_of-digits (suc f) n acc h = elim (Bool-cases (ltb n 10)) [
  | inl small ↦ rw small (ap (λ m. number_of m acc) (omega arith))
  | inr large ↦ rw large (
      number_of-digits f (n / 10) ((b'0' + n % 10) ∷ acc) (ground arith)
      ∙ ap (λ m. number_of m acc) (omega arith))
]

-- The print of a number spells it.
pub number_of-decimal : (n : ℕ) → number_of 0 (decimal n) ≡ n
unfolding decimal number_of
number_of-decimal n = number_of-digits (suc n) n [] (omega arith)

abbrev pub Digits : Text → Type 0
Digits = All (λ c. is_digit c ≡ true)

digit-IsDigit : (n : ℕ) → n < 10 → is_digit (b'0' + n) ≡ true
digit-IsDigit n h = ground arith

digits-Digits : (f n : ℕ) (acc : Text) → Digits acc → Digits (digits f n acc)
unfolding digits
digits-Digits zero n acc h = h
digits-Digits (suc f) n acc h = elim (Bool-cases (ltb n 10)) [
  | inl small ↦ rw small (digit-IsDigit n (ltb→lt _ _ small), h)
  | inr large ↦
      rw large
        (digits-Digits f (n / 10) ((b'0' + n % 10) ∷ acc) (digit-IsDigit (n % 10) (omega arith), h))
]

pub decimal-Digits : (n : ℕ) → Digits (decimal n)
unfolding decimal
decimal-Digits n = digits-Digits (suc n) n [] tt

digits_cons : (f n : ℕ) (acc : Text) → (d : ℕ) × (ds : Text) × (digits (suc f) n acc ≡ d ∷ ds)
unfolding digits
digits_cons zero n acc = elim (Bool-cases (ltb n 10)) [
  | inl small ↦ (b'0' + n, acc, rw small)
  | inr large ↦ (b'0' + n % 10, acc, rw large)
]
digits_cons (suc f) n acc = elim (Bool-cases (ltb n 10)) [
  | inl small ↦ (b'0' + n, acc, rw small)
  | inr large ↦
      let (d, ds, e) = digits_cons f (n / 10) ((b'0' + n % 10) ∷ acc) in (d, ds, rw large e)
]

pub decimal_cons : (n : ℕ) → (d : ℕ) × (ds : Text) × (decimal n ≡ d ∷ ds)
unfolding decimal
decimal_cons n = digits_cons n n []
