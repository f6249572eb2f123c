-- ===== src/Wire/Frames/Steps.antt =====
-- One round of the frame loop: how far it reads, and that bytes behind a frame do not matter to it.
use postgres_mapepire_proxy.Prelude.{
  ℕ, ◌+◌, ◌-◌, ◌<◌, ◌≤◌, ◌≡◌, refl, [], ◌∷◌, ◌++◌, ◌⊎◌, inl, inr, arith, length, take, drop,
  length-append, length-drop, take-append_le, drop-append_le,
}
use postgres_mapepire_proxy.Prelude.Int.{ℤ, pos, negsuc}
use postgres_mapepire_proxy.Wire.Words.{Bytes, WireError, u32_of, i32_of}
use postgres_mapepire_proxy.Wire.Frames.{
  FrontendMessage, Head, throws, waits, takes, frame_head, next_frame,
}

-- What holds of a round, by its outcome.
abbrev pub Fits : ℕ → Bytes → Head → Type 0
Fits max rest (throws e) = Unit {0}
Fits max rest waits = (length rest < 5) ⊎ (length rest < max)
Fits max rest (takes full m tail) = (5 ≤ full) × (full ≤ max) × (length tail + full ≡ length rest)

frame_head-Fits : (max k : ℕ) (z : ℤ) (rest : Bytes) → Fits max rest (frame_head max k z rest)
unfolding frame_head
frame_head-Fits max k (negsuc n) rest = tt
frame_head-Fits max k (pos n) rest = ground (arith, length-drop (1 + n) rest)

pub next_frame-Fits : (max : ℕ) (rest : Bytes) → Fits max rest (next_frame max rest)
unfolding next_frame
next_frame-Fits max [] = inl (omega arith)
next_frame-Fits max (a ∷ []) = inl (omega arith)
next_frame-Fits max (a ∷ b ∷ []) = inl (omega arith)
next_frame-Fits max (a ∷ b ∷ c ∷ []) = inl (omega arith)
next_frame-Fits max (a ∷ b ∷ c ∷ d ∷ []) = inl (omega arith)
next_frame-Fits max (k ∷ a ∷ b ∷ c ∷ d ∷ rest) =
    frame_head-Fits max k (i32_of (u32_of a b c d)) (k ∷ a ∷ b ∷ c ∷ d ∷ rest)

-- With `more` bytes behind, a round that throws or takes does the same.
abbrev pub Extends : Bytes → Head → Head → Type 0
Extends more (throws e) h = h ≡ throws e
Extends more waits h = Unit {0}
Extends more (takes full m tail) h = h ≡ takes full m (tail ++ more)

frame_body-append :
    (n : ℕ) (rest more : Bytes)
    → 4 ≤ n
    → 1 + n ≤ length rest
    → take (n - 4) (drop 5 (rest ++ more)) ≡ take (n - 4) (drop 5 rest)
frame_body-append n rest more h k =
    rw (drop-append_le 5 rest more (omega arith))
      (take-append_le (n - 4) (drop 5 rest) more (omega (arith, length-drop 5 rest)))

frame_head-Extends :
    (max k : ℕ) (z : ℤ) (rest more : Bytes)
    → Extends more (frame_head max k z rest) (frame_head max k z (rest ++ more))
unfolding frame_head
frame_head-Extends max k (negsuc n) rest more = refl
frame_head-Extends max k (pos n) rest more = ground (
  arith,
  length-append rest more,
  frame_body-append n rest more,
  drop-append_le (1 + n) rest more,
)

pub next_frame-Extends :
    (max : ℕ) (rest more : Bytes)
    → Extends more (next_frame max rest) (next_frame max (rest ++ more))
unfolding next_frame
next_frame-Extends max [] more = tt
next_frame-Extends max (a ∷ []) more = tt
next_frame-Extends max (a ∷ b ∷ []) more = tt
next_frame-Extends max (a ∷ b ∷ c ∷ []) more = tt
next_frame-Extends max (a ∷ b ∷ c ∷ d ∷ []) more = tt
next_frame-Extends max (k ∷ a ∷ b ∷ c ∷ d ∷ rest) more =
    frame_head-Extends max k (i32_of (u32_of a b c d)) (k ∷ a ∷ b ∷ c ∷ d ∷ rest) more

-- To split on a round and keep the equation.
pub Head-cases :
    (h : Head)
    → ((e : WireError) × (h ≡ throws e))
      ⊎ ((h ≡ waits)
          ⊎ ((full : ℕ) × (m : FrontendMessage) × (tail : Bytes) × (h ≡ takes full m tail)))
Head-cases (throws e) = inl (e, refl)
Head-cases waits = inr (inl refl)
Head-cases (takes full m tail) = inr (inr (full, m, tail, refl))
