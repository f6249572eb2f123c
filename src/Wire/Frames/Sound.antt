-- ===== src/Wire/Frames/Sound.antt =====
-- What the frame loop returns is what stood in the buffer: nothing is lost, changed or reordered.
use postgres_mapepire_proxy.Prelude.{
  ℕ, zero, suc, ◌+◌, ◌-◌, ◌/◌, ◌%◌, ◌<◌, ◌≤◌, ◌≡◌, refl, sym, ap, ◌∙◌, List, [], ◌∷◌, ◌++◌, inl,
  inr, arith, length, append_assoc, append-nil, subst, take, drop, All,
}
use mathlib.Core.Path.{ap₂}
use postgres_mapepire_proxy.Prelude.Results.{ok}
use postgres_mapepire_proxy.Prelude.Int.{ℤ, pos, negsuc}
use postgres_mapepire_proxy.Wire.Words.{Bytes, be32, u32_of, i32_of}
use postgres_mapepire_proxy.Wire.Frames.{
  FrontendMessage, takes, frame_head, next_frame, consume_loop, consume_frontend_messages,
}
use postgres_mapepire_proxy.Wire.Frames.Steps.{Head-cases}
use postgres_mapepire_proxy.Wire.Frames.Chunks.{
  consume-eq, consume_loop-throws, consume_loop-takes, consume_loop-waits, outcome-eq-ok,
}
use postgres_mapepire_proxy.Wire.Frames.RoundTrip.{raw, raw_all}

abbrev pub IsByte : ℕ → Type 0
IsByte b = b < 256

length-take_le : (n : ℕ) (xs : Bytes) → n ≤ length xs → length (take n xs) ≡ n
length-take_le zero xs h = refl
length-take_le (suc n) [] h = absurd (omega arith)
length-take_le (suc n) (x ∷ xs) h = omega (arith, length-take_le n xs (omega arith))

take-append-drop : (n : ℕ) (xs : Bytes) → take n xs ++ drop n xs ≡ xs
take-append-drop zero xs = refl
take-append-drop (suc n) [] = refl
take-append-drop (suc n) (x ∷ xs) = rw (take-append-drop n xs)

All-drop : (n : ℕ) (xs : Bytes) → All IsByte xs → All IsByte (drop n xs)
All-drop zero xs h = h
All-drop (suc n) [] h = tt
All-drop (suc n) (x ∷ xs) h = All-drop n xs h.1

be32-u32_of :
    (a b c d : ℕ)
    → a < 256
    → b < 256
    → c < 256
    → d < 256
    → be32 (u32_of a b c d) ≡ a ∷ b ∷ c ∷ d ∷ []
be32-u32_of a b c d ha hb hc hd =
    let u = u32_of a b c d in
    let e1 : u / 16777216 % 256 ≡ a = omega arith in
    let e2 : u / 65536 % 256 ≡ b = omega arith in
    let e3 : u / 256 % 256 ≡ c = omega arith in let e4 : u % 256 ≡ d = omega arith in cc

-- Under a taken head: the size read, and the message.
frame_head-takes :
    (max k : ℕ) (z : ℤ) (rest : Bytes) {full : ℕ} {m : FrontendMessage} {tail : Bytes}
    → frame_head max k z rest ≡ takes full m tail
    → (n : ℕ) × (z ≡ pos n)
      × (4 ≤ n)
      × (1 + n ≤ length rest)
      × (m.kind ≡ k)
      × (m.body ≡ take (n - 4) (drop 5 rest))
      × (tail ≡ drop (1 + n) rest)
unfolding frame_head
frame_head-takes max k (negsuc n) rest e = cc
frame_head-takes max k (pos n) rest {full} {m} {tail} e =
    (n, refl, ground arith, ground arith, ground arith, ground arith, ground arith)

i32_of-pos : (u n : ℕ) → i32_of u ≡ pos n → u ≡ n
i32_of-pos u n h = ground arith

drop-drop5 :
    (n a b c d e : ℕ) (rest : Bytes)
    → 4 ≤ n
    → drop (1 + n) (a ∷ b ∷ c ∷ d ∷ e ∷ rest) ≡ drop (n - 4) rest
drop-drop5 n a b c d e rest h =
    let five : 1 + n ≡ suc (suc (suc (suc (suc (n - 4))))) = omega arith in rw five

next_frame-takes :
    (max : ℕ) (rest : Bytes) {full : ℕ} {m : FrontendMessage} {tail : Bytes}
    → All IsByte rest
    → next_frame max rest ≡ takes full m tail
    → (rest ≡ raw m ++ tail) × All IsByte tail
unfolding next_frame
next_frame-takes max [] b e = cc
next_frame-takes max (a ∷ []) h e = cc
next_frame-takes max (a ∷ b ∷ []) h e = cc
next_frame-takes max (a ∷ b ∷ c ∷ []) h e = cc
next_frame-takes max (a ∷ b ∷ c ∷ d ∷ []) h e = cc
next_frame-takes max (k ∷ a ∷ b ∷ c ∷ d ∷ rest) {full} {m} {tail} h e =
    let (n, ez, h4, hn, ek, eb, et) =
      frame_head-takes max k (i32_of (u32_of a b c d)) (k ∷ a ∷ b ∷ c ∷ d ∷ rest) e in
    let body : length m.body ≡ n - 4 = ap length eb ∙ length-take_le (n - 4) rest (omega arith) in
    let size : length m.body + 4 ≡ u32_of a b c d =
      omega (arith, i32_of-pos (u32_of a b c d) n ez) in
    let word : be32 (length m.body + 4) ≡ a ∷ b ∷ c ∷ d ∷ [] =
      ap be32 size ∙ be32-u32_of a b c d h.1.0 h.1.1.0 h.1.1.1.0 h.1.1.1.1.0 in
    let split : m.body ++ tail ≡ rest =
      ap₂ ◌++◌ eb (et ∙ drop-drop5 n k a b c d rest h4) ∙ take-append-drop (n - 4) rest in
    (cc, subst (All IsByte) (sym et) (All-drop (1 + n) _ h))

-- The bytes that a run has taken, with those of the messages it started with, make up the buffer.
consume_loop_sound :
    (f max offset : ℕ) (rest : Bytes) (ms : List FrontendMessage) {ns : List FrontendMessage}
    {stop : ℕ} {left : Bytes}
    → All IsByte rest
    → consume_loop f max offset rest ms ≡ ok (ns, stop, left)
    → (new : List FrontendMessage) × (ns ≡ ms ++ new) × (rest ≡ raw_all new ++ left)
unfolding consume_loop
consume_loop_sound zero max offset rest ms h e = ([], ground (arith, append-nil ms), ground arith)
consume_loop_sound (suc f) max offset rest ms {ns} {stop} {left} h e =
    elim (Head-cases (next_frame max rest)) [
      | inl (x, r) ↦ cc (consume_loop-throws f max offset rest ms r)
      | inr (inl r) ↦ (
        [],
        ground (arith, consume_loop-waits f max offset rest ms r, append-nil ms),
        ground (arith, consume_loop-waits f max offset rest ms r),
      )
      | inr (inr (full, m, tail, r)) ↦
          let (now, h') = next_frame-takes max rest h r in
          let (new, en, er) =
            consume_loop_sound f max (offset + full) tail (ms ++ m ∷ []) h'
              (sym (consume_loop-takes f max offset rest ms r) ∙ e) in
          (
            m ∷ new,
            en ∙ append_assoc ms (m ∷ []) new,
            now ∙ ap (◌++◌ (raw m)) er ∙ sym (append_assoc (raw m) (raw_all new) left),
          )
    ]

-- What is returned spells the buffer: the messages' bytes in order, then the remainder. The buffer
-- holds bytes, and the limit is five or more.
pub consume_sound :
    (max : ℕ) (buffer : Bytes) (ms : List FrontendMessage) (left : Bytes)
    → 5 ≤ max
    → All IsByte buffer
    → consume_frontend_messages max buffer ≡ ok (ms, left)
    → buffer ≡ raw_all ms ++ left
consume_sound max buffer ms left h bytes e =
    let (stop, run) = outcome-eq-ok _ (sym (consume-eq max buffer h) ∙ e) in
    let (new, en, er) = consume_loop_sound (suc (length buffer)) max 0 buffer [] bytes run in
    rw en er
