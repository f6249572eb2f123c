-- ===== src/Wire/Frames/RoundTrip.antt =====
-- The frame loop inverts `frame`.
use postgres_mapepire_proxy.Prelude.{
  ℕ, zero, suc, ◌+◌, ◌/◌, ◌%◌, ◌<◌, ◌≤◌, ◌≡◌, refl, ap, ◌∙◌, List, [], ◌∷◌, ◌++◌, arith, length,
  length-append, append_assoc, append-nil, drop, take-append, drop-append, All,
}
use postgres_mapepire_proxy.Prelude.Results.{ok}
use postgres_mapepire_proxy.Prelude.Int.{pos}
use postgres_mapepire_proxy.Wire.Words.{Bytes, be32, u32_of, i32_of, u32_of-be32}
use postgres_mapepire_proxy.Wire.Frames.{
  FrontendMessage, waits, takes, frame, frame_head, next_frame, consume_loop,
  consume_frontend_messages,
}
use postgres_mapepire_proxy.Wire.Frames.Chunks.{
  consume-eq, outcome, consume_loop-takes, consume_loop-waits,
}

-- The bytes of a message on the wire, by the protocol.
abbrev pub raw : FrontendMessage → Bytes
raw m = m.kind ∷ (be32 (length m.body + 4) ++ m.body)

abbrev pub raw_all : List FrontendMessage → Bytes
raw_all [] = []
raw_all (m ∷ ms) = raw m ++ raw_all ms

-- `frame` writes the bytes of a message whose length fits.
pub frame-raw :
    (kind : ℕ) (body : Bytes)
    → length body + 4 < 2147483648
    → frame kind body ≡ ok (raw (record { kind = kind; body = body }))
unfolding frame
frame-raw kind body h = ground arith

frame_head-raw :
    (max kind : ℕ) (head body rest : Bytes)
    → length body + 5 ≤ max
    → length head ≡ 5
    → drop 5 (head ++ (body ++ rest)) ≡ body ++ rest
    → drop (1 + (length body + 4)) (head ++ (body ++ rest)) ≡ rest
    → frame_head max kind (pos (length body + 4)) (head ++ (body ++ rest))
      ≡ takes (length body + 5) (record { kind = kind; body = body }) rest
unfolding frame_head
frame_head-raw max kind head body rest h h5 e e' =
    rw (e, e')
      (ground
        (arith, length-append head (body ++ rest), length-append body rest, take-append body rest))

drop-drop5 :
    (n : ℕ) (a b c d e : ℕ) (rest : Bytes)
    → drop (1 + (n + 4)) (a ∷ b ∷ c ∷ d ∷ e ∷ rest) ≡ drop n rest
drop-drop5 n a b c d e rest =
    let five : 1 + (n + 4) ≡ suc (suc (suc (suc (suc n)))) = omega arith in rw five

next_frame-raw :
    (max : ℕ) (m : FrontendMessage) (rest : Bytes)
    → length m.body + 5 ≤ max
    → max < 2147483648
    → next_frame max (raw m ++ rest) ≡ takes (length m.body + 5) m rest
unfolding next_frame
next_frame-raw max m rest h h' =
    let size = length m.body + 4 in
    let word : i32_of
          (u32_of (size / 16777216 % 256) (size / 65536 % 256) (size / 256 % 256) (size % 256))
        ≡ pos size =
      rw (u32_of-be32 size (omega arith)) (ground arith) in
    rw word (
      frame_head-raw max m.kind (m.kind ∷ be32 size) m.body rest h refl refl
        (drop-drop5 (length m.body) _ _ _ _ _ (m.body ++ rest) ∙ drop-append m.body rest))

-- Messages of at most `max` bytes on the wire.
abbrev pub FitsIn : ℕ → FrontendMessage → Type 0
FitsIn max m = length m.body + 5 ≤ max

consume_loop-raw :
    (f max offset : ℕ) (ms : List FrontendMessage) (rest : Bytes) (acc : List FrontendMessage)
    → All (FitsIn max) ms
    → max < 2147483648
    → next_frame max rest ≡ waits
    → length (raw_all ms ++ rest) < f
    → outcome (consume_loop f max offset (raw_all ms ++ rest) acc) ≡ ok (acc ++ ms, rest)
consume_loop-raw zero max offset ms rest acc fits h w enough = absurd (omega arith)
consume_loop-raw (suc f) max offset [] rest acc fits h w enough =
    rw (consume_loop-waits f max offset rest acc w, append-nil)
consume_loop-raw (suc f) max offset (m ∷ ms) rest acc fits h w enough = rw append_assoc (
    rw
      (consume_loop-takes f max offset (raw m ++ (raw_all ms ++ rest)) acc
        (next_frame-raw max m (raw_all ms ++ rest) fits.0 h))
      (consume_loop-raw f max (offset + (length m.body + 5)) ms rest (acc ++ m ∷ []) fits.1 h w (
          omega (
            arith,
            length-append m.body (raw_all ms ++ rest),
            length-append (raw m) (raw_all ms ++ rest),
            ap length (append_assoc (raw m) (raw_all ms) rest),
          ))
        ∙ rw append_assoc))

-- A stream of whole frames, none longer than the limit, and a tail that holds no whole frame and
-- no bad length word, is read as those messages and that tail. The limit is at least five bytes
-- and below 2^31.
pub consume-raw_all :
    (max : ℕ) (ms : List FrontendMessage) (rest : Bytes)
    → 5 ≤ max
    → max < 2147483648
    → All (FitsIn max) ms
    → next_frame max rest ≡ waits
    → consume_frontend_messages max (raw_all ms ++ rest) ≡ ok (ms, rest)
consume-raw_all max ms rest h h' fits w =
    consume-eq max (raw_all ms ++ rest) h
    ∙ consume_loop-raw (suc (length (raw_all ms ++ rest))) max 0 ms rest [] fits h' w (omega arith)
