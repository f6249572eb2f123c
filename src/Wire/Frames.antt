-- ===== src/Wire/Frames.antt =====
-- `frame`, `consumeFrontendMessages` and `splitFrontendMessages`: a frame is a type byte, a
-- length word that counts itself, and the body. The loop's `offset` is kept as what is left of the
-- buffer, with the offset itself beside it for the last test.
pub mod Steps
pub mod Chunks
pub mod RoundTrip
pub mod Sound
use postgres_mapepire_proxy.Prelude.{
  ℕ, zero, suc, ◌+◌, ◌-◌, List, [], ◌∷◌, ◌++◌, ltb, ◌==◌, ◌&&◌, if◌then◌else◌, length, take, drop,
}
use postgres_mapepire_proxy.Prelude.Results.{Result, ok, err, ◌>>=◌}
use postgres_mapepire_proxy.Prelude.Int.{ℤ, pos, negsuc}
use postgres_mapepire_proxy.Wire.Words.{
  Bytes, WireError, malformed_length, frame_too_large, buffer_too_large, truncated_frame, u32_of,
  i32_of, write_i32,
}

-- A frontend message: the type byte and the body.
pub record FrontendMessage : Type 0 where
  pub kind : ℕ
  pub body : Bytes

-- frame(type, payload)
unfoldable pub frame : ℕ → Bytes → Result WireError Bytes
unfolding write_i32
frame kind payload = do size ← write_i32 (pos (length payload + 4)); ok (kind ∷ (size ++ payload))

-- What the loop does next: throw, stop at a frame that is not whole, or take one frame. `takes`
-- carries `fullLength`, the message, and what is left behind it.
pub data Head : Type 0 where
  throws : WireError → Head
  waits : Head
  takes : ℕ → FrontendMessage → Bytes → Head

-- A frame whose length word reads `length`: the two throws, the break and the push.
pub frame_head : ℕ → ℕ → ℤ → Bytes → Head
frame_head max kind (negsuc n) rest = throws malformed_length
frame_head max kind (pos size) rest =
    if ltb size 4
    then throws malformed_length
    else if ltb max (1 + size)
    then throws frame_too_large
    else if ltb (length rest) (1 + size)
    then waits
    else takes (1 + size) (record { kind = kind; body = take (size - 4) (drop 5 rest) })
        (drop (1 + size) rest)

-- One round of the loop over what is left of the buffer.
unfoldable pub next_frame : ℕ → Bytes → Head
unfolding frame_head
next_frame max (k ∷ a ∷ b ∷ c ∷ d ∷ rest) =
    frame_head max k (i32_of (u32_of a b c d)) (k ∷ a ∷ b ∷ c ∷ d ∷ rest)
next_frame max _ = waits

-- The loop: the messages so far, the offset and what is left of the buffer.
pub consume_loop :
    ℕ → ℕ → ℕ → Bytes → List FrontendMessage → Result WireError (List FrontendMessage × ℕ × Bytes)
consume_loop zero max offset rest messages = ok (messages, offset, rest)
consume_loop (suc fuel) max offset rest messages = elim (next_frame max rest) [
  | throws e ↦ err e
  | waits ↦ ok (messages, offset, rest)
  | takes full m tail ↦ consume_loop fuel max (offset + full) tail (messages ++ m ∷ [])
]

-- The test behind the loop.
pub finish_consume :
    ℕ → Bytes → List FrontendMessage × ℕ × Bytes → Result WireError (List FrontendMessage × Bytes)
finish_consume max buffer (messages, offset, rest) =
    if ltb max (length buffer) && offset == 0 then err buffer_too_large else ok (messages, rest)

-- consumeFrontendMessages(data, maxMessageBytes); every round takes at least five bytes, so one
-- round more than the buffer has bytes is enough.
unfoldable pub consume_frontend_messages :
    ℕ → Bytes → Result WireError (List FrontendMessage × Bytes)
unfolding next_frame consume_loop finish_consume
consume_frontend_messages max buffer = do
  state ← consume_loop (suc (length buffer)) max 0 buffer []
  finish_consume max buffer state

-- Number.MAX_SAFE_INTEGER
abbrev pub max_safe_integer : ℕ
max_safe_integer = 9007199254740991

-- splitFrontendMessages(data)
unfoldable pub split_frontend_messages : Bytes → Result WireError (List FrontendMessage)
split_frontend_messages buffer = do
  (messages, remainder) ← consume_frontend_messages max_safe_integer buffer
  if length remainder == 0 then ok messages else err truncated_frame
