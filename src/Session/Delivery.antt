-- ===== src/Session/Delivery.antt =====
-- How the stream of a client becomes messages: the cuts of TCP, and the messages behind an error.
use postgres_mapepire_proxy.Prelude.{
  ℕ, ◌≤◌, ◌≡◌, refl, sym, ap, ◌∙◌, List, [], ◌∷◌, ◌++◌, true, false, ◌==◌, arith, append_assoc, All,
  Text,
}
use postgres_mapepire_proxy.Prelude.Results.{ok, err}
use postgres_mapepire_proxy.Wire.Words.{Bytes, WireError}
use postgres_mapepire_proxy.Wire.Frames.{FrontendMessage, consume_frontend_messages}
use postgres_mapepire_proxy.Wire.Frames.Chunks.{consume_chunks, prepend}
use postgres_mapepire_proxy.Session.State.{State, send, error, codec, ◌>>=◌}
use postgres_mapepire_proxy.Session.Backend.{World}
use postgres_mapepire_proxy.Session.Layer.{Layer}
use postgres_mapepire_proxy.Session.Protocol.{Batch, deliver, deliver_all, handle_raw}

module _ (world : World) (layer : Layer) (form : List Text → Batch) where
  deliver_all-append :
      (ms ns : List FrontendMessage) (s : State)
      → deliver_all world layer form (ms ++ ns) s
        ≡ deliver_all world layer form ns (deliver_all world layer form ms s)
  unfolding deliver_all
  deliver_all-append [] ns s = refl
  deliver_all-append (m ∷ ms) ns s = deliver_all-append ms ns (deliver world layer form m s).1

  -- A chunk whose frames are well formed.
  pub handle_raw-ok :
      (max : ℕ) (chunk buffer : Bytes) (s : State) {ms : List FrontendMessage} {rest : Bytes}
      → consume_frontend_messages max (buffer ++ chunk) ≡ ok (ms, rest)
      → handle_raw world layer form max chunk (buffer, s)
        ≡ (rest, deliver_all world layer form ms s)
  unfolding handle_raw
  handle_raw-ok max chunk buffer s e = ground arith

  -- A chunk that completes a malformed frame.
  pub handle_raw-err :
      (max : ℕ) (chunk buffer : Bytes) (s : State) {e : WireError}
      → consume_frontend_messages max (buffer ++ chunk) ≡ err e
      → handle_raw world layer form max chunk (buffer, s)
        ≡ (buffer ++ chunk, (send (error (codec e)) s).1)
  unfolding handle_raw
  handle_raw-err max chunk buffer s k = ground arith

  -- Where TCP cuts the stream makes no difference: two chunks are handled as one, with the same
  -- bytes left over, the same replies, calls and session. Both hold well-formed frames, and the
  -- limit is five bytes or more.
  pub handle_raw-append :
      (max : ℕ) (first second buffer : Bytes) (s : State) {ms ns : List FrontendMessage}
      {left rest : Bytes}
      → 5 ≤ max
      → consume_frontend_messages max (buffer ++ first) ≡ ok (ms, left)
      → consume_frontend_messages max (left ++ second) ≡ ok (ns, rest)
      → handle_raw world layer form max (first ++ second) (buffer, s)
        ≡ handle_raw world layer form max second (handle_raw world layer form max first (buffer, s))
  handle_raw-append max first second buffer s {ms} {ns} {left} {rest} h e e' =
      let whole : consume_frontend_messages max (buffer ++ (first ++ second))
          ≡ ok (ms ++ ns, rest) =
        ap (consume_frontend_messages max) (sym (append_assoc buffer first second))
        ∙ consume_chunks max (buffer ++ first) second ms left h e
        ∙ ap (prepend ms) e' in
      handle_raw-ok max (first ++ second) buffer s whole
      ∙ ap (λ t. (rest, t)) (deliver_all-append ms ns s)
      ∙ sym (
          ap (handle_raw world layer form max second) (handle_raw-ok max first buffer s e)
          ∙ handle_raw-ok max second left (deliver_all world layer form ms s) e')

  -- A message that is neither Sync nor Terminate.
  abbrev pub IsSkipped : FrontendMessage → Type 0
  IsSkipped m = ((m.kind == b'S') ≡ false) × ((m.kind == b'X') ≡ false)

  -- Behind an error in the extended protocol every message up to the next Sync or Terminate is
  -- ignored: nothing is sent, nothing is asked of the backend, and the session does not change.
  pub deliver_all_skipped :
      (ms : List FrontendMessage) (s : State)
      → s.extended_error ≡ true
      → All IsSkipped ms
      → deliver_all world layer form ms s ≡ s
  unfolding deliver_all deliver ◌>>=◌
  deliver_all_skipped [] s e h = refl
  deliver_all_skipped (m ∷ ms) s e h = simp (e, h.0.0, h.0.1) (deliver_all_skipped ms s e h.1)
