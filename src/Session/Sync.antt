-- ===== src/Session/Sync.antt =====
-- The answer to Sync, with and without a job of Mapepire.
use postgres_mapepire_proxy.Prelude.{◌≡◌, List, [], ◌∷◌, ◌++◌, Bool, true, false, arith, Text, none}
use postgres_mapepire_proxy.Wire.Words.{Bytes}
use postgres_mapepire_proxy.Wire.Frames.{FrontendMessage}
use postgres_mapepire_proxy.Session.State.{
  State, acquire, fails, backend, ready, error, ◌>>=◌, try_catch, try_finally, tx_status,
}
use postgres_mapepire_proxy.Session.Backend.{
  World, ask, hand_back, release_backend_if_idle, ensure_backend_job, take_job,
}
use postgres_mapepire_proxy.Session.Layer.{Layer}
use postgres_mapepire_proxy.Session.Protocol.Needs.{message_needs_backend, pooled_needs_backend}
use postgres_mapepire_proxy.Session.Protocol.{
  Batch, dispatch, after_message, handle_message, message_failed, deliver, send_ready,
}

abbrev pub sync : Bytes → FrontendMessage
sync body = record { kind = b'S'; body = body }

module _ (world : World) (layer : Layer) (form : List Text → Batch) where
  -- In the transaction lease mode a Sync is answered by one frame, a ReadyForQuery with the status
  -- of the session, and the messages behind it are no longer skipped. The session is open.
  pub deliver-sync :
      (body : Bytes) (s : State)
      → world.session_mode ≡ false
      → s.closed ≡ false
      → let t = (deliver world layer form (sync body) s).1 in
        (t.sent ≡ s.sent ++ ready (tx_status s) ∷ []) × (t.extended_error ≡ false)
  unfolding deliver try_catch handle_message message_needs_backend pooled_needs_backend dispatch
      try_finally send_ready tx_status after_message release_backend_if_idle hand_back ask ◌>>=◌
  deliver-sync body s mode c = (ground arith, ground arith)

  -- In the session lease mode a Sync asks for a job first. If the pool has none, the answer is an
  -- error and no ReadyForQuery, and the session skips to the next Sync. The session is open and
  -- holds no job.
  pub deliver-sync_unanswered :
      (body : Bytes) (s : State) (transport transient : Bool) (state : Text)
      → world.session_mode ≡ true
      → s.closed ≡ false
      → s.leased ≡ none
      → world.answer s.calls acquire ≡ fails transport transient state
      → let t = (deliver world layer form (sync body) s).1 in
        (t.sent ≡ s.sent ++ error (backend state) ∷ []) × (t.extended_error ≡ true)
  unfolding deliver try_catch handle_message message_needs_backend ensure_backend_job take_job
      message_failed send_ready ask ◌>>=◌
  deliver-sync_unanswered body s transport transient state mode c l a = (ground arith, ground arith)
