-- ===== src/Session/Protocol.antt =====
-- The frontend messages of a session: parse, bind, describe, executePortal, simpleQuery,
-- closePrepared, handleMessage and handleRaw.
pub mod Needs
pub mod Portals
use postgres_mapepire_proxy.Prelude.{
  ℕ, List, [], ◌∷◌, ◌++◌, Bool, true, false, not, ◌&&◌, ◌||◌, Option, none, some, if◌then◌else◌,
  Text, codes, ◌==◌, every, some_of, length, ltb,
}
use postgres_mapepire_proxy.Prelude.Results.{Result, ok, err}
use postgres_mapepire_proxy.Wire.Words.{Bytes, WireError}
use postgres_mapepire_proxy.Wire.Frames.{FrontendMessage, consume_frontend_messages}
use postgres_mapepire_proxy.Wire.Decode.{decode_query}
use postgres_mapepire_proxy.Sql.Text.{trim}
use postgres_mapepire_proxy.Session.State.{
  Failure, codec, unsupported, Reply, ready, error, empty_query, State, M, pure, raise, lift, gets,
  modify, ◌>>=◌, ◌>>◌, send, try_catch, try_finally, tx_status, Synthetic,
}
use postgres_mapepire_proxy.Session.Backend.{
  World, ensure_backend_job, release_backend_if_idle, close,
}
use postgres_mapepire_proxy.Session.Layer.{Layer}
use postgres_mapepire_proxy.Session.Execute.{execute_sql}
use postgres_mapepire_proxy.Session.Execute.Run.{send_synthetic}
use Needs.{message_needs_backend, decoded}
use Portals.{parse, bind, describe, execute_portal, close_prepared}

-- this.send(readyForQuery(this.txStatus()))
unfoldable pub send_ready : M (Unit {0})
send_ready = do status ← gets tx_status; send (ready status)

-- The batch forms that simpleQuery runs statement by statement.
pub data Batch : Type 0 where
  schema_batch table_batch other_batch refused_batch : Batch

module _ (world : World) (layer : Layer) where
  unfoldable pub execute_each : List Text → M (Unit {0})
  execute_each [] = pure tt
  execute_each (sql ∷ rest) = do execute_sql world layer sql [] 0 true; execute_each rest

  -- The statement that is not answered locally: how the batch is run.
  unfoldable pub execute_batch : Batch → Text → List Text → M (Unit {0})
  execute_batch schema_batch sql batch = execute_each batch
  execute_batch table_batch sql batch = execute_each batch
  execute_batch other_batch sql batch = execute_sql world layer sql [] 0 true
  execute_batch refused_batch sql batch = raise unsupported

  unfoldable pub send_each : List Synthetic → M (Unit {0})
  send_each [] = pure tt
  send_each (r ∷ rs) = do send_synthetic r true; send_each rs

  -- The loop over a batch of several statements, with the local results so far.
  unfoldable pub answer_batch : Batch → Text → List Text → List Text → List Synthetic → M (Unit {0})
  answer_batch form sql batch [] results = send_each results
  answer_batch form sql batch (statement ∷ rest) results = do
    found ← layer.resolve_synthetic statement []
    elim found [
      | none ↦ execute_batch form sql batch
      | some r ↦ answer_batch form sql batch rest (results ++ r ∷ [])
    ]

  -- simpleQuery(sql) before its ReadyForQuery; `form` says which of its batch rules applies.
  unfoldable pub simple_statements : (List Text → Batch) → Text → M (Unit {0})
  simple_statements form sql =
      if length (trim sql) == 0
      then send empty_query
      else if ltb 1 (length (layer.split sql))
      then answer_batch (form (layer.split sql)) sql (layer.split sql) (layer.split sql) []
      else execute_sql world layer sql [] 0 true

  module _ (form : List Text → Batch) where
    -- simpleQuery(sql)
    unfoldable pub simple_query : Text → M (Unit {0})
    simple_query sql = do simple_statements form sql; send_ready

    -- The switch of handleMessage.
    unfoldable pub dispatch : FrontendMessage → M (Unit {0})
    dispatch m =
        if m.kind == b'Q'
        then (do sql ← decoded (decode_query m.body); simple_query sql)
        else if m.kind == b'P'
        then parse m.body
        else if m.kind == b'B'
        then bind m.body
        else if m.kind == b'D'
        then describe world layer m.body
        else if m.kind == b'E'
        then execute_portal world layer m.body
        else if m.kind == b'S'
        then (do modify (λ s. record s { extended_error = false }); send_ready)
        else if m.kind == b'C'
        then close_prepared m.body
        else if m.kind == b'H'
        then pure tt
        else if m.kind == b'X'
        then close world
        else send (error unsupported)

    -- The finally of handleMessage.
    unfoldable pub after_message : M (Unit {0})
    after_message = if world.session_mode then pure tt else release_backend_if_idle world

    -- handleMessage(type, body)
    unfoldable pub handle_message : FrontendMessage → M (Unit {0})
    handle_message m = do
      closed ← gets (λ s. s.closed)
      if closed then pure tt else do
        needs ← message_needs_backend world layer m
        if needs then (do j ← ensure_backend_job world; pure tt) else pure tt
        try_finally (dispatch m) after_message

    -- The catch of the loop in handleRaw.
    unfoldable pub message_failed : FrontendMessage → Failure → M (Unit {0})
    message_failed m e = do
      send (error e)
      if m.kind == b'Q'
          then send_ready
          else if m.kind == b'X'
          then pure tt
          else modify (λ s. record s { extended_error = true })

    -- One message of the loop in handleRaw.
    unfoldable pub deliver : FrontendMessage → M (Unit {0})
    deliver m = do
      skipping ← gets (λ s. s.extended_error)
      if skipping && (not (m.kind == b'S') && not (m.kind == b'X'))
          then pure tt
          else try_catch (handle_message m) (message_failed m)

    unfoldable pub deliver_all : List FrontendMessage → State → State
    deliver_all [] s = s
    deliver_all (m ∷ ms) s = deliver_all ms (deliver m s).1

    -- handleRaw(data), with the bytes that wait for the rest of their frame.
    unfoldable pub handle_raw : ℕ → Bytes → Bytes × State → Bytes × State
    handle_raw max chunk (buffer, s) = elim (consume_frontend_messages max (buffer ++ chunk)) [
      | ok (messages, remainder) ↦ (remainder, deliver_all messages s)
      | err e ↦ (buffer ++ chunk, (send (error (codec e)) s).1)
    ]
