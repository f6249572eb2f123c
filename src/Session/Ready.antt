-- ===== src/Session/Ready.antt =====
-- The ReadyForQuery that ends the answer to a Query and to a Sync.
use postgres_mapepire_proxy.Prelude.{
  ◌≡◌, refl, sym, ap, subst, ◌∙◌, List, [], ◌∷◌, ◌++◌, true, false, ◌==◌, if◌then◌else◌, arith,
  Text,
}
use postgres_mapepire_proxy.Prelude.Results.{Result, ok, err}
use postgres_mapepire_proxy.Wire.Frames.{FrontendMessage}
use postgres_mapepire_proxy.Session.State.{
  State, M, Failure, Reply, ready, continue, handle, ◌>>=◌, ◌>>◌, try_catch, try_finally, tx_status,
  pure, replace,
}
use postgres_mapepire_proxy.Session.Backend.{
  World, ask, ensure_backend_job, hand_back, release_backend_if_idle,
}
use postgres_mapepire_proxy.Session.Layer.{Layer}
use postgres_mapepire_proxy.Wire.Decode.{decode_query}
use postgres_mapepire_proxy.Session.Protocol.Needs.{message_needs_backend, decoded}
use postgres_mapepire_proxy.Session.Protocol.{
  Batch, simple_query, simple_statements, dispatch, after_message, handle_message, message_failed,
  deliver, send_ready,
}

-- The last frame is a ReadyForQuery that tells the status the session has.
abbrev pub IsReady : State → Type 0
IsReady s = (before : List Reply) × (s.sent ≡ before ++ ready (tx_status s) ∷ [])

send_ready-IsReady : (s : State) → IsReady (send_ready s).1
unfolding send_ready ◌>>=◌ tx_status
send_ready-IsReady s = (s.sent, refl)

-- A step that ends with a ReadyForQuery unless it throws.
abbrev Answers : M (Unit {0}) → State → Type 0
Answers f s = (f s).0 ≡ ok tt → IsReady (f s).1

bind-Answers :
    {A : Type 0} (m : M A) (f : A → M (Unit {0})) (s : State)
    → ((a : A) (t : State) → Answers (f a) t)
    → Answers (m >>= f) s
unfolding ◌>>=◌
bind-Answers {A} m f s h = go (m s).0 (m s).1
  where
    go : (r : Result Failure A) (t : State) → Answers (continue r f) t
    go (ok a) t k = h a t k
    go (err e) t k = ground arith

module _ (world : World) (layer : Layer) (form : List Text → Batch) where
  -- The release of the job neither sends nor throws, and keeps the status.
  after_message_quiet :
      (s : State)
      → ((after_message world layer form s).0 ≡ ok tt)
        × ((after_message world layer form s).1.sent ≡ s.sent)
        × (tx_status (after_message world layer form s).1 ≡ tx_status s)
  unfolding after_message release_backend_if_idle hand_back ask ◌>>=◌ tx_status
  after_message_quiet s = (ground arith, ground arith, ground arith)

  after_message-IsReady : (s : State) → IsReady s → IsReady (after_message world layer form s).1
  after_message-IsReady s (before, e) =
      let (o, same, status) = after_message_quiet s in
      (before, same ∙ e ∙ ap (λ x. before ++ ready x ∷ []) (sym status))

  -- An error that a Query ends with is followed by a ReadyForQuery.
  message_failed-IsReady :
      (m : FrontendMessage) (e : Failure) (s : State)
      → (m.kind == b'Q') ≡ true
      → IsReady (message_failed world layer form m e s).1
  unfolding message_failed ◌>>=◌
  message_failed-IsReady m e s q = simp q (send_ready-IsReady _)

  simple_query-Answers : (sql : Text) (s : State) → Answers (simple_query world layer form sql) s
  unfolding simple_query
  simple_query-Answers sql s =
      bind-Answers (simple_statements world layer form sql) (λ _. send_ready) s
        (λ u t k. send_ready-IsReady t)

  dispatch-Answers :
      (m : FrontendMessage) (s : State)
      → (m.kind == b'Q') ≡ true
      → Answers (dispatch world layer form m) s
  unfolding dispatch
  dispatch-Answers m s q = simp q (
      bind-Answers (decoded (decode_query m.body)) (simple_query world layer form) s
        simple_query-Answers)

  finally-Answers :
      (f : M (Unit {0})) (s : State)
      → Answers f s
      → Answers (try_finally f (after_message world layer form)) s
  unfolding try_finally
  finally-Answers f s h = go (f s).0 (f s).1 h
    where
      go :
          (r : Result Failure (Unit {0})) (t : State)
          → (r ≡ ok tt → IsReady t)
          → replace r (after_message world layer form t).0 ≡ ok tt
          → IsReady (after_message world layer form t).1
      go (ok u) t k e = after_message-IsReady t (k refl)
      go (err e) t k x =
          let (o, same, status) = after_message_quiet t in
          let y : replace (err e) (ok tt) ≡ ok tt = subst (λ u. replace (err e) u ≡ ok tt) o x in
          ground arith

  handle_message-Answers :
      (m : FrontendMessage) (s : State)
      → (m.kind == b'Q') ≡ true
      → s.closed ≡ false
      → Answers (handle_message world layer form m) s
  unfolding handle_message ◌>>=◌
  handle_message-Answers m s q c = simp c (
      bind-Answers (message_needs_backend world layer m)
        (λ needs. do
          if needs then (do j ← ensure_backend_job world; pure tt) else pure tt
          try_finally (dispatch world layer form m) (after_message world layer form))
        s
        (λ needs t.
          bind-Answers (if needs then (do j ← ensure_backend_job world; pure tt) else pure tt)
            (λ _. try_finally (dispatch world layer form m) (after_message world layer form)) t
            (λ u t'. finally-Answers (dispatch world layer form m) t' (dispatch-Answers m t' q))))

  -- Every Query is answered: whatever it holds, and whatever fails on the way, the last frame that
  -- has been sent behind its delivery is a ReadyForQuery, and it tells the status the session is
  -- left in. The session is open and does not skip to a Sync.
  pub deliver-IsReady :
      (m : FrontendMessage) (s : State)
      → (m.kind == b'Q') ≡ true
      → s.closed ≡ false
      → s.extended_error ≡ false
      → IsReady (deliver world layer form m s).1
  unfolding deliver try_catch ◌>>=◌
  deliver-IsReady m s q c e = simp e (
      go (handle_message world layer form m s).0 (handle_message world layer form m s).1
        (handle_message-Answers m s q c))
    where
      go :
          (r : Result Failure (Unit {0})) (t : State)
          → (r ≡ ok tt → IsReady t)
          → IsReady (handle (message_failed world layer form m) r t).1
      go (ok u) t h = h refl
      go (err x) t h = message_failed-IsReady m x t q
