-- ===== src/Session/Lease.antt =====
-- How long a session keeps a Mapepire job in the transaction lease mode (handleMessage,
-- ensureBackendJob, releaseBackendIfIdle).
use postgres_mapepire_proxy.Prelude.{
  ℕ, ◌≡◌, refl, sym, ap, subst, ◌∙◌, List, [], ◌∷◌, ◌++◌, ◌⊎◌, inl, inr, Bool, true, false, not,
  ◌&&◌, ◌==◌, if◌then◌else◌, arith, Text, none, some, Bool-cases, Option-cases,
}
use postgres_mapepire_proxy.Prelude.Results.{Result, ok, err, Result-cases}
use postgres_mapepire_proxy.Wire.Words.{Bytes}
use postgres_mapepire_proxy.Wire.Frames.{FrontendMessage, consume_frontend_messages}
use postgres_mapepire_proxy.Session.State.{
  State, M, continue, pure, acquire, Failure, Answer, job, result, schema, fails, ◌>>=◌, ◌>>◌,
  try_catch, try_finally, handle,
}
use postgres_mapepire_proxy.Session.Backend.{
  World, ask, give_up, take_job, ensure_backend_job, hand_back, release_backend_if_idle,
}
use postgres_mapepire_proxy.Session.Layer.{Layer}
use postgres_mapepire_proxy.Session.Delivery.{handle_raw-ok, handle_raw-err}
use postgres_mapepire_proxy.Session.Protocol.Needs.{message_needs_backend, pooled_needs_backend}
use postgres_mapepire_proxy.Session.Protocol.{
  Batch, dispatch, after_message, handle_message, message_failed, deliver, deliver_all, handle_raw,
  send_ready,
}

-- What holds of the state behind `m >>= f`, by the outcome of `m`.
continue-end :
    {A B : Type 0} (P : State → Type 0) (r : Result Failure A) (f : A → M B) (s : State)
    → ((e : Failure) → r ≡ err e → P s)
    → ((a : A) → r ≡ ok a → P (f a s).1)
    → P (continue r f s).1
continue-end P (ok a) f s h k = k a refl
continue-end P (err e) f s h k = h e refl

bind-end :
    {A B : Type 0} (P : State → Type 0) (m : M A) (f : A → M B) (s : State)
    → ((e : Failure) → (m s).0 ≡ err e → P (m s).1)
    → ((a : A) → (m s).0 ≡ ok a → P (f a (m s).1).1)
    → P ((m >>= f) s).1
unfolding ◌>>=◌
bind-end P m f s h k = continue-end P (m s).0 f (m s).1 h k

-- A job is held in a block only.
abbrev pub IsReturned : State → Type 0
IsReturned s = (s.in_transaction ≡ true) ⊎ (s.leased ≡ none)

module _ (world : World) where
  pub release_backend_if_idle-IsReturned :
      (s : State) → world.session_mode ≡ false → IsReturned (release_backend_if_idle world s).1
  unfolding release_backend_if_idle hand_back ask ◌>>=◌
  release_backend_if_idle-IsReturned s e = ground (arith, e)

  -- A job that could not take over the session's state is not kept.
  take_job-none :
      (a : Answer) (s : State) {e : Failure}
      → s.leased ≡ none
      → (take_job world a s).0 ≡ err e
      → (take_job world a s).1.leased ≡ none
  unfolding take_job try_catch give_up ask ◌>>=◌
  take_job-none (job j) s h r = ground arith
  take_job-none (result x) s h r = h
  take_job-none (schema t) s h r = h
  take_job-none (fails t u x) s h r = h

  ensure_backend_job-free :
      (s : State)
      → s.leased ≡ none
      → ensure_backend_job world s
        ≡ take_job world
            (world.answer s.calls acquire)
            (record s { calls = s.calls ++ acquire ∷ [] })
  unfolding ensure_backend_job ask ◌>>=◌
  ensure_backend_job-free s e = ground arith

  ensure_backend_job-leased :
      (s : State) (j : ℕ) → s.leased ≡ some j → ensure_backend_job world s ≡ (ok j, s)
  unfolding ensure_backend_job ◌>>=◌
  ensure_backend_job-leased s j e = ground arith

  pub ensure_backend_job-none :
      (s : State) {e : Failure}
      → (ensure_backend_job world s).0 ≡ err e
      → (ensure_backend_job world s).1.leased ≡ none
  ensure_backend_job-none s r = elim (Option-cases s.leased) [
    | inl n ↦
        let free = ensure_backend_job-free s n in
        ap (λ x. x.1.leased) free
        ∙ take_job-none (world.answer s.calls acquire)
            (record s { calls = s.calls ++ acquire ∷ [] }) n (sym (ap (λ x. x.0) free) ∙ r)
    | inr (j, n) ↦
        let held = ensure_backend_job-leased s j n in
        (let x = sym r ∙ ap (λ x. x.0) held in ground arith)
  ]

  lease_failed :
      (r : Result Failure ℕ) (s : State) {e : Failure}
      → ((x : Failure) → r ≡ err x → s.leased ≡ none)
      → (continue r (λ j. pure tt) s).0 ≡ err e
      → (continue r (λ j. pure tt) s).1.leased ≡ none
  lease_failed (ok j) s h e = ground arith
  lease_failed (err x) s h e = h x refl

  module _ (layer : Layer) where
    pub message_needs_backend_pure :
        (m : FrontendMessage) (s : State) → (message_needs_backend world layer m s).1 ≡ s
    unfolding message_needs_backend pooled_needs_backend ◌>>=◌
    message_needs_backend_pure m s = ground arith

    module _ (form : List Text → Batch) (mode : world.session_mode ≡ false) where
      after_message-IsReturned : (s : State) → IsReturned (after_message world layer form s).1
      unfolding after_message
      after_message-IsReturned s = simp mode (release_backend_if_idle-IsReturned s mode)

      -- The switch and its finally.
      switch-IsReturned :
          (m : FrontendMessage) (s : State)
          → IsReturned
              (try_finally (dispatch world layer form m) (after_message world layer form) s).1
      unfolding try_finally
      switch-IsReturned m s = after_message-IsReturned (dispatch world layer form m s).1

      leased-IsReturned :
          (needs : Bool) (m : FrontendMessage) (s : State)
          → IsReturned s
          → IsReturned
              ((do
                if needs then (do j ← ensure_backend_job world; pure tt) else pure tt
                try_finally (dispatch world layer form m) (after_message world layer form))
                s).1
      unfolding ◌>>=◌
      leased-IsReturned false m s h = switch-IsReturned m s
      leased-IsReturned true m s h =
          bind-end IsReturned (do j ← ensure_backend_job world; pure tt)
            (λ _. try_finally (dispatch world layer form m) (after_message world layer form)) s
            (λ e r. inr (
              lease_failed (ensure_backend_job world s).0 (ensure_backend_job world s).1
                (λ x k. ensure_backend_job-none s k) r))
            (λ u e. switch-IsReturned m _)

      handle_message-IsReturned :
          (m : FrontendMessage) (s : State)
          → IsReturned s
          → IsReturned (handle_message world layer form m s).1
      unfolding handle_message ◌>>=◌
      handle_message-IsReturned m s h = elim (Bool-cases s.closed) [
        | inl c ↦ simp c h
        | inr c ↦ simp c (
            bind-end IsReturned (message_needs_backend world layer m)
              (λ needs. do
                if needs then (do j ← ensure_backend_job world; pure tt) else pure tt
                try_finally (dispatch world layer form m) (after_message world layer form))
              s (λ e k. subst IsReturned (sym (message_needs_backend_pure m s)) h)
              (λ needs k.
                leased-IsReturned needs m (message_needs_backend world layer m s).1
                  (subst IsReturned (sym (message_needs_backend_pure m s)) h)))
      ]

      message_failed-IsReturned :
          (m : FrontendMessage) (e : Failure) (s : State)
          → IsReturned s
          → IsReturned (message_failed world layer form m e s).1
      unfolding message_failed send_ready ◌>>=◌
      message_failed-IsReturned m e s h = ground (arith, h)

      caught-IsReturned :
          (m : FrontendMessage) (r : Result Failure (Unit {0})) (s : State)
          → IsReturned s
          → IsReturned (handle (message_failed world layer form m) r s).1
      caught-IsReturned m (ok u) s h = h
      caught-IsReturned m (err e) s h = message_failed-IsReturned m e s h

      deliver-IsReturned :
          (m : FrontendMessage) (s : State)
          → IsReturned s
          → IsReturned (deliver world layer form m s).1
      unfolding deliver try_catch ◌>>=◌
      deliver-IsReturned m s h =
          skip_or (s.extended_error && (not (m.kind == b'S') && not (m.kind == b'X')))
        where
          skip_or :
              (b : Bool)
              → IsReturned
                  ((if b
                      then pure tt
                      else try_catch
                          (handle_message world layer form m)
                          (message_failed world layer form m))
                    s).1
          skip_or true = h
          skip_or false =
              caught-IsReturned m (handle_message world layer form m s).0
                (handle_message world layer form m s).1 (handle_message-IsReturned m s h)

      deliver_all-IsReturned :
          (ms : List FrontendMessage) (s : State)
          → IsReturned s
          → IsReturned (deliver_all world layer form ms s)
      unfolding deliver_all
      deliver_all-IsReturned [] s h = h
      deliver_all-IsReturned (m ∷ ms) s h =
          deliver_all-IsReturned ms (deliver world layer form m s).1 (deliver-IsReturned m s h)

      -- In the transaction lease mode a session that is not in a block holds no job between two
      -- chunks of its stream: any bytes, of any frames and with any answers of the pool and of
      -- Mapepire, errors included, keep it that way.
      pub handle_raw-IsReturned :
          (max : ℕ) (chunk buffer : Bytes) (s : State)
          → IsReturned s
          → IsReturned (handle_raw world layer form max chunk (buffer, s)).1
      handle_raw-IsReturned max chunk buffer s h =
          elim (Result-cases (consume_frontend_messages max (buffer ++ chunk))) [
            | inl ((ms, rest), k) ↦
                subst (λ x. IsReturned x.1)
                  (sym (handle_raw-ok world layer form max chunk buffer s k))
                  (deliver_all-IsReturned ms s h)
            | inr (e, k) ↦
                subst (λ x. IsReturned x.1)
                  (sym (handle_raw-err world layer form max chunk buffer s k)) h
          ]
