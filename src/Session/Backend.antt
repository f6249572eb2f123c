-- ===== src/Session/Backend.antt =====
-- The lease of a Mapepire job: ensureBackendJob, releaseBackendIfIdle, currentJob, close. The pool
-- and Mapepire answer each call; what they answer may depend on all calls so far, and is the
-- parameter `world`. `backendCurrentSchema` and the capabilities, which only logs and error texts
-- read, are left out.
use postgres_mapepire_proxy.Prelude.{
  ℕ, List, [], ◌∷◌, ◌++◌, Bool, true, not, ◌||◌, none, some, if◌then◌else◌, Text, codes,
}
use postgres_mapepire_proxy.Sql.Identifier.{quote_identifier}
use postgres_mapepire_proxy.Session.State.{
  Failure, no_job, backend, Call, acquire, prepare_schema, execute, release, invalidate, Answer,
  fails, job, result, schema, M, pure, raise, gets, modify, ◌>>=◌, ◌>>◌, try_catch,
}

-- The environment of a session: the answers, MAPEPIRE_BACKEND_LEASE_MODE=session, the proxy's
-- default schema, and the settings of a query.
pub record World : Type 0 where
  pub answer : List Call → Call → Answer
  pub session_mode : Bool
  pub default_schema : Text
  pub reconnect_retries : ℕ

abbrev pub set_current_schema : Text → Text
set_current_schema name = codes "SET CURRENT SCHEMA " ++ quote_identifier name

module _ (world : World) where
  -- One call, with its answer.
  unfoldable pub ask : Call → M Answer
  ask c s = (pure (world.answer s.calls c) (record s { calls = s.calls ++ c ∷ [] }))

  -- An `await` that throws if the call failed.
  abbrev pub checked : Answer → M Answer
  checked (fails transport transient state) = raise (backend state)
  checked (job j) = pure (job j)
  checked (result r) = pure (result r)
  checked (schema t) = pure (schema t)

  unfoldable pub demand : Call → M (Unit {0})
  unfolding ask
  demand c = do a ← ask c; a' ← checked a; pure tt

  -- currentJob()
  unfoldable pub current_job : M ℕ
  current_job s = elim s.leased [ none ↦ raise no_job s | some j ↦ pure j s ]

  -- currentJob().execute(sql)
  unfoldable pub run : Text → M (Unit {0})
  run sql = do j ← current_job; demand (execute j sql)

  -- `if (this.job) await this.job.execute(sql)`
  unfoldable pub run_if_leased : Text → M (Unit {0})
  run_if_leased sql = do
    leased ← gets (λ s. s.leased)
    elim leased [ none ↦ pure tt | some j ↦ demand (execute j sql) ]

  -- The state replayed on a job that was just leased.
  unfoldable pub replay : ℕ → M ℕ
  replay j = do
    schema_name ← gets (λ s. s.current_schema)
    create ← gets (λ s. not s.in_transaction)
    demand (prepare_schema j schema_name create)
    demand (execute j (set_current_schema schema_name))
    demand (execute j (codes "COMMIT"))
    pure j

  -- The catch of ensureBackendJob.
  unfoldable pub give_up : ℕ → Failure → M ℕ
  give_up j e = do modify (λ s. record s { leased = none }); a ← ask (invalidate j); raise e

  -- The lease of a job that the pool granted.
  unfoldable pub take_job : Answer → M ℕ
  take_job (job j) = do modify (λ s. record s { leased = some j }); try_catch (replay j) (give_up j)
  take_job (fails transport transient state) = raise (backend state)
  take_job (result r) = raise no_job
  take_job (schema t) = raise no_job

  -- ensureBackendJob()
  unfoldable pub ensure_backend_job : M ℕ
  ensure_backend_job = do
    leased ← gets (λ s. s.leased)
    elim leased [ some j ↦ pure j | none ↦ (do a ← ask acquire; take_job a) ]

  -- The job goes back to the pool, which takes no failure to the session.
  unfoldable pub hand_back : ℕ → M (Unit {0})
  hand_back j = do modify (λ s. record s { leased = none }); a ← ask (release j); pure tt

  -- releaseBackendIfIdle()
  unfoldable pub release_backend_if_idle : M (Unit {0})
  release_backend_if_idle = do
    leased ← gets (λ s. s.leased)
    busy ← gets (λ s. s.in_transaction)
    elim leased [
      | none ↦ pure tt
      | some j ↦ if busy || world.session_mode then pure tt else hand_back j
    ]

  -- close(); the advisory locks of the session are released in Locks.
  unfoldable pub close : M (Unit {0})
  close = do
    closed ← gets (λ s. s.closed)
    leased ← gets (λ s. s.leased)
    if closed then pure tt else do
      modify (λ s. record s { closed = true })
      elim leased [ none ↦ pure tt | some j ↦ hand_back j ]
