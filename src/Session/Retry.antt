-- ===== src/Session/Retry.antt =====
-- When a statement is sent to Db2 again, and when its reply is sent (executeWithSafeRetry and the
-- last part of executeSql).
use postgres_mapepire_proxy.Prelude.{
  Bool, replicate, append_assoc, append-nil, ◌+◌, false, ℕ, zero, suc, ◌≤◌, ◌≡◌, refl, sym, ap,
  subst, ◌∙◌, List, [], ◌∷◌, ◌++◌, ◌⊎◌, inl, inr, true, false, arith, Text, codes, some, Bool-cases,
  Option-cases,
}
use postgres_mapepire_proxy.Prelude.Results.{Result, ok, err}
use postgres_mapepire_proxy.Wire.Decode.{ParameterValue}
use postgres_mapepire_proxy.Session.State.{
  job, result, schema, fails, Kind, State, M, Failure, Call, query, execute, Answer, QueryResult,
  continue, ◌>>=◌, ◌>>◌, try_catch, handle, pure, raise,
}
use postgres_mapepire_proxy.Session.Backend.{World, ask, current_job, demand, run}
use postgres_mapepire_proxy.Session.Lowering.Learn.{Plan}
use postgres_mapepire_proxy.Session.Execute.Run.{
  is_idempotent_read, retry_with, is_transient, stabilize_with, stabilized, safe_retry, answered,
  statement_failed, autocommit, learn, run_translated,
}

module _ (world : World) where
  -- The answer to a call that was made `i` times before.
  abbrev pub answer_behind : List Call → Call → ℕ → Answer
  answer_behind calls c i = world.answer (calls ++ replicate i c) c

  -- A call that is made `k` times more after its first time, up to `n`: each time because the answer
  -- before says that a table is being rebuilt, and not again behind another answer.
  abbrev pub IsStabilized : List Call → Call → (n k : ℕ) → Type 0
  IsStabilized calls c n k =
      (k ≤ n)
      × ((i : ℕ) → i + 1 ≤ k → is_transient (answer_behind calls c i) ≡ true)
      × ((k ≡ n) ⊎ (is_transient (answer_behind calls c k) ≡ false))

  behind_one :
      (calls : List Call) (c : Call) (i : ℕ)
      → answer_behind (calls ++ c ∷ []) c i ≡ answer_behind calls c (suc i)
  behind_one calls c i = ap (λ l. world.answer l c) (append_assoc calls (c ∷ []) (replicate i c))

  IsStabilized-suc :
      (calls : List Call) (c : Call) (n k : ℕ)
      → is_transient (world.answer calls c) ≡ true
      → IsStabilized (calls ++ c ∷ []) c n k
      → IsStabilized calls c (suc n) (suc k)
  IsStabilized-suc calls c n k first (within, before, last) = (
    omega arith,
    again,
    elim last [
      | inl all ↦ inl (ap suc all)
      | inr ends ↦ inr (sym (ap is_transient (behind_one calls c k)) ∙ ends)
    ],
  )
    where
      again : (i : ℕ) → i + 1 ≤ suc k → is_transient (answer_behind calls c i) ≡ true
      again zero h = ap (λ l. is_transient (world.answer l c)) (append-nil calls) ∙ first
      again (suc i) h = sym (ap is_transient (behind_one calls c i)) ∙ before i (omega arith)

  -- A query asks for nothing else, and gives the last answer.
  stabilized-calls :
      (n : ℕ) (c : Call) (s : State)
      → (k : ℕ) × IsStabilized s.calls c n k
        × ((stabilized world n c s).0 ≡ ok (answer_behind s.calls c k))
        × ((stabilized world n c s).1 ≡ record s { calls = s.calls ++ replicate (suc k) c })
  unfolding stabilized ask stabilize_with ◌>>=◌
  stabilized-calls zero c s = (
    0,
    (omega arith, λ i h. absurd (omega arith), inl refl),
    ap (λ l. ok (world.answer l c)) (sym (append-nil s.calls)),
    refl,
  )
  stabilized-calls (suc n) c s = elim (Bool-cases (is_transient (world.answer s.calls c))) [
    | inl t ↦
        let (k, h, a, e) = stabilized-calls n c (record s { calls = s.calls ++ c ∷ [] }) in
        (
          suc k,
          IsStabilized-suc s.calls c n k t h,
          simp t (a ∙ ap ok (behind_one s.calls c k)),
          simp t (
              e
              ∙ ap (λ l. record s { calls = l })
                  (append_assoc s.calls (c ∷ []) (replicate (suc k) c))),
        )
    | inr t ↦ (
      0,
      (
        omega arith,
        λ i h. absurd (omega arith),
        inr (ap (λ l. is_transient (world.answer l c)) (append-nil s.calls) ∙ t),
      ),
      simp t (ap (λ l. ok (world.answer l c)) (sym (append-nil s.calls))),
      simp t refl,
    )
  ]

  answered_pure : (a : Answer) (s : State) → (answered a s).1 ≡ s
  unfolding answered
  answered_pure a s = ground arith

  current_job-run :
      {B : Type 0} (f : ℕ → M B) (s : State) (j : ℕ)
      → s.leased ≡ some j
      → (current_job world >>= f) s ≡ f j s
  unfolding current_job ◌>>=◌
  current_job-run f s j l = rw (l) refl

  answered_quiet : (r : Result Failure Answer) (t : State) → (continue r (λ a. answered a) t).1 ≡ t
  answered_quiet (ok a) t = answered_pure a t
  answered_quiet (err e) t = refl

  retry_quiet :
      (again : M QueryResult) (kind : Kind) (j : ℕ) (r : Result Failure Answer) (t : State)
      → (t.in_transaction ≡ true) ⊎ (is_idempotent_read kind ≡ false)
      → (continue r (λ a. retry_with world again kind j a) t).1 ≡ t
  unfolding retry_with ◌>>=◌
  retry_quiet again kind j (ok a) t h = ground (arith, answered_pure a t)
  retry_quiet again kind j (err e) t h = refl

  -- A statement that may write, and any statement inside a block, is sent again only behind an answer
  -- that says that a table is being rebuilt, and never behind any other, a transport error that does
  -- not say so among them: however many retries are configured, it is sent to the same job once, and
  -- again as long as the last answer was of that kind, twenty times at most. Nothing else is asked or
  -- changed. The session holds a job.
  pub safe_retry-calls :
      (retries : ℕ) (kind : Kind) (sql : Text) (vs : List ParameterValue) (max_rows : ℕ) (s : State)
      (j : ℕ)
      → s.leased ≡ some j
      → (s.in_transaction ≡ true) ⊎ (is_idempotent_read kind ≡ false)
      → (k : ℕ) × IsStabilized s.calls (query j sql vs max_rows) 19 k
        × ((safe_retry world retries kind sql vs max_rows s).1
            ≡ record s { calls = s.calls ++ replicate (suc k) (query j sql vs max_rows) })
  unfolding safe_retry retry_with current_job ◌>>=◌
  safe_retry-calls zero kind sql vs max_rows s j l h =
      let c = query j sql vs max_rows in
      let (k, b, a, e) = stabilized-calls 19 c s in
      (
        k,
        b,
        ap (λ p. p.1)
              (current_job-run
                (λ i. do a ← stabilized world 19 (query i sql vs max_rows); answered a) s j l)
            ∙ answered_quiet (stabilized world 19 c s).0 (stabilized world 19 c s).1
            ∙ e,
      )
  safe_retry-calls (suc n) kind sql vs max_rows s j l h =
      let c = query j sql vs max_rows in
      let (k, b, a, e) = stabilized-calls 19 c s in
      (
        k,
        b,
        ap (λ p. p.1)
              (current_job-run
                (λ i. do
                  a ← stabilized world 19 (query i sql vs max_rows)
                  retry_with world (safe_retry world n kind sql vs max_rows) kind i a)
                s j l)
            ∙ retry_quiet (safe_retry world n kind sql vs max_rows) kind j
                (stabilized world 19 c s).0 (stabilized world 19 c s).1
                (subst (λ t. (t.in_transaction ≡ true) ⊎ (is_idempotent_read kind ≡ false)) (sym e)
                  h)
            ∙ e,
      )

-- The outcome of the first part of a step that succeeds.
continue_ok :
    {A B : Type 0} (r : Result Failure A) (f : A → M B) (s : State) {b : B} {t : State}
    → continue r f s ≡ (ok b, t)
    → (a : A) × (r ≡ ok a) × (f a s ≡ (ok b, t))
continue_ok (ok a) f s h = (a, refl, h)
continue_ok (err e) f s h = (let x = ap (λ p. p.0) h in ground arith)

bind_ok :
    {A B : Type 0} (m : M A) (f : A → M B) (s : State) {b : B} {t : State}
    → (m >>= f) s ≡ (ok b, t)
    → (a : A) × ((m s).0 ≡ ok a) × (f a (m s).1 ≡ (ok b, t))
unfolding ◌>>=◌
bind_ok m f s h = continue_ok (m s).0 f (m s).1 h

abbrev pub is_failure : Answer → Bool
is_failure (fails transport transient state) = true
is_failure (job j) = false
is_failure (result r) = false
is_failure (schema t) = false

-- The last call to the backend is COMMIT, and it did not fail.
abbrev pub IsCommitted : World → State → Type 0
IsCommitted world s =
    (before : List Call) × (j : ℕ) × (s.calls ≡ before ++ execute j (codes "COMMIT") ∷ [])
    × (is_failure (world.answer before (execute j (codes "COMMIT"))) ≡ false)

module _ (world : World) where
  autocommit-IsCommitted :
      (s : State)
      → (autocommit world s).0 ≡ ok tt
      → (autocommit world s).1.in_transaction ≡ false
      → IsCommitted world (autocommit world s).1
  unfolding autocommit run demand current_job ask ◌>>=◌
  autocommit-IsCommitted s h b = elim (Option-cases s.leased) [
    | inl n ↦ ground arith
    | inr (j, n) ↦ (s.calls, j, ground arith, ground arith)
  ]

  statement_failed_err :
      {A : Type 0} (e : Failure) (s : State) → (statement_failed world {A = A} e s).0 ≡ err e
  unfolding statement_failed try_catch ◌>>=◌
  statement_failed_err {A} e s = elim (Bool-cases s.in_transaction) [
    | inl b ↦ simp b refl
    | inr b ↦
        simp b (swallowed (run world (codes "ROLLBACK") s).0 (run world (codes "ROLLBACK") s).1)
  ]
    where
      swallowed :
          (r : Result Failure (Unit {0})) (t : State)
          → (continue {B = A}
              (handle (λ x. pure tt) r t).0
              (λ x. raise e)
              (handle (λ x. pure tt) r t).1).0
            ≡ err e
      swallowed (ok u) t = refl
      swallowed (err x) t = refl

  -- A step whose failures are those of a statement.
  caught_ok :
      {A : Type 0} (m : M A) (s : State) {a : A} {t : State}
      → try_catch m (statement_failed world) s ≡ (ok a, t)
      → m s ≡ (ok a, t)
  unfolding try_catch
  caught_ok {A} m s {a} {t} h = go (m s).0 (m s).1 h
    where
      go :
          (r : Result Failure A) (u : State)
          → handle (statement_failed world) r u ≡ (ok a, t)
          → ◌≡◌ {A = Result Failure A × State} (r, u) (ok a, t)
      go (ok x) u k = k
      go (err e) u k = (let x = sym (statement_failed_err e u) ∙ ap (λ p. p.0) k in ground arith)

  -- A statement outside a block is done only behind a COMMIT: if the run gives a result and the
  -- session is then in no block, COMMIT was the last call to the backend, and it did not fail.
  pub run_translated-IsCommitted :
      (kind : Kind) (plan : Plan) (db2 : Text) (vs : List ParameterValue) (max_rows : ℕ) (s : State)
      {r : QueryResult} {t : State}
      → run_translated world kind plan db2 vs max_rows s ≡ (ok r, t)
      → t.in_transaction ≡ false
      → IsCommitted world t
  unfolding run_translated
  run_translated-IsCommitted kind plan db2 vs max_rows s {r} {t} h b =
      let (q, e, k) =
        bind_ok (safe_retry world world.reconnect_retries kind db2 vs max_rows)
          (λ r. do learn world plan db2; autocommit world; pure r) s (caught_ok _ s h) in
      let (u, e', k') =
        bind_ok (learn world plan db2) (λ _. (do autocommit world; pure q))
          (safe_retry world world.reconnect_retries kind db2 vs max_rows s).1 k in
      let (v, e'', k'') = bind_ok (autocommit world) (λ _. pure q) _ k' in
      let same = ap (λ p. p.1) k'' in
      subst (IsCommitted world) same
        (autocommit-IsCommitted _ e'' (ap (λ x. x.in_transaction) same ∙ b))
