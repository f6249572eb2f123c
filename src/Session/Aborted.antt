-- ===== src/Session/Aborted.antt =====
-- What a failed block lets through to Db2.
use postgres_mapepire_proxy.Prelude.{
  ℕ, ◌≡◌, refl, sym, ap, subst, ◌∙◌, List, [], ◌∷◌, ◌++◌, append_assoc, ◌⊎◌, inl, inr, Bool, true,
  arith, Text, codes, none, some, Bool-cases, Option-cases,
}
use postgres_mapepire_proxy.Prelude.Results.{Result, err}
use postgres_mapepire_proxy.Wire.Decode.{ParameterValue}
use postgres_mapepire_proxy.Sql.Savepoint.{Command, translate_savepoint}
use postgres_mapepire_proxy.Session.State.{
  Kind, commit, rollback, Failure, aborted, unsupported, State, M, continue, Call, execute, ◌>>=◌,
  ◌>>◌, modify, send, try_catch, command_complete,
}
use postgres_mapepire_proxy.Session.Backend.{World, ask, demand, current_job, run, run_if_leased}
use postgres_mapepire_proxy.Session.Layer.{Layer}
use postgres_mapepire_proxy.Session.Execute.{ends_block, execute_kind, execute_guarded, execute_sql}
use postgres_mapepire_proxy.Session.Execute.Control.{
  is_rollback_to, execute_savepoint, run_savepoint, abort, commit_block, roll_back_block,
  block_rolled_back, restore_local_search_path,
}
use postgres_mapepire_proxy.Session.Appends.{
  Appends, continue-Appends, bind-Appends, modify-Appends, demand_state, restore-Appends,
}

module _ (world : World) where
  -- The end of a failed block, behind its ROLLBACK.
  abbrev finish : M (Unit {0})
  finish = do
    modify block_rolled_back
    restore_local_search_path world
    send (command_complete (codes "ROLLBACK"))

  finish-Appends : Appends finish
  finish-Appends = bind-Appends _ _ (modify-Appends block_rolled_back (λ s. refl)) (λ _.
      bind-Appends _ _ (restore-Appends world) (λ _.
        modify-Appends (λ s. record s { sent = s.sent ++ command_complete (codes "ROLLBACK") ∷ [] })
          (λ s. refl)))

  -- What a statement of a failed block has asked of the backend, with the job `j`: nothing, and then
  -- the block is still failed; ROLLBACK before anything else; or ROLLBACK TO SAVEPOINT alone.
  abbrev pub Undoes : ℕ → State → State → Type 0
  Undoes j s t =
      ((t.calls ≡ s.calls) × (t.transaction_failed ≡ true))
      ⊎ ((rest : List Call) × (t.calls ≡ s.calls ++ execute j (codes "ROLLBACK") ∷ rest))
      ⊎ ((c : Command) × (is_rollback_to c.action ≡ true)
          × (t.calls ≡ s.calls ++ execute j (translate_savepoint c) ∷ []))

  run_if_leased-held :
      (sql : Text) (s : State) (j : ℕ)
      → s.leased ≡ some j
      → run_if_leased world sql s ≡ demand world (execute j sql) s
  unfolding run_if_leased ◌>>=◌
  run_if_leased-held sql s j l = rw (l) refl

  -- ROLLBACK, and the end of the block.
  ended-Undoes :
      (s : State) (j : ℕ)
      → s.leased ≡ some j
      → Undoes j s ((run_if_leased world (codes "ROLLBACK") >> finish) s).1
  unfolding ◌>>=◌
  ended-Undoes s j l =
      let c = execute j (codes "ROLLBACK") in
      let (rest, e) =
        continue-Appends (demand world c s).0 (λ _. finish) (demand world c s).1
          (λ _. finish-Appends) in
      inr (
        inl (
          rest,
          ap (λ p. (continue p.0 (λ _. finish) p.1).1.calls)
                (run_if_leased-held (codes "ROLLBACK") s j l)
              ∙ e
              ∙ ap (λ (t : State). t.calls ++ rest) (demand_state world c s)
              ∙ append_assoc s.calls (c ∷ []) rest,
        ))

  roll_back_block-Undoes :
      (s : State) (j : ℕ) → s.leased ≡ some j → Undoes j s (roll_back_block world s).1
  unfolding roll_back_block
  roll_back_block-Undoes s j l = ended-Undoes s j l

  commit_block-Undoes :
      (s : State) (j : ℕ)
      → s.leased ≡ some j
      → s.transaction_failed ≡ true
      → Undoes j s (commit_block world s).1
  unfolding commit_block ◌>>=◌
  commit_block-Undoes s j l f = simp f (ended-Undoes s j l)

  -- What a savepoint command leaves, by how its call to Db2 ended.
  savepoint-Undoes :
      (s : State) (j : ℕ) (c : Command)
      → s.leased ≡ some j
      → is_rollback_to c.action ≡ true
      → (run_savepoint world c s).1.calls ≡ s.calls ++ execute j (translate_savepoint c) ∷ []
  unfolding run_savepoint run current_job abort try_catch ◌>>=◌ demand ask
  savepoint-Undoes s j c l b = ground arith

  -- Of two equal outcomes both undo, or neither.
  same-Undoes :
      {r t : Result Failure (Unit {0}) × State} (s : State) (j : ℕ)
      → r ≡ t
      → Undoes j s t.1
      → Undoes j s r.1
  same-Undoes s j e u = subst (λ (p : Result Failure (Unit {0}) × State). Undoes j s p.1) (sym e) u

  execute_savepoint-Undoes :
      (s : State) (j : ℕ) (c : Command)
      → s.leased ≡ some j
      → s.in_transaction ≡ true
      → s.transaction_failed ≡ true
      → Undoes j s (execute_savepoint world c s).1
  unfolding execute_savepoint ◌>>=◌
  execute_savepoint-Undoes s j c l i f = elim (Bool-cases (is_rollback_to c.action)) [
    | inl b ↦
        let e : execute_savepoint world c s ≡ run_savepoint world c s = ground arith in
        same-Undoes s j e (inr (inr (c, b, savepoint-Undoes s j c l b)))
    | inr b ↦
        let e : execute_savepoint world c s ≡ (err aborted, s) = ground arith in
        same-Undoes s j e (inl (refl, f))
  ]

  ends_block-cases : (kind : Kind) → ends_block kind ≡ true → (kind ≡ commit) ⊎ (kind ≡ rollback)
  unfolding ends_block
  ends_block-cases kind e = ground arith

  module _ (layer : Layer) where
    kind-Undoes :
        (kind : Kind) (sql : Text) (parameters : List ParameterValue) (max_rows : ℕ)
        (describe : Bool) (s : State) (j : ℕ)
        → s.leased ≡ some j
        → s.transaction_failed ≡ true
        → (kind ≡ commit) ⊎ (kind ≡ rollback)
        → Undoes j s (execute_kind world layer kind sql parameters max_rows describe s).1
    unfolding execute_kind
    kind-Undoes kind sql parameters max_rows describe s j l f (inl e) =
        same-Undoes s j (ap (λ k. execute_kind world layer k sql parameters max_rows describe s) e)
          (commit_block-Undoes s j l f)
    kind-Undoes kind sql parameters max_rows describe s j l f (inr e) =
        same-Undoes s j (ap (λ k. execute_kind world layer k sql parameters max_rows describe s) e)
          (roll_back_block-Undoes s j l)

    guarded-Undoes :
        (kind : Kind) (sql : Text) (parameters : List ParameterValue) (max_rows : ℕ)
        (describe : Bool) (s : State) (j : ℕ)
        → s.leased ≡ some j
        → s.transaction_failed ≡ true
        → Undoes j s (execute_guarded world layer kind sql parameters max_rows describe s).1
    unfolding execute_guarded ◌>>=◌
    guarded-Undoes kind sql parameters max_rows describe s j l f =
        elim (Bool-cases (ends_block kind)) [
          | inl b ↦
              let e : execute_guarded world layer kind sql parameters max_rows describe s
                  ≡ execute_kind world layer kind sql parameters max_rows describe s =
                ground arith in
              same-Undoes s j e (
                kind-Undoes kind sql parameters max_rows describe s j l f (ends_block-cases kind b))
          | inr b ↦
              let e : execute_guarded world layer kind sql parameters max_rows describe s
                  ≡ (err aborted, s) =
                ground arith in
              same-Undoes s j e (inl (refl, f))
        ]

    pub execute_sql-Undoes :
        (sql : Text) (parameters : List ParameterValue) (max_rows : ℕ) (describe : Bool) (s : State)
        (j : ℕ)
        → layer.create_schema sql ≡ none
        → s.leased ≡ some j
        → s.in_transaction ≡ true
        → s.transaction_failed ≡ true
        → Undoes j s (execute_sql world layer sql parameters max_rows describe s).1
    unfolding execute_sql
    execute_sql-Undoes sql parameters max_rows describe s j n l i f =
        elim (Bool-cases (layer.schema_metadata sql)) [
          | inl metadata ↦
              let e : outcome ≡ (err unsupported, s) = ground arith in
              same-Undoes s j e (inl (refl, f))
          | inr data_only ↦ elim (Bool-cases (layer.table_owner sql)) [
            | inl owner ↦
                let e : outcome ≡ send (command_complete (codes "ALTER TABLE")) s = ground arith in
                same-Undoes s j e (inl (refl, f))
            | inr no_owner ↦ elim (Option-cases (layer.savepoint sql)) [
              | inr (c, command) ↦
                  let e : outcome ≡ execute_savepoint world c s = ground arith in
                  same-Undoes s j e (execute_savepoint-Undoes s j c l i f)
              | inl no_command ↦
                  let e : outcome
                      ≡ execute_guarded world layer (layer.classify sql) sql parameters max_rows
                          describe s =
                    ground arith in
                  same-Undoes s j e
                    (guarded-Undoes (layer.classify sql) sql parameters max_rows describe s j l f)
            ]
          ]
        ]
      where
        outcome : Result Failure (Unit {0}) × State
        outcome = execute_sql world layer sql parameters max_rows describe s
