-- ===== src/Session/Appends.antt =====
-- What a step asks of the backend comes behind what was asked before.
use postgres_mapepire_proxy.Prelude.{
  ℕ, ◌≡◌, refl, sym, ap, ◌∙◌, List, [], ◌∷◌, ◌++◌, append-nil, append_assoc, arith, Text, codes,
  Option, none, some,
}
use postgres_mapepire_proxy.Prelude.Results.{Result, ok, err}
use postgres_mapepire_proxy.Session.State.{
  Failure, State, M, continue, Call, execute, ◌>>=◌, ◌>>◌, modify, pure, gets, read_schema,
  SchemaSource,
}
use postgres_mapepire_proxy.Session.Backend.{World, ask, demand, run_if_leased, set_current_schema}
use postgres_mapepire_proxy.Session.Execute.Control.{restore_local_search_path}

-- The calls of a step come behind those before it.
abbrev pub Appends : {A : Type 0} → M A → Type 0
Appends m = (s : State) → (rest : List Call) × ((m s).1.calls ≡ s.calls ++ rest)

pub continue-Appends :
    {A B : Type 0} (r : Result Failure A) (f : A → M B) (s : State)
    → ((a : A) → Appends (f a))
    → (rest : List Call) × ((continue r f s).1.calls ≡ s.calls ++ rest)
continue-Appends (ok a) f s each = each a s
continue-Appends (err e) f s each = ([], sym (append-nil s.calls))

pub bind-Appends :
    {A B : Type 0} (m : M A) (f : A → M B)
    → Appends m
    → ((a : A) → Appends (f a))
    → Appends (m >>= f)
unfolding ◌>>=◌
bind-Appends m f first each s =
    let (some_calls, e) = first s in
    let (more, g) = continue-Appends (m s).0 f (m s).1 each in
    (some_calls ++ more, g ∙ ap (λ l. l ++ more) e ∙ append_assoc s.calls some_calls more)

pure-Appends : {A : Type 0} (a : A) → Appends (pure a)
pure-Appends a s = ([], sym (append-nil s.calls))

gets-Appends : {A : Type 0} (f : State → A) → Appends (gets f)
gets-Appends f s = ([], sym (append-nil s.calls))

pub modify-Appends :
    (f : State → State) → ((s : State) → (f s).calls ≡ s.calls) → Appends (modify f)
modify-Appends f same s = ([], same s ∙ sym (append-nil s.calls))

module _ (world : World) where
  pub demand_state :
      (c : Call) (s : State) → (demand world c s).1 ≡ record s { calls = s.calls ++ c ∷ [] }
  unfolding demand ask ◌>>=◌
  demand_state c s = ground arith

  demand-Appends : (c : Call) → Appends (demand world c)
  demand-Appends c s = (c ∷ [], ap (λ (t : State). t.calls) (demand_state c s))

  leased-Appends :
      (c : ℕ → Call) (leased : Option ℕ)
      → Appends
          (elim leased as (λ _. M (Unit {0})) [ none ↦ pure tt | some j ↦ demand world (c j) ])
  leased-Appends c none = pure-Appends tt
  leased-Appends c (some j) = demand-Appends (c j)

  run_if_leased-Appends : (sql : Text) → Appends (run_if_leased world sql)
  unfolding run_if_leased
  run_if_leased-Appends sql =
      bind-Appends (gets (λ s. s.leased)) _ (gets-Appends (λ s. s.leased))
        (leased-Appends (λ j. execute j sql))

  -- What restoreLocalSearchPath does with a saved schema.
  abbrev restored : Text × SchemaSource → M (Unit {0})
  restored (name, source) = do
    modify (λ s. record s { local_restore = none })
    run_if_leased world (set_current_schema name)
    run_if_leased world (codes "COMMIT")
    modify (λ s. record s { current_schema = name })
    leased ← gets (λ s. s.leased)
    elim leased [ none ↦ pure tt | some j ↦ demand world (read_schema j) ]
    modify (λ s. record s { schema_source = source })

  restored-Appends : (saved : Text × SchemaSource) → Appends (restored saved)
  restored-Appends (name, source) =
      bind-Appends _ _ (modify-Appends (λ s. record s { local_restore = none }) (λ s. refl)) (λ _.
        bind-Appends _ _ (run_if_leased-Appends (set_current_schema name)) (λ _.
          bind-Appends _ _ (run_if_leased-Appends (codes "COMMIT")) (λ _.
            bind-Appends _ _ (modify-Appends (λ s. record s { current_schema = name }) (λ s. refl))
              (λ _. bind-Appends _ _ (gets-Appends (λ s. s.leased)) (λ leased.
                bind-Appends _ _ (leased-Appends read_schema leased)
                  (λ _. modify-Appends (λ s. record s { schema_source = source }) (λ s. refl)))))))

  saved-Appends :
      (saved : Option (Text × SchemaSource))
      → Appends (elim saved as (λ _. M (Unit {0})) [ none ↦ pure tt | some r ↦ restored r ])
  saved-Appends none = pure-Appends tt
  saved-Appends (some r) = restored-Appends r

  pub restore-Appends : Appends (restore_local_search_path world)
  unfolding restore_local_search_path
  restore-Appends =
      bind-Appends (gets (λ s. s.local_restore)) _ (gets-Appends (λ s. s.local_restore))
        saved-Appends
