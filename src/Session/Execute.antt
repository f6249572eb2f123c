-- ===== src/Session/Execute.antt =====
-- executeSql and what it calls: savepoints, transaction control, DEALLOCATE, search_path, and the
-- run of a translated statement. Each part is a function, composed in the source's order.
pub mod Run
pub mod Control
use postgres_mapepire_proxy.Prelude.{
  ℕ, List, [], ◌∷◌, Bool, true, false, not, ◌&&◌, ◌||◌, Option, none, some, if◌then◌else◌, Text,
  codes,
}
use postgres_mapepire_proxy.Wire.Decode.{ParameterValue}
use postgres_mapepire_proxy.Wire.Encode.{printed}
use postgres_mapepire_proxy.Session.State.{
  Kind, begin, commit, rollback, set, Failure, aborted, unsupported, State, M, pure, raise, gets,
  ◌>>=◌, ◌>>◌, send, command_complete, Synthetic,
}
use postgres_mapepire_proxy.Session.Backend.{World}
use postgres_mapepire_proxy.Session.Layer.{Layer, Selection}
use Run.{send_synthetic, run_statement}
use Control.{
  begin_block, commit_block, roll_back_block, execute_savepoint, deallocate, apply_search_path,
}

-- `rawKind === 'set'`
unfoldable pub is_set : Kind → Bool
is_set set = true
is_set _ = false

-- COMMIT and ROLLBACK, which an aborted transaction takes.
unfoldable pub ends_block : Kind → Bool
ends_block commit = true
ends_block rollback = true
ends_block _ = false

module _ (world : World) (layer : Layer) where
  -- From the translation on.
  unfoldable pub execute_translated : Kind → Text → List ParameterValue → ℕ → Bool → M (Unit {0})
  execute_translated kind sql parameters max_rows describe =
      if layer.unhandled_system_sql sql
      then raise unsupported
      else run_statement world layer kind sql parameters max_rows describe

  -- resolveSynthetic, and the refusal of other SET options.
  unfoldable pub execute_synthetic : Kind → Text → List ParameterValue → ℕ → Bool → M (Unit {0})
  execute_synthetic kind sql parameters max_rows describe = do
    found ← layer.resolve_synthetic sql parameters
    elim found [
      | some r ↦ send_synthetic r describe
      | none ↦
          if is_set kind
          then raise unsupported
          else execute_translated kind sql parameters max_rows describe
    ]

  -- SET search_path, set_config and what stands behind them.
  unfoldable pub execute_settings : Kind → Text → List ParameterValue → ℕ → Bool → M (Unit {0})
  execute_settings kind sql parameters max_rows describe = elim (layer.search_path sql) [
    | some selection ↦ do
      apply_search_path world selection
      send (command_complete (if selection.reset then codes "RESET" else codes "SET"))
    | none ↦ elim (layer.set_config sql) [
      | some (selection, field) ↦ do
        apply_search_path world selection
        schema ← gets (λ s. s.current_schema)
        send_synthetic
            (record {
              fields = field ∷ [];
              rows = (printed schema ∷ []) ∷ [];
              tag = codes "SELECT 1";
            })
            describe
      | none ↦ execute_synthetic kind sql parameters max_rows describe
    ]
  ]

  -- DEALLOCATE and the advisory locks.
  unfoldable pub execute_local : Kind → Text → List ParameterValue → ℕ → Bool → M (Unit {0})
  execute_local kind sql parameters max_rows describe = elim (layer.deallocate sql) [
    | some command ↦ do deallocate command; send (command_complete (codes "DEALLOCATE"))
    | none ↦ do
      lock ← layer.advisory sql
      elim lock [
        | some r ↦ send_synthetic r describe
        | none ↦ execute_settings kind sql parameters max_rows describe
      ]
  ]

  -- BEGIN, COMMIT and ROLLBACK, and the rest.
  unfoldable pub execute_kind : Kind → Text → List ParameterValue → ℕ → Bool → M (Unit {0})
  execute_kind begin sql parameters max_rows describe = begin_block
  execute_kind commit sql parameters max_rows describe = commit_block world
  execute_kind rollback sql parameters max_rows describe = roll_back_block world
  execute_kind kind sql parameters max_rows describe =
      execute_local kind sql parameters max_rows describe

  -- The guard of an aborted transaction.
  unfoldable pub execute_guarded : Kind → Text → List ParameterValue → ℕ → Bool → M (Unit {0})
  execute_guarded kind sql parameters max_rows describe = do
    failed ← gets (λ s. s.transaction_failed)
    if failed && not (ends_block kind)
        then raise aborted
        else execute_kind kind sql parameters max_rows describe

  -- executeSql(sql, parameters, maxRows, includeDescription)
  unfoldable pub execute_sql : Text → List ParameterValue → ℕ → Bool → M (Unit {0})
  execute_sql sql parameters max_rows describe = elim (layer.create_schema sql) [
    | some plan ↦ do plan; send (command_complete (codes "CREATE SCHEMA"))
    | none ↦
        if layer.schema_metadata sql
        then raise unsupported
        else if layer.table_owner sql
        then send (command_complete (codes "ALTER TABLE"))
        else elim (layer.savepoint sql) [
          | some command ↦ execute_savepoint world command
          | none ↦ execute_guarded (layer.classify sql) sql parameters max_rows describe
        ]
  ]
