-- ===== src/Session/Execute/Control.antt =====
-- Savepoints, BEGIN, COMMIT, ROLLBACK, DEALLOCATE and search_path (parts of executeSql,
-- applySearchPath and restoreLocalSearchPath).
use postgres_mapepire_proxy.Prelude.{
  List, [], ◌∷◌, Bool, true, false, not, ◌&&◌, ◌||◌, none, some, if◌then◌else◌, Text, text_eq,
  codes, map,
}
use postgres_mapepire_proxy.Sql.Text.{upper}
use postgres_mapepire_proxy.Sql.Savepoint.{
  Action, savepoint, release, rollback_to, Command, translate_savepoint, savepoint_command_tag,
}
use postgres_mapepire_proxy.Ddl.Registry.{
  get, delete, begin_transaction, commit_transaction, rollback_transaction,
}
use postgres_mapepire_proxy.Session.State.{
  Failure, no_statement, aborted, no_transaction_block, schema_mismatch, State, M, pure, raise,
  gets, modify, ◌>>=◌, ◌>>◌, send, try_catch, command_complete, Portal, prepare_schema, read_schema,
  Answer, job, result, schema, fails, backend, set_search_path, set_local_search_path,
}
use postgres_mapepire_proxy.Session.Backend.{
  World, ask, demand, current_job, run, run_if_leased, set_current_schema,
}
use postgres_mapepire_proxy.Session.Layer.{Selection, Deallocate, every_statement, one_statement}

-- sameSqlIdentifier(a, b)
unfoldable pub same_identifier : Text → Text → Bool
same_identifier a b = text_eq a b || text_eq (map upper a) (map upper b)

-- BEGIN
unfoldable pub begin_block : M (Unit {0})
begin_block = do
  modify (λ s. record s {
    in_transaction = true;
    transaction_failed = false;
    types = begin_transaction s.types;
    tables = begin_transaction s.tables;
  })
  send (command_complete (codes "BEGIN"))

-- The block is over, with the registries rolled back or kept.
abbrev pub block_rolled_back : State → State
block_rolled_back s = record s {
  in_transaction = false;
  transaction_failed = false;
  types = rollback_transaction s.types;
  tables = rollback_transaction s.tables;
}

abbrev pub block_committed : State → State
block_committed s = record s {
  in_transaction = false;
  types = commit_transaction s.types;
  tables = commit_transaction s.tables;
}

-- `if (!this.prepared.has(name)) throw …; this.prepared.delete(name)`, and the portals of it.
abbrev without_portals : Text → List (Text × Portal) → List (Text × Portal)
without_portals name [] = []
without_portals name ((key, portal) ∷ rest) =
    let left = without_portals name rest in
    if text_eq portal.statement_name name then left else (key, portal) ∷ left

unfoldable pub deallocate : Deallocate → M (Unit {0})
deallocate every_statement = modify λ s. record s { prepared = []; portals = [] }
deallocate (one_statement name) = do
  found ← gets (λ s. get name s.prepared)
  elim found [
    | none ↦ raise (no_statement name)
    | some p ↦ modify λ s. record s {
      prepared = delete name s.prepared;
      portals = without_portals name s.portals;
    }
  ]

abbrev pub is_rollback_to : Action → Bool
is_rollback_to savepoint = false
is_rollback_to release = false
is_rollback_to rollback_to = true

module _ (world : World) where
  -- restoreLocalSearchPath()
  unfoldable pub restore_local_search_path : M (Unit {0})
  restore_local_search_path = do
    saved ← gets (λ s. s.local_restore)
    elim saved [
      | none ↦ pure tt
      | some (name, source) ↦ do
        modify (λ s. record s { local_restore = none })
        run_if_leased world (set_current_schema name)
        run_if_leased world (codes "COMMIT")
        modify (λ s. record s { current_schema = name })
        leased ← gets (λ s. s.leased)
        elim leased [ none ↦ pure tt | some j ↦ demand world (read_schema j) ]
        modify (λ s. record s { schema_source = source })
    ]

  -- COMMIT, which rolls back if the transaction has failed.
  unfoldable pub commit_block : M (Unit {0})
  commit_block = do
    failed ← gets (λ s. s.transaction_failed)
    if failed
        then (do
          run_if_leased world (codes "ROLLBACK")
          modify block_rolled_back
          restore_local_search_path
          send (command_complete (codes "ROLLBACK")))
        else do
          run_if_leased world (codes "COMMIT")
          modify block_committed
          restore_local_search_path
          send (command_complete (codes "COMMIT"))

  -- ROLLBACK
  unfoldable pub roll_back_block : M (Unit {0})
  roll_back_block = do
    run_if_leased world (codes "ROLLBACK")
    modify block_rolled_back
    restore_local_search_path
    send (command_complete (codes "ROLLBACK"))

  -- A savepoint command that failed on Db2 aborts the transaction.
  unfoldable pub abort : {A : Type 0} → Failure → M A
  abort e = do modify (λ s. record s { transaction_failed = true }); raise e

  -- A savepoint command inside a block.
  unfoldable pub run_savepoint : Command → M (Unit {0})
  run_savepoint c = do
    try_catch
        (do
          run world (translate_savepoint c)
          if is_rollback_to c.action
              then modify (λ s. record s { transaction_failed = false })
              else pure tt)
        abort
    send (command_complete (savepoint_command_tag c.action))

  -- The branch of executeSql for a savepoint command.
  unfoldable pub execute_savepoint : Command → M (Unit {0})
  execute_savepoint c = do
    inside ← gets (λ s. s.in_transaction)
    failed ← gets (λ s. s.transaction_failed)
    if not inside
        then raise no_transaction_block
        else if failed && not (is_rollback_to c.action)
        then raise aborted
        else run_savepoint c

  -- SET LOCAL remembers the schema to come back to, the first time.
  unfoldable pub remember_local : Selection → M (Unit {0})
  remember_local selection = do
    inside ← gets (λ s. s.in_transaction)
    if not selection.local
        then pure tt
        else if not inside
        then raise no_transaction_block
        else modify λ s. elim s.local_restore [
          | some r ↦ s
          | none ↦ record s { local_restore = some (s.current_schema, s.schema_source) }
        ]

  -- readBackendCurrentSchema() and the test of what it read.
  unfoldable pub verify_schema : Text → Answer → M (Unit {0})
  verify_schema name (schema (some reported)) =
      if same_identifier reported name then pure tt else raise schema_mismatch
  verify_schema name (schema none) = pure tt
  verify_schema name (job j) = pure tt
  verify_schema name (result r) = pure tt
  verify_schema name (fails transport transient state) = raise (backend state)

  -- applySearchPath(selection)
  unfoldable pub apply_search_path : Selection → M (Unit {0})
  apply_search_path selection = do
    remember_local selection
    j ← current_job world
    create ← gets (λ s. not s.in_transaction)
    demand world (prepare_schema j selection.schema create)
    run world (set_current_schema selection.schema)
    modify (λ s. record s { current_schema = selection.schema })
    a ← ask world (read_schema j)
    verify_schema selection.schema a
    modify λ s. record s {
      schema_source = if selection.local then set_local_search_path else set_search_path;
    }
    inside ← gets (λ s. s.in_transaction)
    if inside then pure tt else run world (codes "COMMIT")
