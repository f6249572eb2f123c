-- ===== src/Session/Execute/Run.antt =====
-- The run of a statement on Db2 and its replies: executeWithSafeRetry, sendSynthetic,
-- executePagedWithObjectStabilizationRetry, sendMapepireRows, commandTag and the last part of
-- executeSql. One call of executePaged, with its paging, is one `query` here.
use postgres_mapepire_proxy.Sql.Text.{decimal}
use postgres_mapepire_proxy.Prelude.{
  ℕ, zero, suc, ◌-◌, List, [], ◌∷◌, ◌++◌, Bool, true, false, not, ◌&&◌, none, some, if◌then◌else◌,
  Text, codes, length, take, get_elem?, ltb, ◌==◌, every,
}
use postgres_mapepire_proxy.Wire.Decode.{ParameterValue, null}
use postgres_mapepire_proxy.Wire.Encode.{Cell}
use postgres_mapepire_proxy.Session.State.{
  Kind, select, insert, update, delete, merge, ddl, call, values, begin, commit, rollback, set,
  show, other, Failure, no_job, bad_shape, backend, M, pure, raise, gets, modify, ◌>>=◌, ◌>>◌, send,
  try_catch, command_complete, row_description, data_row, QueryResult, Synthetic, Call, query,
  invalidate, Answer, job, result, schema, fails,
}
use postgres_mapepire_proxy.Session.Backend.{World, ask, current_job, run, ensure_backend_job}
use postgres_mapepire_proxy.Session.Lowering.Learn.{Plan, learn_types, learn_tables}
use postgres_mapepire_proxy.Session.Layer.{Layer, skipped_index, translated}

-- One data row for each row.
unfoldable pub send_rows : List (List Cell) → M (Unit {0})
send_rows [] = pure tt
send_rows (r ∷ rs) = do send (data_row r); send_rows rs

-- validateSynthetic(result)
abbrev pub well_shaped : Synthetic → Bool
well_shaped r = every (λ row. length row == length r.fields) r.rows

-- sendSynthetic(result, includeDescription)
unfoldable pub send_synthetic : Synthetic → Bool → M (Unit {0})
send_synthetic r describe = if not (well_shaped r) then raise bad_shape else do
  if length r.fields == 0
      then pure tt
      else do if describe then send (row_description r.fields) else pure tt; send_rows r.rows
  send (command_complete r.tag)

-- sendMapepireRows(result, maxRows, includeDescription)
unfoldable pub send_mapepire_rows : QueryResult → ℕ → Bool → M (Unit {0})
send_mapepire_rows r max_rows describe = do
  if describe then send (row_description r.fields) else pure tt
  send_rows (if ltb 0 max_rows then take max_rows r.rows else r.rows)

abbrev max_of : ℕ → ℕ → ℕ
max_of a b = if ltb a b then b else a

-- commandTag(kind, result)
unfoldable pub command_tag : Kind → QueryResult → Text
command_tag kind r =
    let n = decimal (max_of r.update_count (if r.has_results then length r.rows else 0)) in
    elim kind [
      | select ↦ codes "SELECT " ++ decimal (length r.rows)
      | values ↦ codes "SELECT " ++ decimal (length r.rows)
      | insert ↦ codes "INSERT 0 " ++ n
      | update ↦ codes "UPDATE " ++ n
      | delete ↦ codes "DELETE " ++ n
      | merge ↦ codes "MERGE " ++ n
      | set ↦ codes "SET"
      | ddl ↦ codes "DDL"
      | call ↦ codes "CALL"
      | begin ↦ codes "BEGIN"
      | commit ↦ codes "COMMIT"
      | rollback ↦ codes "ROLLBACK"
      | show ↦ codes "SHOW"
      | other ↦ codes "OTHER"
    ]

-- isIdempotentRead(kind)
unfoldable pub is_idempotent_read : Kind → Bool
is_idempotent_read select = true
is_idempotent_read values = true
is_idempotent_read show = true
is_idempotent_read _ = false

-- `values[oneBased - 1] ?? null`
pick : List ParameterValue → ℕ → ParameterValue
pick vs i = elim (get_elem? vs (i - 1)) [ none ↦ null | some v ↦ v ]

pick_all : List ParameterValue → List ℕ → List ParameterValue
pick_all vs [] = []
pick_all vs (i ∷ is) = pick vs i ∷ pick_all vs is

-- reorderParameters(values, order); the order counts from 1.
unfoldable pub reorder_parameters : List ParameterValue → List ℕ → List ParameterValue
unfolding pick_all pick
reorder_parameters vs [] = vs
reorder_parameters vs (i ∷ is) = pick_all vs (i ∷ is)

-- Whether an answer is a transport error (isTransportError).
unfoldable pub is_transport : Answer → Bool
is_transport (fails transport transient state) = transport
is_transport (job j) = false
is_transport (result r) = false
is_transport (schema t) = false

-- Whether it says that a table is being rebuilt (isTransientIbmiObjectStateError).
unfoldable pub is_transient : Answer → Bool
is_transient (fails transport transient state) = transient
is_transient (job j) = false
is_transient (result r) = false
is_transient (schema t) = false

-- The result of a query, or its error.
unfoldable pub answered : Answer → M QueryResult
answered (result r) = pure r
answered (fails transport transient state) = raise (backend state)
answered (job j) = raise no_job
answered (schema t) = raise no_job

module _ (world : World) where
  -- The wait for an object that stabilizes.
  unfoldable pub stabilize_with : M Answer → Answer → M Answer
  stabilize_with again a = if is_transient a then again else pure a

  -- executePagedWithObjectStabilizationRetry, with the attempts that are left behind this one.
  unfoldable pub stabilized : ℕ → Call → M Answer
  stabilized zero c = ask world c
  stabilized (suc n) c = do a ← ask world c; stabilize_with (stabilized n c) a

  -- A transport error on an idempotent read outside a block: another job, and once more.
  unfoldable pub retry_with : M QueryResult → Kind → ℕ → Answer → M QueryResult
  retry_with again kind j a = do
    inside ← gets (λ s. s.in_transaction)
    if is_transport a && (not inside && is_idempotent_read kind)
        then (do
          modify (λ s. record s { leased = none })
          b ← ask world (invalidate j)
          k ← ensure_backend_job world
          again)
        else answered a

  -- executeWithSafeRetry, with the retries that are left.
  unfoldable pub safe_retry : ℕ → Kind → Text → List ParameterValue → ℕ → M QueryResult
  safe_retry zero kind sql vs max_rows = do
    j ← current_job world
    a ← stabilized 19 (query j sql vs max_rows)
    answered a
  safe_retry (suc n) kind sql vs max_rows = do
    j ← current_job world
    a ← stabilized 19 (query j sql vs max_rows)
    retry_with (safe_retry n kind sql vs max_rows) kind j a

  -- The catch of a run: the block is aborted, or the implicit transaction rolled back.
  unfoldable pub statement_failed : {A : Type 0} → Failure → M A
  statement_failed e = do
    inside ← gets (λ s. s.in_transaction)
    if inside
        then modify (λ s. record s { transaction_failed = true })
        else try_catch (run world (codes "ROLLBACK")) (λ x. pure tt)
    raise e

  -- The commit of an implicit transaction.
  unfoldable pub autocommit : M (Unit {0})
  autocommit = do
    inside ← gets (λ s. s.in_transaction)
    if inside then pure tt else run world (codes "COMMIT")

  -- The registries behind a statement that has succeeded.
  unfoldable pub learn : Plan → Text → M (Unit {0})
  learn plan db2 = modify λ s. record s {
    types = learn_types plan db2 s.current_schema s.types;
    tables = learn_tables plan db2 s.current_schema s.tables;
  }

  -- The try of executeSql: the query, the registries, and the commit.
  unfoldable pub run_translated : Kind → Plan → Text → List ParameterValue → ℕ → M QueryResult
  run_translated kind plan db2 vs max_rows =
      try_catch
        (do
          r ← safe_retry world.reconnect_retries kind db2 vs max_rows
          learn plan db2
          autocommit
          pure r)
        statement_failed

  module _ (layer : Layer) where
    -- executeSql from the index decision to its end.
    unfoldable pub run_statement : Kind → Text → List ParameterValue → ℕ → Bool → M (Unit {0})
    run_statement kind sql parameters max_rows describe = do
      lowered ← layer.lower sql
      elim lowered [
        | skipped_index ↦ send (command_complete (codes "CREATE INDEX"))
        | translated db2 order plan ↦ do
          r ← run_translated kind plan db2 (reorder_parameters parameters order) max_rows
          if r.has_results then send_mapepire_rows r max_rows describe else pure tt
          send (command_complete (command_tag kind r))
      ]
