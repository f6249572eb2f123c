-- ===== src/Session/Tests.antt =====
-- A session against a small backend, and the theorems at concrete messages.
use postgres_mapepire_proxy.Prelude.{
  ℕ, suc, replicate, ◌≡◌, refl, inr, List, [], ◌∷◌, ◌++◌, true, false, if◌then◌else◌, none, some,
  arith, Text, codes, ◌==◌,
}
use postgres_mapepire_proxy.Prelude.Results.{ok}
use postgres_mapepire_proxy.Wire.Frames.{FrontendMessage, next_frame, consume_frontend_messages}
use postgres_mapepire_proxy.Wire.Frames.RoundTrip.{raw_all, consume-raw_all}
use postgres_mapepire_proxy.Session.State.{
  State, Kind, select, insert, commit, backend, Call, acquire, query, execute, Answer, job, result,
  fails, QueryResult, try_catch, ◌>>=◌, proxy_default, error,
}
use postgres_mapepire_proxy.Session.Backend.{World, current_job, ask, run, demand}
use postgres_mapepire_proxy.Session.Layer.{Layer, translated}
use postgres_mapepire_proxy.Session.Lowering.Learn.{as_translated, learn_types, learn_tables}
use postgres_mapepire_proxy.Session.Execute.{execute_sql}
use postgres_mapepire_proxy.Session.Execute.Run.{
  is_idempotent_read, is_transport, answered, autocommit, retry_with, is_transient, stabilize_with,
  stabilized, safe_retry, learn, run_translated,
}
use postgres_mapepire_proxy.Session.Protocol.{Batch, other_batch, deliver, deliver_all, handle_raw}
use postgres_mapepire_proxy.Session.Delivery.{handle_raw-append, deliver_all_skipped}
use postgres_mapepire_proxy.Session.Lease.{IsReturned, handle_raw-IsReturned}
use postgres_mapepire_proxy.Session.Aborted.{Undoes, execute_sql-Undoes}
use postgres_mapepire_proxy.Session.Retry.{
  IsStabilized, IsCommitted, safe_retry-calls, run_translated-IsCommitted,
}
use postgres_mapepire_proxy.Session.Ready.{IsReady, deliver-IsReady}
use postgres_mapepire_proxy.Session.Sync.{sync, deliver-sync_unanswered}

-- A backend that grants job 1 and answers everything else with no rows.
abbrev nothing : QueryResult
nothing = record { has_results = false; fields = []; rows = []; update_count = 1 }

abbrev grants : List Call → Call → Answer
grants before acquire = job 1
grants before c = result nothing

abbrev world : World
world = record {
  answer = grants;
  session_mode = false;
  default_schema = codes "APP";
  reconnect_retries = 1;
}

-- The session lease mode, with a pool that has no job.
abbrev refusing : World
refusing = record {
  answer = λ before c. fails true false (codes "08006");
  session_mode = true;
  default_schema = codes "APP";
  reconnect_retries = 1;
}

-- Statements that are passed to Db2 as they are.
abbrev kind_of : Text → Kind
kind_of [] = insert
kind_of (c ∷ rest) = if c == b'C' then commit else if c == b'V' then select else insert

abbrev layer : Layer
layer = record {
  classify = kind_of;
  savepoint = λ sql. none;
  deallocate = λ sql. none;
  advisory = λ sql s. (ok none, s);
  search_path = λ sql. none;
  set_config = λ sql. none;
  create_schema = λ sql. none;
  schema_metadata = λ sql. false;
  table_owner = λ sql. false;
  resolve_synthetic = λ sql vs s. (ok none, s);
  unhandled_system_sql = λ sql. false;
  lower = λ sql s. (ok (translated sql [] as_translated), s);
  translate = λ sql s. (ok (sql, []), s);
  fixed_fields = λ sql. none;
  returning_fields = λ sql s. (ok none, s);
  split = λ sql. sql ∷ [];
  query_is_local = λ sql. false;
  describe_is_local = λ sql. false;
  execute_is_local = λ sql. false;
}

abbrev form : List Text → Batch
form batch = other_batch

abbrev fresh : State
fresh = record {
  leased = none;
  prepared = [];
  portals = [];
  in_transaction = false;
  transaction_failed = false;
  closed = false;
  extended_error = false;
  current_schema = codes "APP";
  schema_source = proxy_default;
  local_restore = none;
  types = record { entries = []; snapshot = none };
  tables = record { entries = []; snapshot = none };
  sent = [];
  calls = [];
}

abbrev holding : State
holding = record fresh { leased = some 1 }

abbrev failed_state : State
failed_state = record holding { in_transaction = true; transaction_failed = true }

abbrev insert_query : FrontendMessage
insert_query = record { kind = b'Q'; body = codes "I" ++ 0 ∷ [] }

abbrev parse_message : FrontendMessage
parse_message = record { kind = b'P'; body = [] }

handle_raw-IsReturned_example :
    IsReturned (handle_raw world layer form 1024 (raw_all (insert_query ∷ [])) ([], fresh)).1
handle_raw-IsReturned_example =
    handle_raw-IsReturned world layer form refl 1024 (raw_all (insert_query ∷ [])) [] fresh
      (inr refl)

deliver-IsReady_example : IsReady (deliver world layer form insert_query fresh).1
deliver-IsReady_example = deliver-IsReady world layer form insert_query fresh refl refl refl

safe_retry-calls_example :
    (k : ℕ) × IsStabilized world [] (query 1 (codes "I") [] 0) 19 k
    × ((safe_retry world 1 insert (codes "I") [] 0 holding).1
        ≡ record holding { calls = replicate (suc k) (query 1 (codes "I") [] 0) })
unfolding is_idempotent_read
safe_retry-calls_example =
    safe_retry-calls world 1 insert (codes "I") [] 0 holding 1 refl (inr refl)

-- The state behind the insert.
abbrev written : State
written = record holding {
  calls = query 1 (codes "I") [] 0 ∷ execute 1 (codes "COMMIT") ∷ [];
  types = learn_types as_translated (codes "I") holding.current_schema holding.types;
  tables = learn_tables as_translated (codes "I") holding.current_schema holding.tables;
}

inserted :
    run_translated world insert as_translated (codes "I") [] 0 holding ≡ (ok nothing, written)
unfolding run_translated try_catch ◌>>=◌ safe_retry current_job ask stabilized stabilize_with
    is_transient retry_with is_transport answered autocommit learn run demand
inserted = refl

run_translated-IsCommitted_example : IsCommitted world written
run_translated-IsCommitted_example =
    run_translated-IsCommitted world insert as_translated (codes "I") [] 0 holding inserted refl

execute_sql-Undoes_example :
    Undoes world 1 failed_state (execute_sql world layer (codes "COMMIT") [] 0 true failed_state).1
execute_sql-Undoes_example =
    execute_sql-Undoes world layer (codes "COMMIT") [] 0 true failed_state 1 refl refl refl refl

deliver_all_skipped_example :
    deliver_all world layer form
      (insert_query ∷ parse_message ∷ [])
      (record fresh { extended_error = true })
    ≡ record fresh { extended_error = true }
deliver_all_skipped_example =
    deliver_all_skipped world layer form (insert_query ∷ parse_message ∷ [])
      (record fresh { extended_error = true }) refl ((refl, refl), ((refl, refl), tt))

deliver-sync_unanswered_example :
    let t = (deliver refusing layer form (sync []) fresh).1 in
    (t.sent ≡ error (backend (codes "08006")) ∷ []) × (t.extended_error ≡ true)
deliver-sync_unanswered_example =
    deliver-sync_unanswered refusing layer form [] fresh true false (codes "08006") refl refl refl
      refl

-- The first chunk ends inside the second frame.
start_of_sync :
    consume_frontend_messages 1024 (raw_all (insert_query ∷ []) ++ b'S' ∷ 0 ∷ [])
    ≡ ok (insert_query ∷ [], b'S' ∷ 0 ∷ [])
unfolding next_frame
start_of_sync =
    consume-raw_all 1024 (insert_query ∷ []) (b'S' ∷ 0 ∷ []) (omega arith) (omega arith)
      (omega arith, tt) refl

rest_of_sync : consume_frontend_messages 1024 (raw_all (sync [] ∷ []) ++ []) ≡ ok (sync [] ∷ [], [])
unfolding next_frame
rest_of_sync =
    consume-raw_all 1024 (sync [] ∷ []) [] (omega arith) (omega arith) (omega arith, tt) refl

handle_raw-append_example :
    handle_raw world layer form 1024
      ((raw_all (insert_query ∷ []) ++ b'S' ∷ 0 ∷ []) ++ 0 ∷ 0 ∷ 4 ∷ [])
      ([], fresh)
    ≡ handle_raw world layer form 1024 (0 ∷ 0 ∷ 4 ∷ []) (
        handle_raw world layer form 1024 (raw_all (insert_query ∷ []) ++ b'S' ∷ 0 ∷ []) ([], fresh))
handle_raw-append_example =
    handle_raw-append world layer form 1024 (raw_all (insert_query ∷ []) ++ b'S' ∷ 0 ∷ [])
      (0 ∷ 0 ∷ 4 ∷ []) [] fresh (omega arith) start_of_sync rest_of_sync
