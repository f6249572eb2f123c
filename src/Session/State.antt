-- ===== src/Session/State.antt =====
-- The fields of ProxySession, what it sends, what it asks of the pool and of Mapepire, and the
-- monad of its methods: what was changed or sent before a throw stays.
use postgres_mapepire_proxy.Prelude.{
  ℕ, List, [], ◌∷◌, ◌++◌, Bool, Option, if◌then◌else◌, Text, codes,
}
use postgres_mapepire_proxy.Prelude.Results.{Result, ok, err}
use postgres_mapepire_proxy.Wire.Words.{WireError}
use postgres_mapepire_proxy.Wire.Decode.{ParameterValue}
use postgres_mapepire_proxy.Wire.Encode.{Cell, FieldDescription}
use postgres_mapepire_proxy.Ddl.Registry.{Registry}
use postgres_mapepire_proxy.Ddl.Tables.{StoredTable}

-- StatementKind (sql/classifier.ts)
pub data Kind : Type 0 where
  select insert update delete merge ddl call values begin commit rollback set show other : Kind

-- What a method throws, by its cause.
pub data Failure : Type 0 where
  no_statement : Text → Failure
  no_portal : Text → Failure
  aborted no_transaction_block unsupported binary_result format_mismatch : Failure
  no_job bad_shape schema_mismatch : Failure
  codec : WireError → Failure
  backend : Text → Failure

-- The SQLSTATE of the error response.
unfoldable pub sqlstate : Failure → Text
sqlstate (no_statement name) = codes "26000"
sqlstate (no_portal name) = codes "34000"
sqlstate aborted = codes "25P02"
sqlstate no_transaction_block = codes "25P01"
sqlstate unsupported = codes "0A000"
sqlstate binary_result = codes "0A000"
sqlstate format_mismatch = codes "08P01"
sqlstate no_job = codes "XX000"
sqlstate bad_shape = codes "XX000"
sqlstate schema_mismatch = codes "XX000"
sqlstate (codec e) = codes "XX000"
sqlstate (backend state) = state

-- txStatus()
pub data Status : Type 0 where
  idle in_block failed_block : Status

-- The frames that a session sends (Wire.Encode has their bytes).
pub data Reply : Type 0 where
  parse_complete bind_complete close_complete no_data empty_query : Reply
  parameter_description : List ℕ → Reply
  row_description : List FieldDescription → Reply
  data_row : List Cell → Reply
  command_complete : Text → Reply
  ready : Status → Reply
  error : Failure → Reply

-- A result of Mapepire: `has_results`, the described columns, the rows and the update count.
pub record QueryResult : Type 0 where
  pub has_results : Bool
  pub fields : List FieldDescription
  pub rows : List (List Cell)
  pub update_count : ℕ

-- What the session asks of the pool and of its job, with the job's number.
pub data Call : Type 0 where
  acquire : Call
  prepare_schema : ℕ → Text → Bool → Call
  execute : ℕ → Text → Call
  query : ℕ → Text → List ParameterValue → ℕ → Call
  read_schema : ℕ → Call
  release : ℕ → Call
  invalidate : ℕ → Call

-- What comes back: a job, a result, the CURRENT SCHEMA, or an error: whether isTransportError holds
-- of it, whether isTransientIbmiObjectStateError does, and its SQLSTATE.
pub data Answer : Type 0 where
  job : ℕ → Answer
  result : QueryResult → Answer
  schema : Option Text → Answer
  fails : Bool → Bool → Text → Answer

-- SyntheticResult (sql/environment.ts)
pub record Synthetic : Type 0 where
  pub fields : List FieldDescription
  pub rows : List (List Cell)
  pub tag : Text

pub record PreparedStatement : Type 0 where
  pub sql : Text
  pub parameter_oids : List ℕ

pub record Portal : Type 0 where
  pub statement_name : Text
  pub parameters : List ParameterValue
  pub result_formats : List ℕ
  pub description_sent : Bool
  pub synthetic : Option Synthetic
  pub buffered : Option (Kind × QueryResult)

-- SchemaSource
pub data SchemaSource : Type 0 where
  proxy_default startup_options set_search_path set_local_search_path : SchemaSource

pub record State : Type 0 where
  pub leased : Option ℕ
  pub prepared : List (Text × PreparedStatement)
  pub portals : List (Text × Portal)
  pub in_transaction : Bool
  pub transaction_failed : Bool
  pub closed : Bool
  pub extended_error : Bool
  pub current_schema : Text
  pub schema_source : SchemaSource
  pub local_restore : Option (Text × SchemaSource)
  pub types : Registry Text
  pub tables : Registry StoredTable
  pub sent : List Reply
  pub calls : List Call

abbrev pub M : Type 0 → Type 0
M A = State → Result Failure A × State

abbrev pub pure : {A : Type 0} → A → M A
pure a s = (ok a, s)

abbrev pub raise : {A : Type 0} → Failure → M A
raise e s = (err e, s)

abbrev pub lift : {A : Type 0} → Result Failure A → M A
lift r s = (r, s)

abbrev pub gets : {A : Type 0} → (State → A) → M A
gets f s = (ok (f s), s)

abbrev pub modify : (State → State) → M (Unit {0})
modify f s = (ok tt, f s)

abbrev pub continue : {A B : Type 0} → Result Failure A → (A → M B) → M B
continue (ok a) f s = f a s
continue (err e) f s = (err e, s)

infixl 5 ◌>>=◌ ◌>>◌
unfoldable pub ◌>>=◌ : {A B : Type 0} → M A → (A → M B) → M B
◌>>=◌ m f s = let (r, s') = m s in continue r f s'

abbrev pub ◌>>◌ : {B : Type 0} → M (Unit {0}) → M B → M B
m >> n = m >>= λ _. n

-- try { … } catch (e) { … }
abbrev pub handle : {A : Type 0} → (Failure → M A) → Result Failure A → M A
handle h (ok a) s = (ok a, s)
handle h (err e) s = h e s

unfoldable pub try_catch : {A : Type 0} → M A → (Failure → M A) → M A
try_catch m h s = let (r, s') = m s in handle h r s'

-- try { … } finally { … }; a throw of the second part replaces the outcome of the first.
abbrev pub replace : {A : Type 0} → Result Failure A → Result Failure (Unit {0}) → Result Failure A
replace r (ok u) = r
replace r (err e) = err e

unfoldable pub try_finally : {A : Type 0} → M A → M (Unit {0}) → M A
try_finally m last s = let (r, s') = m s in let (u, s'') = last s' in (replace r u, s'')

-- this.send(…)
abbrev pub send : Reply → M (Unit {0})
send r = modify λ s. record s { sent = s.sent ++ r ∷ [] }

-- txStatus()
unfoldable pub tx_status : State → Status
tx_status s =
    if s.transaction_failed then failed_block else if s.in_transaction then in_block else idle
