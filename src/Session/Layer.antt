-- ===== src/Session/Layer.antt =====
-- What the session asks of the SQL modules, as an interface: each field names the function of
-- src/sql or of the session that it stands for.
use postgres_mapepire_proxy.Prelude.{ℕ, List, Bool, Option, Text}
use postgres_mapepire_proxy.Wire.Encode.{FieldDescription}
use postgres_mapepire_proxy.Wire.Decode.{ParameterValue}
use postgres_mapepire_proxy.Sql.Savepoint.{Command}
use postgres_mapepire_proxy.Session.Lowering.Learn.{Plan}
use postgres_mapepire_proxy.Session.State.{Kind, M, Synthetic}

-- SearchPathSelection: the schema, whether the scope is local, and whether it is a reset.
pub record Selection : Type 0 where
  pub schema : Text
  pub local : Bool
  pub reset : Bool

-- PgDeallocateCommand
pub data Deallocate : Type 0 where
  every_statement : Deallocate
  one_statement : Text → Deallocate

-- What becomes of a statement that reaches the translation: an index that is only acknowledged,
-- or a translated statement with the order of its parameters and its plan.
pub data Lowered : Type 0 where
  skipped_index : Lowered
  translated : Text → List ℕ → Plan → Lowered

pub record Layer : Type 0 where
  -- classify
  pub classify : Text → Kind
  -- parsePgSavepointCommand
  pub savepoint : Text → Option Command
  -- parsePgDeallocate
  pub deallocate : Text → Option Deallocate
  -- parsePgAdvisoryLockQuery, with what executePgAdvisoryLockQuery then answers
  pub advisory : Text → M (Option Synthetic)
  -- parseSearchPathCommand
  pub search_path : Text → Option Selection
  -- parseSetConfigSearchPath
  pub set_config : Text → Option (Selection × FieldDescription)
  -- planPgCreateSchema and executeCreateSchema
  pub create_schema : Text → Option (M (Unit {0}))
  -- isPgSchemaComment or isPgSchemaPrivilegeDdl
  pub schema_metadata : Text → Bool
  -- parsePgTableOwnerDdl
  pub table_owner : Text → Bool
  -- resolveSynthetic
  pub resolve_synthetic : Text → List ParameterValue → M (Option Synthetic)
  -- containsUnhandledPostgresSystemSql
  pub unhandled_system_sql : Text → Bool
  -- the index decision and the translation, with the plans for renames and added columns
  pub lower : Text → M Lowered
  -- translateSql, for a portal that is described
  pub translate : Text → M (Text × List ℕ)
  -- pgAdvisoryLockFields, or the field of set_config
  pub fixed_fields : Text → Option (List FieldDescription)
  -- returningFields
  pub returning_fields : Text → M (Option (List FieldDescription))
  -- splitSimpleStatements
  pub split : Text → List Text
  -- the tests of queryNeedsBackend that read the statement alone: an advisory lock, DEALLOCATE,
  -- an owner change, a schema's metadata or an environment query
  pub query_is_local : Text → Bool
  -- the same of frontendMessageNeedsBackend for Describe (an advisory lock, set_config, an
  -- environment query or RETURNING) and for Execute (an advisory lock or an environment query)
  pub describe_is_local : Text → Bool
  pub execute_is_local : Text → Bool
