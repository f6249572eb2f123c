-- ===== src/Session/Lowering/Client.antt =====
-- The lowering as the session calls it: the fields that it reads of the session, and the SQLSTATE of
-- its errors. It fills `lower` of Session.Layer.
use postgres_mapepire_proxy.Prelude.{Text, codes}
use postgres_mapepire_proxy.Prelude.Results.{Result, ok, err}
use postgres_mapepire_proxy.Sql.Translate.{Options}
use postgres_mapepire_proxy.Sql.Translate.Errors.{
  TranslateError, multiple_statements, alter_type_using, alter_type_collate, returning_nothing,
  returning_no_table, returning_star, returning_expression, serial_columns,
}
use postgres_mapepire_proxy.Sql.LobIndex.{Policy}
use postgres_mapepire_proxy.Session.State.{Kind, Failure, unsupported, backend, M, lift}
use postgres_mapepire_proxy.Session.Layer.{Lowered, skipped_index, translated}
use postgres_mapepire_proxy.Session.Lowering.Replacement.{
  LoweringError, index_refused, no_column, no_system_name, no_definition, table_not_empty,
  generate_sql_unusable, column_not_injected, generate_sql_failed, translation, database, Live,
}
use postgres_mapepire_proxy.Session.Lowering.{Lowering, acknowledged, run_as, lower_sql}

-- The SQLSTATE of an error of the translation.
unfoldable pub translation_failed : TranslateError → Failure
translation_failed returning_nothing = backend (codes "42601")
translation_failed multiple_statements = unsupported
translation_failed alter_type_using = unsupported
translation_failed alter_type_collate = unsupported
translation_failed returning_no_table = unsupported
translation_failed returning_star = unsupported
translation_failed (returning_expression e) = unsupported
translation_failed (serial_columns e) = unsupported

-- What the session throws; `raw` and `mapped` are the SQLSTATE that an error of Mapepire carries
-- itself and the one that mapDb2Error finds.
unfoldable pub lowering_failed : (raw mapped : Text → Text) → LoweringError → Failure
lowering_failed raw mapped (index_refused unique name columns) = unsupported
lowering_failed raw mapped (no_column rename) = backend (codes "42703")
lowering_failed raw mapped (no_system_name rename) = unsupported
lowering_failed raw mapped (no_definition rename) = unsupported
lowering_failed raw mapped (table_not_empty plan) = backend (codes "23502")
lowering_failed raw mapped (generate_sql_unusable plan) = unsupported
lowering_failed raw mapped (column_not_injected plan) = unsupported
lowering_failed raw mapped (generate_sql_failed e) = backend (mapped e)
lowering_failed raw mapped (translation e) = translation_failed e
lowering_failed raw mapped (database e) = backend (raw e)

-- A lowering as the session takes it.
unfoldable pub lowered_of : Lowering → Lowered
lowered_of (acknowledged index) = skipped_index
lowered_of (run_as t plan) = translated t.sql t.parameter_order plan

abbrev pub outcome_of :
    (raw mapped : Text → Text) → Result LoweringError Lowering → Result Failure Lowered
outcome_of raw mapped (ok lowering) = ok (lowered_of lowering)
outcome_of raw mapped (err e) = err (lowering_failed raw mapped e)

-- The field `lower`: the current schema and the registries are those of the session.
unfoldable pub lower_in :
    (raw mapped : Text → Text) → Live → (Text → Kind) → Options → Policy → Text → M Lowered
lower_in raw mapped live classify options policy sql s =
    lift
      (outcome_of raw mapped (
        lower_sql live
          (record {
            classify = classify;
            options = options;
            policy = policy;
            current_schema = s.current_schema;
            types = s.types;
            tables = s.tables;
          })
          sql))
      s
