-- ===== src/Pool/Capabilities/Tests.antt =====
-- The probes of a schema whose second probe fails.
use postgres_mapepire_proxy.Prelude.{
  refl, List, [], ◌∷◌, true, false, none, some, if◌then◌else◌, Text, codes, text_eq,
}
use postgres_mapepire_proxy.Prelude.Results.{Result, ok, err}
use postgres_mapepire_proxy.Sql.Text.{trim, trim_start, trim_end, is_space, upper, double}
use postgres_mapepire_proxy.Pool.Capabilities.{
  Row, text, number, SchemaCapabilities, quote_literal, schema_query, journal_query,
  inheritance_query, schema_found, system_schema_of, text_or, ci, probed, journal_probe,
  inheritance_probe, inherited_journal_of, first_scalar, as_count, writes_configured,
  inspect_ibmi_schema,
}
use postgres_mapepire_proxy.Pool.Capabilities.Laws.{IsHonest, inspect_ibmi_schema-IsHonest}

-- The schema is there and has no journal of its own; the inherited ones may not be read.
abbrev job : Text → Result Text (List Row)
job sql =
    if text_eq sql (schema_query (codes "'APP'"))
    then ok (((codes "SYSTEM_SCHEMA_NAME", text (codes "APP")) ∷ []) ∷ [])
    else if text_eq sql (journal_query (codes "'APP'"))
    then ok (((codes "JOURNAL_COUNT", number 0) ∷ []) ∷ [])
    else err (codes "SQL0551")

abbrev unknown : SchemaCapabilities
unknown = record {
  schema = codes "APP";
  system_schema = some (codes "APP");
  exists = true;
  has_qsqjrn = some false;
  has_inheritance = none;
  inherited_journal = none;
  writes_configured = none;
  probe_error = some (codes "library journaling probe: SQL0551");
}

inspect_ibmi_schema-IsHonest_example : IsHonest unknown
unfolding inspect_ibmi_schema schema_found system_schema_of text_or ci probed journal_probe
    inheritance_probe inherited_journal_of first_scalar as_count writes_configured quote_literal
    schema_query journal_query inheritance_query text_eq trim trim_start trim_end is_space upper
    double
inspect_ibmi_schema-IsHonest_example = inspect_ibmi_schema-IsHonest job (codes "APP ") unknown refl
