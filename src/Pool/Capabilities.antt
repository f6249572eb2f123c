-- ===== src/Pool/Capabilities.antt =====
-- mapepire/schema-capabilities.ts: inspectIbmiSchema. The job is a parameter: what the execution of a
-- statement gives, its rows or the text of its error. A count is a number or a text of digits.
pub mod Laws
mod Tests
use postgres_mapepire_proxy.Prelude.{
  ℕ, List, [], ◌∷◌, ◌++◌, Bool, true, false, ◌||◌, ◌&&◌, if◌then◌else◌, Option, none, some, Text,
  codes, map, ltb, every, text_eq,
}
use postgres_mapepire_proxy.Prelude.Results.{Result, ok, err, ◌>>=◌}
use postgres_mapepire_proxy.Sql.Text.{trim, double, upper, decimal, is_digit}
use postgres_mapepire_proxy.Sql.Scan.Rewrites.{number_of}

-- A value of a row: a number, a text, or null.
pub data Scalar : Type 0 where
  number : ℕ → Scalar
  text : Text → Scalar
  null : Scalar

abbrev pub Row : Type 0
Row = List (Text × Scalar)

-- IbmiSchemaCapabilities without the time of the probe. `sqlSchemaJournalReady` is has_qsqjrn.
pub record SchemaCapabilities : Type 0 where
  pub schema : Text
  pub system_schema : Option Text
  pub exists : Bool
  pub has_qsqjrn : Option Bool
  pub has_inheritance : Option Bool
  pub inherited_journal : Option Text
  pub writes_configured : Option Bool
  pub probe_error : Option Text

-- quoteLiteral(value)
unfoldable pub quote_literal : Text → Text
quote_literal value = codes "'" ++ double 39 value ++ codes "'"

-- firstScalar(result), where null stands for undefined too
unfoldable pub first_scalar : List Row → Scalar
first_scalar [] = null
first_scalar ([] ∷ rows) = null
first_scalar (((name, value) ∷ row) ∷ rows) = value

-- asCount(value)
unfoldable pub as_count : Scalar → ℕ
as_count (number n) = n
as_count (text t) = if every is_digit (trim t) then number_of 0 (trim t) else 0
as_count null = 0

-- ci(row, key)
unfoldable pub ci : Row → Text → Scalar
ci [] key = null
ci ((name, value) ∷ row) key =
    if text_eq (map upper name) (map upper key) then value else ci row key

-- `String(value ?? default).trim()`
unfoldable pub text_or : Scalar → Text → Text
text_or (number n) default = trim (decimal n)
text_or (text t) default = trim t
text_or null default = trim default

unfoldable pub schema_query : Text → Text
schema_query literal =
    codes "SELECT SCHEMA_NAME, SYSTEM_SCHEMA_NAME\n  FROM QSYS2.SYSSCHEMAS\n WHERE SCHEMA_NAME = "
    ++ literal
    ++ codes "\n FETCH FIRST 1 ROW ONLY"

unfoldable pub journal_query : Text → Text
journal_query literal =
    codes "SELECT COUNT(*) AS JOURNAL_COUNT\n  FROM TABLE(QSYS2.OBJECT_STATISTICS("
    ++ literal
    ++ codes ", '*JRN', '*ALLSIMPLE')) X\n WHERE UPPER(OBJNAME) = 'QSQJRN'"

unfoldable pub inheritance_query : Text → Text
inheritance_query literal =
    codes
      "SELECT JOURNAL_LIBRARY, JOURNAL_NAME, INHERIT\n  FROM QSYS2.JOURNALED_OBJECTS\n WHERE OBJECT_TYPE = '*LIB'\n   AND UPPER(OBJECT_NAME) = UPPER("
    ++ literal
    ++ codes ")\n   AND INHERIT = '*YES'\n FETCH FIRST 1 ROW ONLY"

-- `systemSchema`: the name of the row, or the schema's own.
unfoldable pub system_schema_of : Row → Text → Text
system_schema_of row normalized = elim (text_or (ci row (codes "SYSTEM_SCHEMA_NAME")) normalized) [
  | [] ↦ normalized
  | c ∷ name ↦ c ∷ name
]

-- `hasQsqjrn`, null where the probe throws
unfoldable pub journal_probe : Result Text (List Row) → Option Bool
journal_probe (ok rows) = some (ltb 0 (as_count (first_scalar rows)))
journal_probe (err e) = none

-- `inheritance`, null where the probe throws
unfoldable pub inheritance_probe : Result Text (List Row) → Option Bool
inheritance_probe (ok []) = some false
inheritance_probe (ok (row ∷ rows)) = some true
inheritance_probe (err e) = none

-- `inheritedJournal`, of a row that names a library and a journal
unfoldable pub journal_of : Text → Text → Option Text
journal_of [] name = none
journal_of (c ∷ library) [] = none
journal_of (c ∷ library) (d ∷ name) = some ((c ∷ library) ++ codes "/" ++ d ∷ name)

unfoldable pub inherited_journal_of : Result Text (List Row) → Option Text
inherited_journal_of (ok (row ∷ rows)) =
    journal_of (text_or (ci row (codes "JOURNAL_LIBRARY")) [])
      (text_or (ci row (codes "JOURNAL_NAME")) [])
inherited_journal_of _ = none

-- The texts of the errors.
abbrev pub probe_message : Text → Result Text (List Row) → List Text
probe_message prefix (ok rows) = []
probe_message prefix (err e) = (prefix ++ e) ∷ []

-- errors.join('; '), or undefined
abbrev pub joined_errors : List Text → Option Text
joined_errors [] = none
joined_errors (e ∷ errors) = elim (joined_errors errors) [
  | none ↦ some e
  | some rest ↦ some (e ++ codes "; " ++ rest)
]

-- transactionalWritesConfigured
unfoldable pub writes_configured : Option Bool → Option Bool → Option Bool
writes_configured (some true) inheritance = some true
writes_configured journal (some true) = some true
writes_configured (some false) (some false) = some false
writes_configured _ _ = none

-- The result for a schema that does not exist.
unfoldable pub missing_schema : Text → SchemaCapabilities
missing_schema normalized = record {
  schema = normalized;
  system_schema = none;
  exists = false;
  has_qsqjrn = some false;
  has_inheritance = some false;
  inherited_journal = none;
  writes_configured = some false;
  probe_error = none;
}

-- The result for a schema that exists, with what the two probes gave.
unfoldable pub probed :
    Text → Text → Result Text (List Row) → Result Text (List Row) → SchemaCapabilities
probed normalized system journals libraries = record {
  schema = normalized;
  system_schema = some system;
  exists = true;
  has_qsqjrn = journal_probe journals;
  has_inheritance = inheritance_probe libraries;
  inherited_journal = inherited_journal_of libraries;
  writes_configured = writes_configured (journal_probe journals) (inheritance_probe libraries);
  probe_error = joined_errors (
      probe_message (codes "QSQJRN probe: ") journals
      ++ probe_message (codes "library journaling probe: ") libraries);
}

-- What is made of the rows of the first query.
unfoldable pub schema_found : (Text → Result Text (List Row)) → Text → List Row → SchemaCapabilities
schema_found execute normalized [] = missing_schema normalized
schema_found execute normalized (row ∷ rows) =
    let system = system_schema_of row normalized in
    probed normalized system (execute (journal_query (quote_literal system)))
      (execute (inheritance_query (quote_literal system)))

-- inspectIbmiSchema(job, schema)
unfoldable pub inspect_ibmi_schema :
    (Text → Result Text (List Row)) → Text → Result Text SchemaCapabilities
inspect_ibmi_schema execute schema =
    execute (schema_query (quote_literal (trim schema))) >>= λ rows.
    ok (schema_found execute (trim schema) rows)
