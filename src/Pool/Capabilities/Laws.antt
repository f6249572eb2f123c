-- ===== src/Pool/Capabilities/Laws.antt =====
-- What the probes of a schema say where one of them fails.
use postgres_mapepire_proxy.Prelude.{
  ◌≡◌, ◌≢◌, ◌⊎◌, inl, inr, refl, List, [], ◌∷◌, none, some, false, Text, arith, subst,
}
use postgres_mapepire_proxy.Prelude.Results.{Result, ok, err, bind-succeeds, ok-injective}
use postgres_mapepire_proxy.Sql.Text.{trim}
use postgres_mapepire_proxy.Pool.Capabilities.{
  Row, SchemaCapabilities, writes_configured, journal_probe, inheritance_probe, missing_schema,
  probed, schema_found, inspect_ibmi_schema,
}

-- The answer on journaling is unknown only where a probe failed, and its error is told; the answer
-- is no only where the schema does not exist or no probe failed.
pub record IsHonest (c : SchemaCapabilities) : Type 0 where
  pub unknown : c.writes_configured ≡ none → c.probe_error ≢ none
  pub refused : c.writes_configured ≡ some false → (c.exists ≡ false) ⊎ (c.probe_error ≡ none)

missing_schema-IsHonest : (schema : Text) → IsHonest (missing_schema schema)
unfolding missing_schema
missing_schema-IsHonest schema = record { unknown = λ e. cc; refused = λ e. inl refl }

probed-IsHonest :
    (schema system : Text) (journals libraries : Result Text (List Row))
    → IsHonest (probed schema system journals libraries)
unfolding probed journal_probe inheritance_probe writes_configured
probed-IsHonest schema system (ok rows) (ok []) = record {
  unknown = λ e. ground arith;
  refused = λ e. inr refl;
}
probed-IsHonest schema system (ok rows) (ok (row ∷ more)) = record {
  unknown = λ e. ground arith;
  refused = λ e. inr refl;
}
probed-IsHonest schema system (ok rows) (err f) = record {
  unknown = λ e. ground arith;
  refused = λ e. ground arith;
}
probed-IsHonest schema system (err f) (ok []) = record {
  unknown = λ e. ground arith;
  refused = λ e. ground arith;
}
probed-IsHonest schema system (err f) (ok (row ∷ more)) = record {
  unknown = λ e. ground arith;
  refused = λ e. ground arith;
}
probed-IsHonest schema system (err f) (err g) = record {
  unknown = λ e. ground arith;
  refused = λ e. ground arith;
}

schema_found-IsHonest :
    (execute : Text → Result Text (List Row)) (schema : Text) (rows : List Row)
    → IsHonest (schema_found execute schema rows)
unfolding schema_found
schema_found-IsHonest execute schema [] = missing_schema-IsHonest schema
schema_found-IsHonest execute schema (row ∷ rows) = probed-IsHonest _ _ _ _

-- Whatever the job answers, a result of inspectIbmiSchema says that journaling is unknown only if a
-- probe failed, with its error; and it says that there is none only if the schema does not exist or
-- both probes answered: a probe that failed is never taken for a no.
pub inspect_ibmi_schema-IsHonest :
    (execute : Text → Result Text (List Row)) (schema : Text) (c : SchemaCapabilities)
    → inspect_ibmi_schema execute schema ≡ ok c
    → IsHonest c
unfolding inspect_ibmi_schema
inspect_ibmi_schema-IsHonest execute schema c e =
    let (rows, _, last) = bind-succeeds (execute _) _ e in
    subst IsHonest (ok-injective refl last) (schema_found-IsHonest execute (trim schema) rows)
