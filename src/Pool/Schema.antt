-- ===== src/Pool/Schema.antt =====
-- The schema capabilities of SessionJobPool: prepareSchema, inspectSchema and
-- invalidateSchemaCapabilities. The catalogue queries of inspectIbmiSchema are not modelled: the
-- parameter `world` says how each inspection and each CREATE SCHEMA goes.
pub mod Laws
use postgres_mapepire_proxy.Prelude.{
  ℕ, ◌+◌, List, [], ◌∷◌, ◌++◌, Bool, true, false, not, ◌&&◌, ◌||◌, Option, none, some,
  if◌then◌else◌, Text, text_eq, map,
}
use postgres_mapepire_proxy.Prelude.Results.{Result, ok, err}
use postgres_mapepire_proxy.Sql.Text.{upper}
use postgres_mapepire_proxy.Ddl.Registry.{get, put, delete}

-- The part of IbmiSchemaCapabilities that the pool reads.
pub record Capabilities : Type 0 where
  pub exists : Bool
  pub writes_configured : Option Bool

pub data SchemaError : Type 0 where
  probe_failed create_failed missing not_journaled unverified : SchemaError

pub record Catalogue : Type 0 where
  pub inspect : ℕ → Text → Result SchemaError Capabilities
  pub create : ℕ → Text → Result SchemaError (Unit {0})
  pub default_schema : Text
  pub auto_create : Bool
  pub require_transactional : Bool

-- The two fields of the pool, and what was asked of the catalogue so far.
pub record Schemas : Type 0 where
  pub cache : List (Text × Capabilities)
  pub default_capabilities : Option Capabilities
  pub inspections : ℕ
  pub created : List Text

module _ (world : Catalogue) where
  -- `key === this.defaultSchema.toUpperCase()`
  abbrev pub is_default : Text → Bool
  is_default schema = text_eq (map upper schema) (map upper world.default_schema)

  -- The end of inspectSchema, behind the catalogue.
  unfoldable pub inspected :
      Text → Result SchemaError Capabilities → Schemas → Result SchemaError Capabilities × Schemas
  inspected schema (err e) s = (err e, s)
  inspected schema (ok c) s = (
    ok c,
    record s {
      cache = put (map upper schema) c s.cache;
      default_capabilities = if is_default schema then some c else s.default_capabilities;
    },
  )

  -- What the cache has, or else the catalogue.
  unfoldable pub looked_up :
      Text → Option Capabilities → Schemas → Result SchemaError Capabilities × Schemas
  looked_up schema (some c) s = (ok c, s)
  looked_up schema none s =
      inspected schema (world.inspect s.inspections schema)
        (record s { inspections = s.inspections + 1 })

  -- inspectSchema(job, schema, refresh)
  unfoldable pub inspect_schema : Text → Bool → Schemas → Result SchemaError Capabilities × Schemas
  inspect_schema schema refresh s =
      looked_up schema (if refresh then none else get (map upper schema) s.cache) s

  -- invalidateSchemaCapabilities(schema); an empty text clears everything.
  unfoldable pub invalidate_schema : Text → Schemas → Schemas
  invalidate_schema [] s = record s { cache = []; default_capabilities = none }
  invalidate_schema (c ∷ schema) s = record s {
    cache = delete (map upper (c ∷ schema)) s.cache;
    default_capabilities = if is_default (c ∷ schema) then none else s.default_capabilities;
  }

  -- The two tests at the end of prepareSchema.
  unfoldable pub judge : Capabilities → Result SchemaError Capabilities
  judge c =
      if not c.exists
      then err missing
      else if not world.require_transactional
      then ok c
      else elim c.writes_configured [
        | none ↦ err unverified
        | some b ↦ if b then ok c else err not_journaled
      ]

  unfoldable pub judged :
      Result SchemaError Capabilities × Schemas → Result SchemaError Capabilities × Schemas
  judged (err e, s) = (err e, s)
  judged (ok c, s) = (judge c, s)

  -- CREATE SCHEMA, and the second look at the catalogue.
  unfoldable pub create_schema :
      Text → Result SchemaError (Unit {0}) → Schemas → Result SchemaError Capabilities × Schemas
  create_schema schema (err e) s = (err e, s)
  create_schema schema (ok u) s = judged (
      inspect_schema schema true
        (invalidate_schema schema (record s { created = s.created ++ schema ∷ [] })))

  unfoldable pub prepared :
      Text
      → Bool
      → Result SchemaError Capabilities × Schemas
      → Result SchemaError Capabilities × Schemas
  prepared schema allow (err e, s) = (err e, s)
  prepared schema allow (ok c, s) =
      if not c.exists && (world.auto_create && allow)
      then create_schema schema (world.create s.inspections schema) s
      else (judge c, s)

  -- prepareSchema(job, schema, refresh, allowCreate)
  unfoldable pub prepare_schema :
      Text → Bool → Bool → Schemas → Result SchemaError Capabilities × Schemas
  prepare_schema schema refresh allow s = prepared schema allow (inspect_schema schema refresh s)
