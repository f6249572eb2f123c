-- ===== src/Session/Protocol/Portals.antt =====
-- The extended query protocol: parse, bind, describe, executePortal, closePrepared and
-- materializeReadPortal.
use postgres_mapepire_proxy.Prelude.{
  ℕ, List, [], ◌∷◌, true, false, not, ◌||◌, Option, none, some, if◌then◌else◌, Text, ◌==◌, some_of,
  length, get_elem?, replicate, tail,
}
use postgres_mapepire_proxy.Prelude.Results.{Result, ok, err}
use postgres_mapepire_proxy.Wire.Words.{Bytes}
use postgres_mapepire_proxy.Wire.Encode.{FieldDescription}
use postgres_mapepire_proxy.Wire.Decode.{
  decode_parse, decode_bind, decode_describe, decode_execute, decode_close, decode_parameter_value,
  ParameterValue,
}
use postgres_mapepire_proxy.Ddl.Registry.{get, put, delete}
use postgres_mapepire_proxy.Session.State.{
  Kind, Failure, no_statement, no_portal, unsupported, binary_result, format_mismatch, bad_shape, M,
  pure, raise, gets, modify, ◌>>=◌, ◌>>◌, send, try_catch, Portal, PreparedStatement, QueryResult,
  Synthetic, parse_complete, bind_complete, close_complete, no_data, parameter_description,
  row_description, command_complete,
}
use postgres_mapepire_proxy.Session.Backend.{World}
use postgres_mapepire_proxy.Session.Layer.{Layer}
use postgres_mapepire_proxy.Session.Execute.{execute_sql}
use postgres_mapepire_proxy.Session.Execute.Run.{
  send_synthetic, send_mapepire_rows, command_tag, safe_retry, statement_failed, autocommit,
  reorder_parameters, well_shaped, is_idempotent_read,
}
use postgres_mapepire_proxy.Session.Protocol.Needs.{decoded, may_return_rows}

-- parse(body)
unfoldable pub parse : Bytes → M (Unit {0})
parse body = do
  p ← decoded (decode_parse body)
  modify (λ s. record s {
    prepared = put p.name (record { sql = p.sql; parameter_oids = p.parameter_oids }) s.prepared;
  })
  send parse_complete

-- normalizeFormats(formats, count): one format stands for all, and none for text.
unfoldable pub normalize_formats : List ℕ → ℕ → Result Failure (List ℕ)
normalize_formats [] n = ok (replicate n 0)
normalize_formats (f ∷ []) n = ok (replicate n f)
normalize_formats (f ∷ g ∷ fs) n =
    if length (f ∷ g ∷ fs) == n then ok (f ∷ g ∷ fs) else err format_mismatch

abbrev or_zero : Option ℕ → ℕ
or_zero none = 0
or_zero (some n) = n

-- The values of a Bind, decoded one by one with their formats and type numbers.
unfoldable pub decode_values : List (Option Bytes) → List ℕ → List ℕ → M (List ParameterValue)
decode_values [] formats oids = pure []
decode_values (v ∷ vs) formats oids = do
  x ←
      decoded
        (decode_parameter_value v (or_zero (get_elem? formats 0)) (or_zero (get_elem? oids 0)))
  xs ← decode_values vs (tail formats) (tail oids)
  pure (x ∷ xs)

unfoldable pub raised : {A : Type 0} → Result Failure A → M A
raised r s = (r, s)

-- bind(body)
unfoldable pub bind : Bytes → M (Unit {0})
bind body = do
  b ← decoded (decode_bind body)
  found ← gets (λ s. get b.statement s.prepared)
  elim found [
    | none ↦ raise (no_statement b.statement)
    | some stmt ↦ if some_of (λ f. f == 1) b.result_formats then raise binary_result else do
      formats ← raised (normalize_formats b.parameter_formats (length b.parameter_values))
      vs ← decode_values b.parameter_values formats stmt.parameter_oids
      modify (λ s. record s {
        portals =
            put b.portal
              (record {
                statement_name = b.statement;
                parameters = vs;
                result_formats = b.result_formats;
                description_sent = false;
                synthetic = none;
                buffered = none;
              })
              s.portals;
      })
      send bind_complete
  ]

-- closePrepared(body)
unfoldable pub close_prepared : Bytes → M (Unit {0})
close_prepared body = do
  c ← decoded (decode_close body)
  modify (λ s.
      if c.target == b'S'
      then record s { prepared = delete c.name s.prepared }
      else record s { portals = delete c.name s.portals })
  send close_complete

-- The statement and the portal that a message names.
unfoldable pub statement_of : Text → M PreparedStatement
statement_of name = do
  found ← gets (λ s. get name s.prepared)
  elim found [ none ↦ raise (no_statement name) | some p ↦ pure p ]

unfoldable pub portal_of : Text → M Portal
portal_of name = do
  found ← gets (λ s. get name s.portals)
  elim found [ none ↦ raise (no_portal name) | some p ↦ pure p ]

-- The description of a local result.
unfoldable pub send_fields : List FieldDescription → M (Unit {0})
send_fields [] = send no_data
send_fields (f ∷ fs) = send (row_description (f ∷ fs))

unfoldable pub describe_synthetic : Synthetic → M (Unit {0})
describe_synthetic r = if well_shaped r then send_fields r.fields else raise bad_shape

-- `portal.… = …`
unfoldable pub set_portal : Text → Portal → M (Unit {0})
set_portal name p = modify λ s. record s { portals = put name p s.portals }

module _ (world : World) (layer : Layer) where
  -- materializeReadPortal(sql, parameters)
  unfoldable pub materialize : Text → List ParameterValue → M (Kind × QueryResult)
  materialize sql parameters =
      let kind = layer.classify sql in
      if not (may_return_rows kind) || not (is_idempotent_read kind) then raise unsupported else do
        (db2, order) ← layer.translate sql
        try_catch
            (do
              r ←
                  safe_retry world world.reconnect_retries kind db2
                    (reorder_parameters parameters order) 0
              autocommit world
              pure (kind, r))
            (statement_failed world)

  -- describe of a statement, behind the parameter description.
  unfoldable pub describe_statement : Text → M (Unit {0})
  describe_statement sql = elim (layer.fixed_fields sql) [
    | some fields ↦ send (row_description fields)
    | none ↦ do
      local ← layer.resolve_synthetic sql []
      elim local [
        | some r ↦ describe_synthetic r
        | none ↦ do
          returning ← layer.returning_fields sql
          elim returning [
            | some fields ↦ send (row_description fields)
            | none ↦
                if not (may_return_rows (layer.classify sql))
                then send no_data
                else raise unsupported
          ]
      ]
  ]

  -- The last part of describe of a portal: no rows, or a read that is run now.
  unfoldable pub describe_rows : Text → Portal → Text → M (Unit {0})
  describe_rows name p sql =
      if not (may_return_rows (layer.classify sql))
      then (do set_portal name (record p { description_sent = true }); send no_data)
      else do
        (kind, r) ← materialize sql p.parameters
        set_portal name (record p { description_sent = true; buffered = some (kind, r) })
        if r.has_results then send (row_description r.fields) else send no_data

  -- describe of a portal.
  unfoldable pub describe_portal : Text → Portal → Text → M (Unit {0})
  describe_portal name p sql = elim (layer.fixed_fields sql) [
    | some fields ↦ do
      set_portal name (record p { description_sent = true })
      send (row_description fields)
    | none ↦ do
      local ← layer.resolve_synthetic sql p.parameters
      elim local [
        | some r ↦
            if well_shaped r
            then (do
              set_portal name (record p { description_sent = true; synthetic = some r })
              send_fields r.fields)
            else raise bad_shape
        | none ↦ do
          returning ← layer.returning_fields sql
          elim returning [
            | some fields ↦ do
              set_portal name (record p { description_sent = true })
              send (row_description fields)
            | none ↦ describe_rows name p sql
          ]
      ]
  ]

  -- describe(body)
  unfoldable pub describe : Bytes → M (Unit {0})
  describe body = do
    d ← decoded (decode_describe body)
    if d.target == b'S'
        then (do
          stmt ← statement_of d.name
          send (parameter_description stmt.parameter_oids)
          describe_statement stmt.sql)
        else do
          p ← portal_of d.name
          stmt ← statement_of p.statement_name
          describe_portal d.name p stmt.sql

  -- executePortal(body)
  unfoldable pub execute_portal : Bytes → M (Unit {0})
  execute_portal body = do
    e ← decoded (decode_execute body)
    p ← portal_of e.portal
    stmt ← statement_of p.statement_name
    elim p.synthetic [
      | some r ↦ send_synthetic r (not p.description_sent)
      | none ↦ elim p.buffered [
        | some (kind, r) ↦ do
          if r.has_results
              then send_mapepire_rows r e.max_rows (not p.description_sent)
              else pure tt
          send (command_complete (command_tag kind r))
        | none ↦ execute_sql world layer stmt.sql p.parameters e.max_rows (not p.description_sent)
      ]
    ]
