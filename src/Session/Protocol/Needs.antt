-- ===== src/Session/Protocol/Needs.antt =====
-- frontendMessageNeedsBackend and queryNeedsBackend: which messages can reach IBM i.
use postgres_mapepire_proxy.Prelude.{
  [], ◌∷◌, Bool, true, false, not, ◌&&◌, ◌||◌, Option, none, some, if◌then◌else◌, Text, ◌==◌,
  some_of, length,
}
use postgres_mapepire_proxy.Prelude.Results.{Result, ok, err}
use postgres_mapepire_proxy.Wire.Words.{WireError}
use postgres_mapepire_proxy.Wire.Frames.{FrontendMessage}
use postgres_mapepire_proxy.Wire.Decode.{
  decode_query, decode_describe, decode_execute, TargetMessage,
}
use postgres_mapepire_proxy.Ddl.Registry.{get}
use postgres_mapepire_proxy.Sql.Text.{trim}
use postgres_mapepire_proxy.Session.State.{
  Kind, select, values, begin, commit, rollback, set, Failure, codec, State, M, pure, raise, gets,
  ◌>>=◌, Portal,
}
use postgres_mapepire_proxy.Session.Backend.{World}
use postgres_mapepire_proxy.Session.Layer.{Layer}
use postgres_mapepire_proxy.Session.Execute.{ends_block, is_set}

-- A decoder's outcome, as a step of the session.
abbrev pub decoded : {A : Type 0} → Result WireError A → M A
decoded (ok a) = pure a
decoded (err e) = raise (codec e)

abbrev pub is_none {ℓ} : {A : Type ℓ} → Option A → Bool
is_none none = true
is_none (some a) = false

abbrev pub is_begin : Kind → Bool
is_begin begin = true
is_begin _ = false

-- statementMayReturnRows(kind)
abbrev pub may_return_rows : Kind → Bool
may_return_rows select = true
may_return_rows values = true
may_return_rows _ = false

module _ (layer : Layer) (s : State) where
  -- queryNeedsBackend of one statement.
  unfoldable pub statement_needs_backend : Text → Bool
  statement_needs_backend sql =
      let kind = layer.classify sql in
      if length (trim sql) == 0
      then false
      else if layer.query_is_local sql
      then false
      else if is_begin kind
      then false
      else if ends_block kind && is_none s.leased
      then false
      else if s.transaction_failed && not (ends_block kind)
      then false
      else if is_set kind && (is_none (layer.search_path sql) && is_none (layer.set_config sql))
      then false
      else is_none (layer.savepoint sql) || s.in_transaction

  -- queryNeedsBackend(sql); a part of a batch is one statement.
  unfoldable pub query_needs_backend : Text → Bool
  query_needs_backend sql = elim (layer.split sql) [
    | [] ↦ statement_needs_backend sql
    | first ∷ rest ↦ elim rest [
      | [] ↦ statement_needs_backend first
      | second ∷ more ↦ some_of statement_needs_backend (first ∷ second ∷ more)
    ]
  ]

  -- The statement that a Describe names, of a statement or of a portal.
  unfoldable pub described_sql : TargetMessage → Option Text
  described_sql d =
      if d.target == b'S' then sql_of (get d.name s.prepared) else portal_sql (get d.name s.portals)
    where
      sql_of : Option postgres_mapepire_proxy.Session.State.PreparedStatement → Option Text
      sql_of none = none
      sql_of (some p) = some p.sql

      portal_sql : Option Portal → Option Text
      portal_sql none = none
      portal_sql (some p) = sql_of (get p.statement_name s.prepared)

  unfoldable pub describe_needs_backend : Result WireError TargetMessage → Bool
  describe_needs_backend (err e) = true
  describe_needs_backend (ok d) = elim (described_sql d) [
    | none ↦ false
    | some sql ↦
        not (layer.describe_is_local sql)
        && (may_return_rows (layer.classify sql) && d.target == b'P')
  ]

  unfoldable pub portal_needs_backend : Option Portal → Bool
  portal_needs_backend none = false
  portal_needs_backend (some p) =
      is_none p.synthetic
      && (is_none p.buffered && (elim (get p.statement_name s.prepared) [
        | none ↦ false
        | some stmt ↦ not (layer.execute_is_local stmt.sql)
      ]))

-- frontendMessageNeedsBackend(type, body), and the session lease mode, which always needs one.
module _ (world : World) (layer : Layer) where
  unfoldable pub pooled_needs_backend : FrontendMessage → M Bool
  pooled_needs_backend m =
      if m.kind == b'Q'
      then (do sql ← decoded (decode_query m.body); gets (λ s. query_needs_backend layer s sql))
      else if m.kind == b'D'
      then gets (λ s. describe_needs_backend layer s (decode_describe m.body))
      else if m.kind == b'E'
      then gets (λ s. elim (decode_execute m.body) [
        | err e ↦ true
        | ok x ↦ portal_needs_backend layer s (get x.portal s.portals)
      ])
      else pure false

  unfoldable pub message_needs_backend : FrontendMessage → M Bool
  message_needs_backend m = if world.session_mode then pure true else pooled_needs_backend m
