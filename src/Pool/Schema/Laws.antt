-- ===== src/Pool/Schema/Laws.antt =====
-- What prepareSchema promises to the session that selects a schema.
use postgres_mapepire_proxy.Ddl.Registry.{get}
use postgres_mapepire_proxy.Ddl.Registry.Laws.{get-put}
use postgres_mapepire_proxy.Sql.Text.{upper}
use postgres_mapepire_proxy.Prelude.{
  [], ◌∷◌, ◌++◌, ℕ, ◌+◌, ◌≤◌, Option, none, map, text_eq_refl, ap, if◌then◌else◌, ◌≡◌, refl, ◌∙◌,
  Bool, true, false, not, ◌&&◌, some, Text, arith, ◌⊎◌, inl, inr, Bool-cases,
}
use postgres_mapepire_proxy.Prelude.Results.{Result, ok, err, ok-injective}
use postgres_mapepire_proxy.Pool.Schema.{
  Capabilities, SchemaError, Catalogue, Schemas, inspected, looked_up, inspect_schema,
  invalidate_schema, judge, judged, create_schema, prepared, prepare_schema,
}

module _ (world : Catalogue) where
  -- The schema exists, and is journaled if the configuration asks for it.
  abbrev pub IsUsable : Capabilities → Type 0
  IsUsable c =
      (c.exists ≡ true)
      × ((world.require_transactional ≡ false) ⊎ (c.writes_configured ≡ some true))

  judge-IsUsable : (c d : Capabilities) → judge world c ≡ ok d → (c ≡ d) × IsUsable d
  unfolding judge
  judge-IsUsable c d e = ground arith

  -- What is known of a schema from a state on: it stands in the cache, and a refresh was not asked
  -- for; or an inspection of this very schema, from that state on, has found it.
  abbrev pub IsSeen : Text → Bool → Schemas → Capabilities → Type 0
  IsSeen schema refresh s c =
      ((refresh ≡ false) × (get (map upper schema) s.cache ≡ some c))
      ⊎ ((n : ℕ) × (s.inspections ≤ n) × (world.inspect n schema ≡ ok c))

  -- What inspectSchema gives, and that the cache then holds it under the schema's name.
  abbrev IsRead : Text → Bool → Schemas → Capabilities → Schemas → Type 0
  IsRead schema refresh s c t =
      IsSeen schema refresh s c
      × (get (map upper schema) t.cache ≡ some c)
      × (s.inspections ≤ t.inspections)

  inspected-IsRead :
      (schema : Text) (refresh : Bool) (s : Schemas) (r : Result SchemaError Capabilities)
      (c : Capabilities)
      → world.inspect s.inspections schema ≡ r
      → (inspected world schema r (record s { inspections = s.inspections + 1 })).0 ≡ ok c
      → IsRead schema refresh s c
          (inspected world schema r (record s { inspections = s.inspections + 1 })).1
  unfolding inspected
  inspected-IsRead schema refresh s (err x) c i e = absurd (ground arith)
  inspected-IsRead schema refresh s (ok d) c i e =
      let same : d ≡ c = ok-injective refl e in
      (
        inr (s.inspections, omega arith, i ∙ ap ok same),
        get-put (map upper schema) (map upper schema) d s.cache
            ∙ ap (λ b. if b then some d else get (map upper schema) s.cache)
                (text_eq_refl (map upper schema))
            ∙ ap some same,
        omega arith,
      )

  looked_up-IsRead :
      (schema : Text) (refresh : Bool) (s : Schemas) (found : Option Capabilities)
      (c : Capabilities)
      → ((d : Capabilities)
          → found ≡ some d
          → (refresh ≡ false) × (get (map upper schema) s.cache ≡ some d))
      → (looked_up world schema found s).0 ≡ ok c
      → IsRead schema refresh s c (looked_up world schema found s).1
  unfolding looked_up
  looked_up-IsRead schema refresh s (some d) c known e =
      let same : some d ≡ some c = ap some (ok-injective refl e) in
      (inl (known c same), (known c same).1, omega arith)
  looked_up-IsRead schema refresh s none c known e =
      inspected-IsRead schema refresh s (world.inspect s.inspections schema) c refl e

  inspect_schema-IsRead :
      (schema : Text) (refresh : Bool) (s : Schemas) (c : Capabilities)
      → (inspect_schema world schema refresh s).0 ≡ ok c
      → IsRead schema refresh s c (inspect_schema world schema refresh s).1
  unfolding inspect_schema
  inspect_schema-IsRead schema true s c e =
      looked_up-IsRead schema true s none c (λ d f. absurd cc) e
  inspect_schema-IsRead schema false s c e =
      looked_up-IsRead schema false s (get (map upper schema) s.cache) c (λ d f. (refl, f)) e

  -- What prepareSchema makes sure of.
  abbrev pub IsPrepared : Text → Bool → Schemas → Capabilities → Schemas → Type 0
  IsPrepared schema refresh s c t =
      IsUsable c × IsSeen schema refresh s c × (get (map upper schema) t.cache ≡ some c)

  judged-IsPrepared :
      (schema : Text) (refresh : Bool) (s t : Schemas) (r : Result SchemaError Capabilities)
      (c : Capabilities)
      → ((d : Capabilities) → r ≡ ok d → IsRead schema refresh s d t)
      → (judged world (r, t)).0 ≡ ok c
      → IsPrepared schema refresh s c (judged world (r, t)).1
  unfolding judged
  judged-IsPrepared schema refresh s t (err x) c read e = absurd (ground arith)
  judged-IsPrepared schema refresh s t (ok d) c read e =
      let (same, usable) = judge-IsUsable d c e in
      let (seen, cached, later) = read c (ap ok same) in (usable, seen, cached)

  invalidate_schema-inspections :
      (schema : Text) (s : Schemas) → (invalidate_schema world schema s).inspections ≡ s.inspections
  unfolding invalidate_schema
  invalidate_schema-inspections [] s = refl
  invalidate_schema-inspections (c ∷ schema) s = refl

  -- What is seen behind an earlier state is seen behind it, with or without a refresh.
  IsSeen-earlier :
      (schema : Text) (refresh : Bool) (s t : Schemas) (c : Capabilities)
      → s.inspections ≤ t.inspections
      → IsSeen schema true t c
      → IsSeen schema refresh s c
  IsSeen-earlier schema refresh s t c later (inl (never, cached)) = absurd cc
  IsSeen-earlier schema refresh s t c later (inr (n, from_t, seen)) = inr (n, omega arith, seen)

  created-IsPrepared :
      (schema : Text) (refresh : Bool) (s t : Schemas) (r : Result SchemaError (Unit {0}))
      (c : Capabilities)
      → s.inspections ≤ t.inspections
      → (create_schema world schema r t).0 ≡ ok c
      → IsPrepared schema refresh s c (create_schema world schema r t).1
  unfolding create_schema
  created-IsPrepared schema refresh s t (err x) c later e = absurd (ground arith)
  created-IsPrepared schema refresh s t (ok u) c later e =
      let cleared =
        invalidate_schema world schema (record t { created = t.created ++ schema ∷ [] }) in
      let again = inspect_schema world schema true cleared in
      let kept =
        invalidate_schema-inspections schema (record t { created = t.created ++ schema ∷ [] }) in
      let (usable, seen, cached) =
        judged-IsPrepared schema true cleared again.1 again.0 c
          (λ d f. inspect_schema-IsRead schema true cleared d f) e in
      (usable, IsSeen-earlier schema refresh s cleared c (omega arith) seen, cached)

  prepared-IsPrepared :
      (schema : Text) (refresh allow : Bool) (s t : Schemas) (r : Result SchemaError Capabilities)
      (c : Capabilities)
      → s.inspections ≤ t.inspections
      → ((d : Capabilities) → r ≡ ok d → IsRead schema refresh s d t)
      → (prepared world schema allow (r, t)).0 ≡ ok c
      → IsPrepared schema refresh s c (prepared world schema allow (r, t)).1
  unfolding prepared
  prepared-IsPrepared schema refresh allow s t (err x) c later read e = absurd (ground arith)
  prepared-IsPrepared schema refresh allow s t (ok d) c later read e =
      elim (Bool-cases (not d.exists && (world.auto_create && allow))) [
        | inl b ↦ simp b (
            created-IsPrepared schema refresh s t (world.create t.inspections schema) c later
              (simp b at e))
        | inr b ↦ simp b (
            let (same, usable) = judge-IsUsable d c (simp b at e) in
            let (seen, cached, more) = read c (ap ok same) in (usable, seen, cached))
      ]

  looked_up-inspections :
      (schema : Text) (found : Option Capabilities) (s : Schemas)
      → s.inspections ≤ (looked_up world schema found s).1.inspections
  unfolding looked_up inspected
  looked_up-inspections schema (some c) s = omega arith
  looked_up-inspections schema none s = ground arith

  inspect_schema-inspections :
      (schema : Text) (refresh : Bool) (s : Schemas)
      → s.inspections ≤ (inspect_schema world schema refresh s).1.inspections
  unfolding inspect_schema
  inspect_schema-inspections schema refresh s = looked_up-inspections schema _ s

  -- A schema that prepareSchema accepts exists, and is journaled if the configuration requires it.
  -- That is what the cache had for this schema, where no refresh was asked for, or what an inspection
  -- of this schema found, this time or, where it was created on the way, behind its creation; and the
  -- cache has it for this schema from then on.
  pub prepare_schema-IsPrepared :
      (schema : Text) (refresh allow : Bool) (s : Schemas) (c : Capabilities)
      → (prepare_schema world schema refresh allow s).0 ≡ ok c
      → IsPrepared schema refresh s c (prepare_schema world schema refresh allow s).1
  unfolding prepare_schema
  prepare_schema-IsPrepared schema refresh allow s c e =
      let found = inspect_schema world schema refresh s in
      prepared-IsPrepared schema refresh allow s found.1 found.0 c
        (inspect_schema-inspections schema refresh s)
        (λ d f. inspect_schema-IsRead schema refresh s d f) e

  inspect_schema-created :
      (schema : Text) (refresh : Bool) (s : Schemas)
      → (inspect_schema world schema refresh s).1.created ≡ s.created
  unfolding inspect_schema looked_up inspected
  inspect_schema-created schema refresh s = ground arith

  prepared-created :
      (schema : Text) (allow : Bool) (r : Result SchemaError Capabilities) (s : Schemas)
      → (world.auto_create && allow) ≡ false
      → (prepared world schema allow (r, s)).1.created ≡ s.created
  unfolding prepared
  prepared-created schema allow (err e) s n = refl
  prepared-created schema allow (ok c) s n = ground arith

  -- Where the configuration or an open transaction forbids it, no schema is created.
  pub prepare_schema-created :
      (schema : Text) (refresh allow : Bool) (s : Schemas)
      → (world.auto_create && allow) ≡ false
      → (prepare_schema world schema refresh allow s).1.created ≡ s.created
  unfolding prepare_schema
  prepare_schema-created schema refresh allow s n =
      prepared-created schema allow (inspect_schema world schema refresh s).0
        (inspect_schema world schema refresh s).1 n
      ∙ inspect_schema-created schema refresh s
