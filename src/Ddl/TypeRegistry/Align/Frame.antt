-- ===== src/Ddl/TypeRegistry/Align/Frame.antt =====
-- An aligned CREATE TABLE is the statement but for the types of its column definitions.
use postgres_mapepire_proxy.Prelude.{
  ℕ, zero, suc, ◌+◌, ◌==◌, List, [], ◌∷◌, ◌++◌, Option, none, some, Text, length, take, drop, ◌≡◌,
  refl, sym, ap, ◌∙◌, append_assoc, Bool-cases, Option-cases, inl, inr, ◌⊎◌,
}
use postgres_mapepire_proxy.Sql.Scan.{joined}
use postgres_mapepire_proxy.Ddl.Registry.{get}
use postgres_mapepire_proxy.Ddl.Names.{normalize_upper, Qualified, qualified_upper}
use postgres_mapepire_proxy.Ddl.ColumnTypes.{equivalent_type, replace_column_type}
use postgres_mapepire_proxy.Ddl.ColumnTypes.Replaced.{
  Retyped, unchanged, replace_column_type-Retyped,
}
use postgres_mapepire_proxy.Ddl.ForeignKeys.{
  ParsedColumn, ParsedForeignKey, ParsedCreateTable, slice, parse_create_table,
}
use postgres_mapepire_proxy.Ddl.TypeRegistry.{Types, type_key}
use postgres_mapepire_proxy.Ddl.TypeRegistry.Align.{
  Alignment, update, align_pair, align_pairs, align_keys, align_create_table,
}
use postgres_mapepire_proxy.Ddl.TypeRegistry.Align.Settled.{KeysSettled, align_keys-quiet}
use postgres_mapepire_proxy.Ddl.TypeRegistry.Align.Body.{IsBody, slice-frame, parse-frame}

-- As many definitions, each retyped or unchanged.
pub data AllRetyped : List Text → List Text → Type 0 where
  none_left : AllRetyped [] []
  each :
      {d e : Text} {ds es : List Text}
      → Retyped d e
      → AllRetyped ds es
      → AllRetyped (d ∷ ds) (e ∷ es)

all_unchanged : (ds : List Text) → AllRetyped ds ds
all_unchanged [] = none_left
all_unchanged (d ∷ ds) = each (unchanged d) (all_unchanged ds)

update-AllRetyped :
    (previous aligned : Text) (i : ℕ) (ds es : List Text)
    → AllRetyped ds es
    → AllRetyped ds (update i (λ d. replace_column_type d previous aligned) es)
unfolding update
update-AllRetyped previous aligned i ds es none_left = none_left
update-AllRetyped previous aligned zero ds es (each {d} {e} r rs) =
    each (replace_column_type-Retyped d e previous aligned r) rs
update-AllRetyped previous aligned (suc i) ds es (each {ds = ds'} {es = es'} r rs) =
    each r (update-AllRetyped previous aligned i ds' es' rs)

module _ (r : Types) (parsed : ParsedCreateTable) (ds : List Text) where
  -- The definitions of a state of the loops.
  abbrev Keeps : List Text × List Alignment → Type 0
  Keeps (es, alignments) = AllRetyped ds es

  align_pair-Keeps :
      (key : ParsedForeignKey) (parent : Qualified) (child_name parent_name : Text)
      (state : List Text × List Alignment)
      → Keeps state
      → Keeps (align_pair r parsed key parent child_name parent_name state)
  unfolding align_pair
  align_pair-Keeps key parent child_name parent_name (es, alignments) h =
      go (get (normalize_upper child_name) parsed.columns) refl (get parent_key r.entries) refl
    where
      parent_key : Text
      parent_key = type_key parent.schema parent.table parent_name

      aligned : List Text × List Alignment
      aligned = align_pair r parsed key parent child_name parent_name (es, alignments)

      go :
          (child : Option ParsedColumn)
          → get (normalize_upper child_name) parsed.columns ≡ child
          → (parent_type : Option Text) → get parent_key r.entries ≡ parent_type
          → Keeps aligned
      go none e parent_type f = rw (align_pair, e) h
      go (some child) e none f = rw (align_pair, e, f) h
      go (some child) e (some []) f = rw (align_pair, e, f) h
      go (some child) e (some (c ∷ t)) f =
          elim (Bool-cases (equivalent_type child.type_name (c ∷ t))) [
            | inl equal ↦ rw (align_pair, e, f, equal) h
            | inr other ↦
                rw (align_pair, e, f, other)
                  (update-AllRetyped child.type_name (c ∷ t) child.definition_index ds es h)
          ]

  align_pairs-Keeps :
      (key : ParsedForeignKey) (parent : Qualified) (children parents : List Text)
      (state : List Text × List Alignment)
      → Keeps state
      → Keeps (align_pairs r parsed key parent children parents state)
  unfolding align_pairs
  align_pairs-Keeps key parent [] parents state h = h
  align_pairs-Keeps key parent (child ∷ children) [] state h = h
  align_pairs-Keeps key parent (child ∷ children) (column ∷ parents) state h =
      align_pairs-Keeps key parent children parents
        (align_pair r parsed key parent child column state)
        (align_pair-Keeps key parent child column state h)

  align_keys-Keeps :
      (keys : List ParsedForeignKey) (state : List Text × List Alignment)
      → Keeps state
      → Keeps (align_keys r parsed keys state)
  unfolding align_keys
  align_keys-Keeps [] state h = h
  align_keys-Keeps (key ∷ keys) state h =
      elim (Bool-cases (length key.child_columns == length key.parent_columns)) [
        | inl as_many ↦ simp as_many (
            align_keys-Keeps keys _ (
              align_pairs-Keeps key (qualified_upper key.parent_table parsed.schema)
                key.child_columns key.parent_columns state h))
        | inr other ↦ simp other (align_keys-Keeps keys state h)
      ]

-- An aligned statement: the text between its parentheses is a list of definitions, of which some are
-- retyped, and in front of and behind it nothing is changed.
abbrev pub IsAligned : Text → Text → Type 0
IsAligned sql aligned =
    (open_at : ℕ) × (close_at : ℕ) × (ds : List Text) × (es : List Text) × IsBody sql open_at
      close_at
    × (joined ds ≡ slice (open_at + 1) close_at sql)
    × (sql ≡ take (open_at + 1) sql ++ (joined ds ++ drop close_at sql))
    × (aligned ≡ take (open_at + 1) sql ++ (joined es ++ drop close_at sql))
    × AllRetyped ds es

-- A statement that is left out: it is not read as a CREATE TABLE, or no column of its foreign keys
-- is known to differ from its parent.
abbrev pub IsQuiet : Text → Text → Types → Type 0
IsQuiet sql current_schema r =
    (parse_create_table sql current_schema ≡ none)
    ⊎ ((parsed : ParsedCreateTable) × (parse_create_table sql current_schema ≡ some parsed)
        × KeysSettled r parsed parsed.foreign_keys)

pub align_create_table-AllRetyped :
    (sql current_schema : Text) (r : Types)
    → ((align_create_table sql current_schema r ≡ (sql, [])) × IsQuiet sql current_schema r)
      ⊎ IsAligned sql (align_create_table sql current_schema r).0
unfolding align_create_table
align_create_table-AllRetyped sql current_schema r =
    elim (Option-cases (parse_create_table sql current_schema)) [
      | inl unparsed ↦ inl (rw (align_create_table, unparsed), inl unparsed)
      | inr (parsed, e) ↦
          let start : List Text × List Alignment = (parsed.definitions, []) in
          go parsed e (align_keys r parsed parsed.foreign_keys start) refl (
            align_keys-Keeps r parsed parsed.definitions parsed.foreign_keys start
              (all_unchanged parsed.definitions))
    ]
  where
    go :
        (parsed : ParsedCreateTable)
        → parse_create_table sql current_schema ≡ some parsed
        → (state : List Text × List Alignment)
        → align_keys r parsed parsed.foreign_keys (parsed.definitions, []) ≡ state
        → Keeps r parsed parsed.definitions state
        → ((align_create_table sql current_schema r ≡ (sql, [])) × IsQuiet sql current_schema r)
          ⊎ IsAligned sql (align_create_table sql current_schema r).0
    go parsed e (es, []) f h =
        let (_, settled) =
          align_keys-quiet r parsed parsed.foreign_keys (parsed.definitions, [])
            (ap (λ s. s.1) f) in
        inl (rw (align_create_table, e, f), inr (parsed, e, settled))
    go parsed e (es, a ∷ later) f h =
        let (body, read, behind) = parse-frame sql current_schema parsed e in
        inr (
          parsed.open_at,
          parsed.close_at,
          parsed.definitions,
          es,
          body,
          read,
          sym (
              ap (λ t. take (parsed.open_at + 1) sql ++ (t ++ drop parsed.close_at sql)) read
              ∙ slice-frame (parsed.open_at + 1) parsed.close_at sql behind),
          rw (align_create_table, e, f, f)
              (append_assoc (take (parsed.open_at + 1) sql) (joined es) (drop parsed.close_at sql)),
          h,
        )
