-- ===== src/Session/Rows/Indexes/Laws.antt =====
-- The repair of the index rows.
use postgres_mapepire_proxy.Prelude.{
  ◌≡◌, refl, sym, ap, ◌∙◌, subst, ◌⊎◌, inl, inr, List, [], ◌∷◌, Bool, true, false, Option, none,
  some, Text, map, if◌then◌else◌, some_of, arith,
}
use postgres_mapepire_proxy.Prelude.Results.{Result, ok, err}
use postgres_mapepire_proxy.Ddl.Registry.{get}
use postgres_mapepire_proxy.Pool.Capabilities.{Row}
use postgres_mapepire_proxy.Session.Rows.Indexes.{
  IbmiIndex, map_index_rows, index_key, is_unresolved, keys_by_index, with_columns, sys_keys,
  repair_from_keys, by_name, or_else, supplemented, repair_from_statistics, fill_from_keys,
  fill_from_statistics, fetch_indexes,
}

-- A row as it was, or an unresolved one with columns and perhaps a condition filled in.
abbrev pub Refills : IbmiIndex → IbmiIndex → Type 0
Refills before after =
    (after ≡ before)
    ⊎ ((is_unresolved before ≡ true)
        × (columns : List Text) × (condition : Option Text) × (after
            ≡ record before { columns = columns; filter_definition = condition }))

-- The rows after a repair are those before it, one by one.
pub data Repaired : List IbmiIndex → List IbmiIndex → Type 0 where
  nothing : Repaired [] []
  row :
      {i j : IbmiIndex} {before after : List IbmiIndex}
      → Refills i j
      → Repaired before after
      → Repaired (i ∷ before) (j ∷ after)

with_columns-Refills :
    (i : IbmiIndex) (columns : List Text) (condition : Option Text)
    → Refills i (with_columns i columns condition)
unfolding with_columns
with_columns-Refills i [] condition = inl refl
with_columns-Refills i (c ∷ columns) condition = go (is_unresolved i) refl
  where
    go : (test : Bool) → is_unresolved i ≡ test → Refills i (with_columns i (c ∷ columns) condition)
    go false e = inl (ground arith)
    go true e = inr (e, c ∷ columns, condition, ground arith)

supplemented-Refills :
    (found : List (Text × IbmiIndex)) (i : IbmiIndex) → Refills i (supplemented found i)
unfolding supplemented
supplemented-Refills found i = go (get (index_key i.index_schema i.name) found) refl
  where
    go :
        (other : Option IbmiIndex)
        → get (index_key i.index_schema i.name) found ≡ other
        → Refills i (supplemented found i)
    go none e = inl (ground arith)
    go (some other) e =
        subst (Refills i) (ground arith) (
          with_columns-Refills i other.columns
            (or_else i.filter_definition other.filter_definition))

map-Repaired :
    (f : IbmiIndex → IbmiIndex)
    → ((i : IbmiIndex) → Refills i (f i))
    → (rows : List IbmiIndex) → Repaired rows (map f rows)
map-Repaired f each [] = nothing
map-Repaired f each (i ∷ rows) = row (each i) (map-Repaired f each rows)

unchanged-Repaired : (rows : List IbmiIndex) → Repaired rows rows
unchanged-Repaired [] = nothing
unchanged-Repaired (i ∷ rows) = row (inl refl) (unchanged-Repaired rows)

Refills-trans : (i j k : IbmiIndex) → Refills i j → Refills j k → Refills i k
Refills-trans i j k (inl e) later = subst (λ l. Refills l k) e later
Refills-trans i j k (inr first) (inl e) = subst (Refills i) (sym e) (inr first)
Refills-trans i j k (inr (open_keys, columns, condition, e))
      (inr (again, columns', condition', f)) =
    inr (
      open_keys,
      columns',
      condition',
      f ∙ ap (λ (l : IbmiIndex). record l { columns = columns'; filter_definition = condition' }) e,
    )

Repaired-trans : {a b c : List IbmiIndex} → Repaired a b → Repaired b c → Repaired a c
Repaired-trans nothing nothing = nothing
Repaired-trans (row first firsts) (row second seconds) =
    row (Refills-trans _ _ _ first second) (Repaired-trans firsts seconds)

if-Repaired :
    {before a b : List IbmiIndex} (test : Bool)
    → Repaired before a
    → Repaired before b
    → Repaired before (if test then a else b)
if-Repaired true first second = first
if-Repaired false first second = second

repair_from_keys-Repaired :
    (keys : Result Text (List Row)) (rows : List IbmiIndex)
    → Repaired rows (repair_from_keys keys rows)
unfolding repair_from_keys
repair_from_keys-Repaired (err e) rows = unchanged-Repaired rows
repair_from_keys-Repaired (ok keys) rows =
    map-Repaired _
      (λ i. with_columns-Refills i (sys_keys (keys_by_index keys []) i) i.filter_definition) rows

fill_from_keys-Repaired :
    (keys : Result Text (List Row)) (rows : List IbmiIndex)
    → Repaired rows (fill_from_keys keys rows)
unfolding fill_from_keys
fill_from_keys-Repaired keys rows =
    if-Repaired (some_of is_unresolved rows) (repair_from_keys-Repaired keys rows)
      (unchanged-Repaired rows)

repair_from_statistics-Repaired :
    (native : Result Text (List Row)) (i : IbmiIndex) (rows : List IbmiIndex)
    → Repaired (i ∷ rows) (repair_from_statistics native (i ∷ rows))
unfolding repair_from_statistics
repair_from_statistics-Repaired (err e) i rows = unchanged-Repaired (i ∷ rows)
repair_from_statistics-Repaired (ok native) i rows =
    map-Repaired _ (supplemented-Refills (by_name (map_index_rows native) [])) (i ∷ rows)

fill_from_statistics-Repaired :
    (native : Result Text (List Row)) (i : IbmiIndex) (rows : List IbmiIndex)
    → Repaired (i ∷ rows) (fill_from_statistics native (i ∷ rows))
unfolding fill_from_statistics
fill_from_statistics-Repaired native i rows =
    if-Repaired (some_of is_unresolved (i ∷ rows)) (repair_from_statistics-Repaired native i rows)
      (unchanged-Repaired (i ∷ rows))

onward :
    (native : Result Text (List Row)) {i : IbmiIndex} {before after : List IbmiIndex}
    → Repaired (i ∷ before) after
    → Repaired (i ∷ before) (fill_from_statistics native after)
onward native (row first firsts) =
    Repaired-trans (row first firsts) (fill_from_statistics-Repaired native _ _)

-- Where the query for the indexes has given some, the two that fill in columns, failed or not, neither
-- add nor drop nor reorder an index, and change nothing but the columns and the condition of one that
-- has keys and whose columns are not known.
pub fetch_indexes-Repaired :
    (found : List Row) (keys native : Result Text (List Row)) (i : IbmiIndex)
    (rows : List IbmiIndex)
    → map_index_rows found ≡ i ∷ rows
    → Repaired (map_index_rows found) (fetch_indexes found keys native)
unfolding fetch_indexes
fetch_indexes-Repaired found keys native i rows e =
    subst (λ before. Repaired before (fill_from_statistics native (fill_from_keys keys before)))
      (sym e) (onward native (fill_from_keys-Repaired keys (i ∷ rows)))
