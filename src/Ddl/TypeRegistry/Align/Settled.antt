-- ===== src/Ddl/TypeRegistry/Align/Settled.antt =====
-- When an alignment is left out: the columns of the foreign keys have the types of their parents.
use postgres_mapepire_proxy.Prelude.{
  ◌==◌, List, [], ◌∷◌, ◌++◌, true, false, none, some, Text, length, ◌≡◌, ◌⊎◌, arith, Bool-cases,
  Option-cases, inl, inr,
}
use postgres_mapepire_proxy.Ddl.Registry.{get}
use postgres_mapepire_proxy.Ddl.Names.{normalize_upper, Qualified, qualified_upper}
use postgres_mapepire_proxy.Ddl.ColumnTypes.{equivalent_type}
use postgres_mapepire_proxy.Ddl.ForeignKeys.{ParsedColumn, ParsedForeignKey, ParsedCreateTable}
use postgres_mapepire_proxy.Ddl.TypeRegistry.{Types, type_key, known}
use postgres_mapepire_proxy.Ddl.TypeRegistry.Align.{Alignment, align_pair, align_pairs, align_keys}

append-nonempty {ℓ} : {A : Type ℓ} (xs : List A) (x : A) → xs ++ x ∷ [] ≡ [] → ⊥
append-nonempty [] x e = absurd cc
append-nonempty (y ∷ xs) x e = absurd cc

module _ (r : Types) (parsed : ParsedCreateTable) where
  -- The column is not one of the table's, or its parent has no known type, or the types of the two
  -- are equivalent.
  abbrev IsSettled : Qualified → Text → Text → Type 0
  IsSettled parent child_name parent_name =
      (get (normalize_upper child_name) parsed.columns ≡ none)
      ⊎ ((known (get (type_key parent.schema parent.table parent_name) r.entries) ≡ none)
          ⊎ ((child : ParsedColumn) × (parent_type : Text) × (get (normalize_upper child_name)
                  parsed.columns
                ≡ some child)
              × (known (get (type_key parent.schema parent.table parent_name) r.entries)
                  ≡ some parent_type)
              × (equivalent_type child.type_name parent_type ≡ true)))

  -- Every column of a foreign key, with its parent.
  abbrev PairsSettled : Qualified → List Text → List Text → Type 0
  PairsSettled parent [] parents = Unit {0}
  PairsSettled parent (child ∷ children) [] = Unit {0}
  PairsSettled parent (child ∷ children) (column ∷ parents) =
      IsSettled parent child column × PairsSettled parent children parents

  -- Of every foreign key with as many columns as its parent.
  abbrev pub KeysSettled : List ParsedForeignKey → Type 0
  KeysSettled [] = Unit {0}
  KeysSettled (key ∷ keys) =
      (((length key.child_columns == length key.parent_columns) ≡ false)
        ⊎ PairsSettled (qualified_upper key.parent_table parsed.schema) key.child_columns
            key.parent_columns)
      × KeysSettled keys

  align_pair-quiet :
      (key : ParsedForeignKey) (parent : Qualified) (child_name parent_name : Text)
      (state : List Text × List Alignment)
      → (align_pair r parsed key parent child_name parent_name state).1 ≡ []
      → (state.1 ≡ []) × IsSettled parent child_name parent_name
  unfolding align_pair
  align_pair-quiet key parent child_name parent_name (ds, alignments) e =
      elim (Option-cases (get (normalize_upper child_name) parsed.columns)) [
        | inl unknown ↦ (ground arith, inl unknown)
        | inr (child, is_child) ↦
            elim (Option-cases
              (known (get (type_key parent.schema parent.table parent_name) r.entries))) [
                | inl unknown ↦ (ground arith, inr (inl unknown))
                | inr (parent_type, is_parent) ↦
                    elim (Bool-cases (equivalent_type child.type_name parent_type)) [
                      | inl same ↦
                          (ground arith, inr (inr (child, parent_type, is_child, is_parent, same)))
                      | inr other ↦
                          let grown : alignments ++ _ ∷ [] ≡ [] =
                            rw (align_pair, is_child, is_parent, other) at e in
                          absurd (append-nonempty alignments _ grown)
                    ]
              ]
      ]

  align_pairs-quiet :
      (key : ParsedForeignKey) (parent : Qualified) (children parents : List Text)
      (state : List Text × List Alignment)
      → (align_pairs r parsed key parent children parents state).1 ≡ []
      → (state.1 ≡ []) × PairsSettled parent children parents
  unfolding align_pairs
  align_pairs-quiet key parent [] parents state e = (e, tt)
  align_pairs-quiet key parent (child ∷ children) [] state e = (e, tt)
  align_pairs-quiet key parent (child ∷ children) (column ∷ parents) state e =
      let (quiet, settled) =
        align_pairs-quiet key parent children parents
          (align_pair r parsed key parent child column state) e in
      let (start, first) = align_pair-quiet key parent child column state quiet in
      (start, (first, settled))

  pub align_keys-quiet :
      (keys : List ParsedForeignKey) (state : List Text × List Alignment)
      → (align_keys r parsed keys state).1 ≡ []
      → (state.1 ≡ []) × KeysSettled keys
  unfolding align_keys
  align_keys-quiet [] state e = (e, tt)
  align_keys-quiet (key ∷ keys) state e =
      elim (Bool-cases (length key.child_columns == length key.parent_columns)) [
        | inl as_many ↦
            let parent = qualified_upper key.parent_table parsed.schema in
            let (quiet, settled) =
              align_keys-quiet keys
                (align_pairs r parsed key parent key.child_columns key.parent_columns state)
                (ground arith) in
            let (start, first) =
              align_pairs-quiet key parent key.child_columns key.parent_columns state quiet in
            (start, (inr first, settled))
        | inr other ↦
            let (start, settled) = align_keys-quiet keys state (ground arith) in
            (start, (inl other, settled))
      ]
