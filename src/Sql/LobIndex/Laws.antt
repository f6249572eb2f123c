-- ===== src/Sql/LobIndex/Laws.antt =====
-- When an index is left out.
use postgres_mapepire_proxy.Prelude.{List, [], ◌∷◌, false, ◌≡◌, ◌≢◌, refl, arith}
use postgres_mapepire_proxy.Sql.LobIndex.{
  PgSimpleIndex, ColumnType, Policy, skip_index, refuse_index, skip, lob_columns, decide_lob_index,
}

-- An index is skipped only if it is not unique, the policy is to skip, and some column is a LOB.
pub decide-skip :
    (index : PgSimpleIndex) (column_types : List ColumnType) (policy : Policy)
    → (decide_lob_index index column_types policy).0 ≡ skip
    → (index.unique ≡ false) × (policy ≡ skip_index) × (lob_columns column_types ≢ [])
unfolding decide_lob_index
decide-skip index column_types policy e = go (lob_columns column_types) refl policy refl
  where
    go :
        (found : List ColumnType)
        → lob_columns column_types ≡ found
        → (p : Policy) → policy ≡ p
        → (index.unique ≡ false) × (policy ≡ skip_index) × (lob_columns column_types ≢ [])
    go [] f p g = absurd (ground arith)
    go (entry ∷ found) f skip_index g = (ground arith, g, λ none. cc)
    go (entry ∷ found) f refuse_index g = absurd (ground arith)
