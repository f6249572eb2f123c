-- ===== src/Sql/Catalog/Laws.antt =====
-- The shape of the catalogue's answers.
use postgres_mapepire_proxy.Prelude.{
  ◌≡◌, ◌⊎◌, refl, List, [], ◌∷◌, some, All, length, Text, map, inl, inr, arith,
}
use postgres_mapepire_proxy.Sql.Text.{decimal}
use postgres_mapepire_proxy.Sql.Environment.{SyntheticResult, environment_query}
use postgres_mapepire_proxy.Sql.Environment.Laws.{IsAnswer, environment_query-IsAnswer}
use postgres_mapepire_proxy.Sql.Catalog.{type_row, no_extension, all_types, synthetic_catalog}
use postgres_mapepire_proxy.Wire.Oids.{PgType, synthetic_pg_types}

no_extension-IsAnswer : IsAnswer no_extension
unfolding no_extension decimal
no_extension-IsAnswer = record { shaped = tt; counted = inr refl }

type_row-length : (ts : List PgType) → All (λ row. length row ≡ 5) (map type_row ts)
unfolding type_row
type_row-length [] = tt
type_row-length (t ∷ ts) = (refl, type_row-length ts)

all_types-IsAnswer : IsAnswer all_types
unfolding all_types
all_types-IsAnswer = record { shaped = type_row-length synthetic_pg_types; counted = inr refl }

synthetic_catalog-IsAnswer :
    (sql : Text) (r : SyntheticResult) → synthetic_catalog sql ≡ some r → IsAnswer r
unfolding synthetic_catalog
synthetic_catalog-IsAnswer sql r e = ground (arith, no_extension-IsAnswer, all_types-IsAnswer)

-- Every answer of environmentQuery and of syntheticCatalog, whatever the statement, can be sent: it
-- has one value for each field in every row, and its tag counts its rows, unless it is the SET that
-- has neither.
pub resolved-IsAnswer :
    (sql database schema version : Text) (r : SyntheticResult)
    → (environment_query sql database schema version ≡ some r) ⊎ (synthetic_catalog sql ≡ some r)
    → IsAnswer r
resolved-IsAnswer sql database schema version r (inl e) =
    environment_query-IsAnswer sql database schema version r e
resolved-IsAnswer sql database schema version r (inr e) = synthetic_catalog-IsAnswer sql r e
