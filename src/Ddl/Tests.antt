-- ===== src/Ddl/Tests.antt =====
-- A registry through a transaction.
use postgres_mapepire_proxy.Prelude.{◌≡◌, refl, [], ◌∷◌, none, Text, codes}
use postgres_mapepire_proxy.Ddl.Registry.{
  Registry, begin_transaction, commit_transaction, rollback_transaction,
}
use postgres_mapepire_proxy.Ddl.Registry.Laws.{stays, changes, rollback-begin}

-- One table is known, and a second one is registered in the transaction.
abbrev one_table : Registry Text
one_table = record { entries = (codes "T", codes "DEF") ∷ []; snapshot = none }

abbrev second_table : Registry Text
second_table = record (begin_transaction one_table) {
  entries = (codes "T", codes "DEF") ∷ (codes "U", codes "NEW") ∷ [];
}

rollback-begin_example :
    ((rollback_transaction second_table).entries ≡ (codes "T", codes "DEF") ∷ [])
    × ((rollback_transaction second_table).snapshot ≡ none)
    × (rollback_transaction (commit_transaction second_table)
        ≡ record second_table { snapshot = none })
rollback-begin_example = rollback-begin one_table second_table refl (
    changes ((codes "T", codes "DEF") ∷ (codes "U", codes "NEW") ∷ [])
      (stays (begin_transaction one_table)))
