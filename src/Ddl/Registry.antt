-- ===== src/Ddl/Registry.antt =====
-- What DdlForeignKeyTypeRegistry (sql/ddl-foreign-key.ts) and DdlTableDefinitionRegistry
-- (sql/column-rename.ts) share: a Map from keys to what is known, and the snapshot of a transaction.
pub mod Laws
use postgres_mapepire_proxy.Prelude.{
  List, [], ◌∷◌, Option, none, some, if◌then◌else◌, Text, text_eq,
}

module _ {ℓ} {V : Type ℓ} where
  -- map.get(key)
  unfoldable pub get : Text → List (Text × V) → Option V
  get k [] = none
  get k ((j, v) ∷ m) = if text_eq j k then some v else get k m

  -- map.set(key, value): an entry that is there keeps its place.
  unfoldable pub put : Text → V → List (Text × V) → List (Text × V)
  put k v [] = (k, v) ∷ []
  put k v ((j, w) ∷ m) = if text_eq j k then (j, v) ∷ m else (j, w) ∷ put k v m

  -- map.delete(key)
  unfoldable pub delete : Text → List (Text × V) → List (Text × V)
  delete k [] = []
  delete k ((j, w) ∷ m) = let rest = delete k m in if text_eq j k then rest else (j, w) ∷ rest

pub record Registry {ℓ} (V : Type ℓ) : Type ℓ where
  pub entries : List (Text × V)
  pub snapshot : Option (List (Text × V))

-- beginTransaction()
unfoldable pub begin_transaction {ℓ} : {V : Type ℓ} → Registry V → Registry V
begin_transaction r = elim r.snapshot [ none ↦ record r { snapshot = some r.entries } | some m ↦ r ]

-- commitTransaction()
unfoldable pub commit_transaction {ℓ} : {V : Type ℓ} → Registry V → Registry V
commit_transaction r = record r { snapshot = none }

-- rollbackTransaction()
unfoldable pub rollback_transaction {ℓ} : {V : Type ℓ} → Registry V → Registry V
rollback_transaction r = elim r.snapshot [
  | none ↦ r
  | some m ↦ record r { entries = m; snapshot = none }
]

-- clear()
unfoldable pub clear {ℓ} : {V : Type ℓ} → Registry V → Registry V
clear r = record r { entries = []; snapshot = none }
