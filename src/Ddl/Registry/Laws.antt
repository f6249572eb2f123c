-- ===== src/Ddl/Registry/Laws.antt =====
-- The map laws of a registry, and what a transaction does to it.
use postgres_mapepire_proxy.Prelude.{
  ◌≡◌, refl, List, [], ◌∷◌, none, some, if◌then◌else◌, Text, text_eq, text_eq_iff, arith,
}
use postgres_mapepire_proxy.Ddl.Registry.{
  get, put, delete, Registry, begin_transaction, commit_transaction, rollback_transaction,
}

module _ {V : Type 0} where
  pub get-put :
      (k j : Text) (v : V) (m : List (Text × V))
      → get j (put k v m) ≡ (if text_eq k j then some v else get j m)
  unfolding get put
  get-put k j v [] = refl
  get-put k j v ((i, w) ∷ m) =
      ground (arith, text_eq_iff k j, text_eq_iff i k, text_eq_iff i j, get-put k j v m)

  pub get-delete :
      (k j : Text) (m : List (Text × V))
      → get j (delete k m) ≡ (if text_eq k j then none else get j m)
  unfolding get delete
  get-delete k j [] = ground arith
  get-delete k j ((i, w) ∷ m) =
      ground (arith, text_eq_iff k j, text_eq_iff i k, text_eq_iff i j, get-delete k j m)

-- What can happen to a registry inside a transaction: its map changes in any way, and BEGIN may come again.
pub data Edits {V : Type 0} : Registry V → Registry V → Type 0 where
  stays : (r : Registry V) → Edits r r
  changes :
      {r s : Registry V} (m : List (Text × V)) → Edits r s → Edits r (record s { entries = m })
  begins : {r s : Registry V} → Edits r s → Edits r (begin_transaction s)

Edits-snapshot :
    {V : Type 0} {r s : Registry V} (m : List (Text × V))
    → Edits r s
    → r.snapshot ≡ some m
    → s.snapshot ≡ some m
unfolding begin_transaction
Edits-snapshot m (stays r) h = h
Edits-snapshot m (changes n e) h = Edits-snapshot m e h
Edits-snapshot m (begins e) h = ground (arith, Edits-snapshot m e h)

-- A rollback restores the map that the transaction began with, whatever was registered, renamed or
-- deleted in it, also behind a second BEGIN; a commit keeps the changes, and a rollback after it changes
-- nothing.
pub rollback-begin :
    {V : Type 0} (r s : Registry V)
    → r.snapshot ≡ none
    → Edits (begin_transaction r) s
    → ((rollback_transaction s).entries ≡ r.entries)
      × ((rollback_transaction s).snapshot ≡ none)
      × (rollback_transaction (commit_transaction s) ≡ record s { snapshot = none })
unfolding rollback_transaction commit_transaction
rollback-begin r s n e =
    let kept = Edits-snapshot r.entries e (unfold begin_transaction in ground arith) in
    (ground arith, ground arith, refl)
