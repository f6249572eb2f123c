-- ===== src/Ddl/TypeRegistry/Renames.antt =====
-- The registry as the abstract map of what is known of each column, and a rename of a column in it.
use postgres_mapepire_proxy.Prelude.{
  ◌≡◌, refl, [], ◌∷◌, Option, none, some, if◌then◌else◌, Text, text_eq,
}
use postgres_mapepire_proxy.Ddl.Registry.{get, delete}
use postgres_mapepire_proxy.Ddl.Registry.Laws.{get-put, get-delete}
use postgres_mapepire_proxy.Ddl.Names.{Qualified, qualified_upper}
use postgres_mapepire_proxy.Ddl.TypeRegistry.{Types, type_key, known, rename_column}

-- What a client may know: the type of each key, if any.
abbrev pub Knowledge : Type 0
Knowledge = Text → Option Text

-- The registry, as what it knows.
abbrev pub knows : Types → Knowledge
knows r = λ key. get key r.entries

-- A rename of keys: the type goes from the old key to the new one, where one is known.
abbrev pub renamed : Text → Text → Knowledge → Knowledge
renamed old new m key = elim (known (m old)) [
  | none ↦ m key
  | some t ↦ if text_eq new key then some t else if text_eq old key then none else m key
]

-- renameColumn is the abstract rename of the two keys of the column, which the table's name and the
-- two columns' names give in every spelling, and the snapshot of a transaction is kept.
pub rename_column_refines :
    (table_name old_column new_column current_schema : Text) (r : Types) (key : Text)
    → let table = qualified_upper table_name current_schema in
      (knows (rename_column table_name old_column new_column current_schema r) key
        ≡ renamed
            (type_key table.schema table.table old_column)
            (type_key table.schema table.table new_column)
            (knows r)
            key)
      × ((rename_column table_name old_column new_column current_schema r).snapshot ≡ r.snapshot)
unfolding rename_column
rename_column_refines table_name old_column new_column current_schema r key =
    go (get old r.entries) refl
  where
    table : Qualified
    table = qualified_upper table_name current_schema

    old : Text
    old = type_key table.schema table.table old_column

    new : Text
    new = type_key table.schema table.table new_column

    go :
        (found : Option Text)
        → get old r.entries ≡ found
        → (knows (rename_column table_name old_column new_column current_schema r) key
            ≡ renamed old new (knows r) key)
          × ((rename_column table_name old_column new_column current_schema r).snapshot
              ≡ r.snapshot)
    go none e = (rw (rename_column, renamed, e), rw (rename_column, e))
    go (some []) e = (rw (rename_column, renamed, e), rw (rename_column, e))
    go (some (c ∷ t)) e = (
      rw (rename_column, renamed, e)
          (rw (get-put new key (c ∷ t) (delete old r.entries), get-delete old key r.entries)),
      rw (rename_column, e),
    )
