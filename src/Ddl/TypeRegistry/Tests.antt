-- ===== src/Ddl/TypeRegistry/Tests.antt =====
-- A parent table, and a child table whose key column is aligned with it.
use postgres_mapepire_proxy.Prelude.{◌≡◌, [], ◌∷◌, none, Text, codes, ◌⊎◌}
use postgres_mapepire_proxy.Ddl.Names.{qualified_upper}
use postgres_mapepire_proxy.Ddl.TypeRegistry.{Types, type_key, rename_column}
use postgres_mapepire_proxy.Ddl.TypeRegistry.Renames.{knows, renamed, rename_column_refines}
use postgres_mapepire_proxy.Ddl.TypeRegistry.Align.{align_create_table}
use postgres_mapepire_proxy.Ddl.TypeRegistry.Align.Frame.{
  IsAligned, IsQuiet, align_create_table-AllRetyped,
}

-- The type of PARENT.ID is known in the schema APP.
abbrev parent_known : Types
parent_known = record {
  entries = (codes "APP.PARENT.ID", codes "VARCHAR(36)") ∷ [];
  snapshot = none;
}

abbrev child : Text
child =
    codes "CREATE TABLE child (pid VARCHAR(255) NOT NULL, FOREIGN KEY (pid) REFERENCES parent (id))"

rename_column_refines_example :
    let table = qualified_upper (codes "parent") (codes "app") in
    (knows
        (rename_column (codes "parent") (codes "id") (codes "uid") (codes "app") parent_known)
        (codes "APP.PARENT.UID")
      ≡ renamed
          (type_key table.schema table.table (codes "id"))
          (type_key table.schema table.table (codes "uid"))
          (knows parent_known)
          (codes "APP.PARENT.UID"))
    × ((rename_column
          (codes "parent")
          (codes "id")
          (codes "uid")
          (codes "app")
          parent_known).snapshot
        ≡ none)
rename_column_refines_example =
    rename_column_refines (codes "parent") (codes "id") (codes "uid") (codes "app") parent_known
      (codes "APP.PARENT.UID")

align_create_table-AllRetyped_example :
    ((align_create_table child (codes "app") parent_known ≡ (child, []))
      × IsQuiet child (codes "app") parent_known)
    ⊎ IsAligned child (align_create_table child (codes "app") parent_known).0
align_create_table-AllRetyped_example =
    align_create_table-AllRetyped child (codes "app") parent_known
