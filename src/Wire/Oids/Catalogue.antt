-- ===== src/Wire/Oids/Catalogue.antt =====
-- The types of columns against the rows of pg_type that the proxy shows.
use postgres_mapepire_proxy.Prelude.{
  ℕ, Bool, true, false, some, get_elem?, Text, map, if◌then◌else◌, ◌≡◌, refl,
}
use postgres_mapepire_proxy.Sql.Text.{trim, upper}
use postgres_mapepire_proxy.Wire.Oids.{PgType, type_of_name, db2_type_to_pg, synthetic_pg_types}

-- A row of pg_type.
abbrev pub IsRow : PgType → Type 0
IsRow t = (n : ℕ) × (get_elem? synthetic_pg_types n ≡ some t)

branch : (b : Bool) {t u : PgType} → IsRow t → IsRow u → IsRow (if b then t else u)
branch true h k = h
branch false h k = k

type_of_name-IsRow : (t : Text) → IsRow (type_of_name t)
unfolding type_of_name
type_of_name-IsRow t =
    branch _ (0, refl)
      (branch _ (4, refl)
        (branch _ (6, refl)
          (branch _ (3, refl)
            (branch _ (17, refl)
              (branch _ (10, refl)
                (branch _ (11, refl)
                  (branch _ (14, refl)
                    (branch _ (15, refl)
                      (branch _ (16, refl)
                        (branch _ (1, refl)
                          (branch _ (12, refl)
                            (branch _ (7, refl) (branch _ (13, refl) ((7, refl)))))))))))))))

-- Whatever the name of a Db2 type, the PostgreSQL type that a column of it is described with is a row of
-- the pg_type that the proxy shows, with that name and that size.
pub db2_type_to_pg-IsRow : (type_name : Text) → IsRow (db2_type_to_pg type_name)
unfolding db2_type_to_pg
db2_type_to_pg-IsRow type_name = type_of_name-IsRow (trim (map upper type_name))
