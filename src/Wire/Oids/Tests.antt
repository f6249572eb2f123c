-- ===== src/Wire/Oids/Tests.antt =====
-- A type that a catalogue names.
use postgres_mapepire_proxy.Prelude.{codes}
use postgres_mapepire_proxy.Wire.Oids.{db2_type_to_pg}
use postgres_mapepire_proxy.Wire.Oids.Catalogue.{IsRow, db2_type_to_pg-IsRow}

db2_type_to_pg-IsRow_example : IsRow (db2_type_to_pg (codes "Decimal(9,2)"))
db2_type_to_pg-IsRow_example = db2_type_to_pg-IsRow (codes "Decimal(9,2)")
