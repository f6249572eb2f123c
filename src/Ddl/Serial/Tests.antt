-- ===== src/Ddl/Serial/Tests.antt =====
-- Serial columns on concrete statements.
use postgres_mapepire_proxy.Prelude.{◌≡◌, refl, codes}
use postgres_mapepire_proxy.Prelude.Results.{ok, err}
use postgres_mapepire_proxy.Ddl.Serial.{
  rewrite_serial_types, is_create_table, is_alter_table, create_serial, count_serial,
  begins_constraint, is_serial_column, rewrite_serial_column, serial_after, serial_column,
  serial_from, replace_adds, serial_add, two_identity_columns,
}
use postgres_mapepire_proxy.Ddl.ForeignKeys.{word_space, temporary, begins_word}
use postgres_mapepire_proxy.Sql.Text.{keyword, trim_start, is_space, lower, spaces}
use postgres_mapepire_proxy.Sql.Scan.{
  first_unquoted_char, first_from, marks, matching_paren, match_from, split_definition_list,
  definitions_from,
}
use postgres_mapepire_proxy.Ddl.ColumnTypes.{matched}
use postgres_mapepire_proxy.Ddl.Names.{name_at, name_parts}

-- The name of a column that is called like a serial type stays.
create_run :
    rewrite_serial_types (codes "create table t (serial Serial, unique (n))")
    ≡ ok (codes "create table t (serial INTEGER GENERATED BY DEFAULT AS IDENTITY, unique (n))")
unfolding rewrite_serial_types is_create_table create_serial count_serial begins_constraint
    is_serial_column rewrite_serial_column serial_after serial_column serial_from word_space
    temporary begins_word keyword trim_start is_space lower spaces first_unquoted_char first_from
    marks matching_paren match_from split_definition_list definitions_from matched name_at
    name_parts
create_run = refl

create_twice :
    rewrite_serial_types (codes "create table t (a serial, b serial8)") ≡ err two_identity_columns
unfolding rewrite_serial_types is_create_table create_serial count_serial begins_constraint
    is_serial_column rewrite_serial_column serial_after serial_column serial_from word_space
    temporary begins_word keyword trim_start is_space lower spaces first_unquoted_char first_from
    marks matching_paren match_from split_definition_list definitions_from matched name_at
    name_parts
create_twice = refl

alter_run :
    rewrite_serial_types (codes "alter table t add column serial2 serial2, ADD n int")
    ≡ ok (
        codes
          "alter table t add column serial2 SMALLINT GENERATED BY DEFAULT AS IDENTITY, ADD n int")
unfolding rewrite_serial_types is_create_table is_alter_table replace_adds serial_add serial_after
    serial_from word_space keyword trim_start is_space lower spaces matched name_at name_parts
alter_run = refl
