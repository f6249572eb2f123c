-- ===== src/Sql/Translate/Errors.antt =====
-- What the translation throws: of SQLSTATE 42601 for an empty list of RETURNING, and else 0A000.
use postgres_mapepire_proxy.Prelude.{Text}
use postgres_mapepire_proxy.Ddl.Serial.{SerialError}

pub data TranslateError : Type 0 where
  multiple_statements alter_type_using alter_type_collate : TranslateError
  returning_nothing returning_no_table returning_star : TranslateError
  returning_expression : Text → TranslateError
  serial_columns : SerialError → TranslateError
