-- ===== src/Ddl/Serial.antt =====
-- The serial columns of sql/translator.ts: rewritePgSerialTypes and its helpers.
mod Tests
use postgres_mapepire_proxy.Prelude.{
  ℕ, zero, suc, ◌+◌, ◌-◌, List, [], ◌∷◌, ◌++◌, Bool, true, false, ltb, if◌then◌else◌, Option, none,
  some, Text, codes, map, length, take, drop,
}
use postgres_mapepire_proxy.Prelude.Results.{Result, ok, err}
use postgres_mapepire_proxy.Sql.Text.{trim_start, keyword, spaces, or_match, ◌>>=◌}
use postgres_mapepire_proxy.Sql.Scan.{
  first_unquoted_char, matching_paren, split_definition_list, joined,
}
use postgres_mapepire_proxy.Sql.Classifier.{is_word_char}
use postgres_mapepire_proxy.Ddl.Names.{name_at}
use postgres_mapepire_proxy.Ddl.ColumnTypes.{matched, word_ends}
use postgres_mapepire_proxy.Ddl.ForeignKeys.{temporary, word_space, begins_word}

-- The serial types in the order of the pattern, each with its serialReplacement.
abbrev pub serial_types : List (Text × Text)
serial_types =
    (codes "smallserial", codes "SMALLINT")
    ∷ (codes "serial2", codes "SMALLINT")
    ∷ (codes "serial4", codes "INTEGER")
    ∷ (codes "serial8", codes "BIGINT")
    ∷ (codes "bigserial", codes "BIGINT")
    ∷ (codes "serial", codes "INTEGER")
    ∷ []

-- A serial type and `\b`: its replacement, and what stands behind it.
unfoldable pub serial_from : List (Text × Text) → Text → Option (Text × Text)
serial_from [] s = none
serial_from ((word, base) ∷ types) s = elim (keyword word s >>= word_ends) [
  | none ↦ serial_from types s
  | some rest ↦ some (base ++ codes " GENERATED BY DEFAULT AS IDENTITY", rest)
]

-- A name, white space and a serial type behind what begins at `start`: the text from there to the
-- type, the replacement, and the rest.
unfoldable pub serial_after : Text → Text → Option (Text × Text × Text)
serial_after start s = name_at s >>= λ (name, r). spaces r >>= λ t.
    serial_from serial_types t >>= λ (replacement, rest). some (matched start t, replacement, rest)

unfoldable pub serial_column : Text → Option (Text × Text × Text)
serial_column definition = serial_after definition (trim_start definition)

-- `/^\s*(?:CONSTRAINT|PRIMARY|UNIQUE|FOREIGN|CHECK|EXCLUDE)\b/i`
unfoldable pub begins_constraint : Text → Bool
begins_constraint definition =
    begins_word
      (codes "constraint"
        ∷ codes "primary"
        ∷ codes "unique"
        ∷ codes "foreign"
        ∷ codes "check"
        ∷ codes "exclude"
        ∷ [])
      (trim_start definition)

-- isSerialColumnDefinition(definition)
unfoldable pub is_serial_column : Text → Bool
is_serial_column definition =
    if begins_constraint definition
    then false
    else elim (serial_column definition) [ some column ↦ true | none ↦ false ]

-- rewriteSerialColumnDefinition(definition)
unfoldable pub rewrite_serial_column : Text → Text
rewrite_serial_column definition =
    if begins_constraint definition then definition else elim (serial_column definition) [
      | some (prefix, replacement, rest) ↦ prefix ++ replacement ++ rest
      | none ↦ definition
    ]

-- definitions.filter(isSerialColumnDefinition).length
unfoldable pub count_serial : List Text → ℕ
count_serial [] = 0
count_serial (d ∷ ds) = let rest = count_serial ds in if is_serial_column d then suc rest else rest

-- `ADD\s+(?:COLUMN\s+)?` and a serial column, at the front of a text.
unfoldable pub serial_add : Text → Option (Text × Text × Text)
serial_add s = word_space (codes "add") s >>= λ r.
    or_match (word_space (codes "column") r >>= serial_after s) (serial_after s r)

-- The replacement of each `\bADD …` of an ALTER TABLE: the first argument counts the characters of a
-- match that are still to be passed over, the second says that the character before is one of a word.
unfoldable pub replace_adds : ℕ → Bool → Text → Text
replace_adds skip after [] = []
replace_adds (suc skip) after (c ∷ s) = replace_adds skip (is_word_char c) s
replace_adds zero after (c ∷ s) = elim (if after then none else serial_add (c ∷ s)) [
  | none ↦ c ∷ replace_adds 0 (is_word_char c) s
  | some (prefix, replacement, rest) ↦
      prefix ++ replacement ++ replace_adds (length s - length rest) (is_word_char c) s
]

-- `/^\s*create\s+(?:…)?table\b/i` and `/^\s*alter\s+table\b/i`
unfoldable pub is_create_table : Text → Bool
is_create_table sql =
    elim (word_space (codes "create") (trim_start sql) >>= λ r.
    keyword (codes "table") (temporary r) >>= word_ends) [ some rest ↦ true | none ↦ false ]

unfoldable pub is_alter_table : Text → Bool
is_alter_table sql =
    elim (word_space (codes "alter") (trim_start sql) >>= keyword (codes "table") >>= word_ends) [
      | some rest ↦ true
      | none ↦ false
    ]

-- The error of a table with two serial columns, of SQLSTATE 0A000.
pub data SerialError : Type 0 where
  two_identity_columns : SerialError

-- The statement with its definitions rewritten, or the error.
unfoldable pub create_serial : Text → ℕ → ℕ → Result SerialError Text
create_serial sql start close =
    let definitions = split_definition_list (drop (start + 1) (take close sql)) in
    if ltb 1 (count_serial definitions)
    then err two_identity_columns
    else ok
        (take (start + 1) sql ++ joined (map rewrite_serial_column definitions) ++ drop close sql)

-- rewritePgSerialTypes(sql)
unfoldable pub rewrite_serial_types : Text → Result SerialError Text
rewrite_serial_types sql =
    if is_create_table sql
    then elim (first_unquoted_char sql b'(') [
      | none ↦ ok sql
      | some start ↦ elim (matching_paren sql start) [
        | none ↦ ok sql
        | some close ↦ create_serial sql start close
      ]
    ]
    else if is_alter_table sql
    then ok (replace_adds 0 false sql)
    else ok sql
