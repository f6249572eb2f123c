-- ===== src/Sql/Tests.antt =====
-- Quoted names and savepoint commands on concrete texts.
use postgres_mapepire_proxy.Prelude.{
  ℕ, ◌≡◌, refl, List, [], ◌∷◌, true, false, none, some, codes, ◌==◌,
}
use postgres_mapepire_proxy.Ddl.Registry.{get}
use postgres_mapepire_proxy.Sql.Locks.{Locks, release_all}
use postgres_mapepire_proxy.Sql.Locks.Laws.{release_all_lem}
use postgres_mapepire_proxy.Sql.Text.{is_space}
use postgres_mapepire_proxy.Sql.Identifier.{quote_identifier, decode_pg_identifier, is_identifier}
use postgres_mapepire_proxy.Sql.Identifier.RoundTrip.{decode-quote}
use postgres_mapepire_proxy.Sql.Savepoint.{
  release, rollback_to, parse_savepoint_command, translate_savepoint,
}
use postgres_mapepire_proxy.Sql.Savepoint.Laws.{parse_savepoint_spaced, parse-translate}

-- A name that holds a quote and a space.
abbrev odd_name : List ℕ
odd_name = b'a' ∷ 34 ∷ b' ' ∷ b'B' ∷ []

decode-quote_example :
    (is_identifier (quote_identifier odd_name) ≡ true)
    × (decode_pg_identifier (quote_identifier odd_name) ≡ odd_name)
decode-quote_example = decode-quote odd_name

parse_savepoint_spaced_example : parse_savepoint_command (codes "RELEASE SAVEPOINT sp ;") ≡ none
parse_savepoint_spaced_example =
    parse_savepoint_spaced b'R' (codes "ELEASE SAVEPOINT sp") (unfold is_space in refl)

parse-translate_example :
    (parse_savepoint_command
        (translate_savepoint (record { action = release; name = codes "s\"p" }))
      ≡ some (record { action = release; name = codes "s\"p" }))
    × (parse_savepoint_command
          (translate_savepoint (record { action = rollback_to; name = codes "s\"p" }))
        ≡ some (record { action = rollback_to; name = codes "s\"p" }))
parse-translate_example = parse-translate (codes "s\"p") (unfold is_space in refl)

-- One key is held twice by session 1, and another one by session 2.
abbrev two_held : Locks
two_held =
    (codes "bigint:7", record { owner = 1; count = 2 })
    ∷ (codes "bigint:8", record { owner = 2; count = 1 })
    ∷ []

release_all_lem_example :
    (get (codes "bigint:8") (release_all 1 two_held).0 ≡ some (record { owner = 2; count = 1 })
      → (2 == 1) ≡ false)
    × (get (codes "bigint:8") two_held ≡ some (record { owner = 2; count = 1 })
        → (2 == 1) ≡ false
        → get (codes "bigint:8") (release_all 1 two_held).0
          ≡ some (record { owner = 2; count = 1 }))
release_all_lem_example =
    release_all_lem (codes "bigint:8") 1 two_held (record { owner = 2; count = 1 })
