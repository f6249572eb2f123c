-- ===== src/Sql/Savepoint.antt =====
-- sql/transactions.ts: the savepoint commands of PostgreSQL and their Db2 form.
pub mod Laws
use postgres_mapepire_proxy.Prelude.{
  List, [], ◌∷◌, ◌++◌, Bool, true, false, Option, none, some, if◌then◌else◌, Text, codes,
}
use postgres_mapepire_proxy.Sql.Text.{
  trim, cut_semicolon, collapse, keyword, spaces, or_match, ◌>>=◌,
}
use postgres_mapepire_proxy.Sql.Identifier.{is_identifier, decode_pg_identifier, quote_identifier}

-- SavepointAction
pub data Action : Type 0 where
  savepoint release rollback_to : Action

-- PgSavepointCommand
pub record Command : Type 0 where
  pub action : Action
  pub name : Text

-- `IDENTIFIER$`
pub identifier : Action → Text → Option Command
identifier action token =
    if is_identifier token
    then some (record { action = action; name = decode_pg_identifier token })
    else none

-- `\s+IDENTIFIER$`
pub named : Action → Text → Option Command
named action s = do token ← spaces s; identifier action token

-- `(?:\s+SAVEPOINT)?\s+IDENTIFIER$`, the optional word tried first.
pub optional_word : Action → Text → Option Command
optional_word action s =
    or_match (do rest ← spaces s; behind ← keyword (codes "savepoint") rest; named action behind)
      (named action s)

-- The three matches on the compact text, in their order.
unfoldable pub match_savepoint : Text → Option Command
match_savepoint compact =
    or_match (do rest ← keyword (codes "savepoint") compact; named savepoint rest)
      (or_match (do rest ← keyword (codes "release") compact; optional_word release rest)
        (do
          rest ← keyword (codes "rollback") compact
          behind ← spaces rest
          tail ← keyword (codes "to") behind
          optional_word rollback_to tail))

-- parsePgSavepointCommand(sql)
unfoldable pub parse_savepoint_command : Text → Option Command
parse_savepoint_command sql = match_savepoint (collapse (cut_semicolon (trim sql)))

-- translatePgSavepointToDb2(command)
unfoldable pub translate_savepoint : Command → Text
translate_savepoint c = elim c.action [
  | savepoint ↦
      codes "SAVEPOINT " ++ (quote_identifier c.name ++ codes " ON ROLLBACK RETAIN CURSORS")
  | release ↦ codes "RELEASE SAVEPOINT " ++ quote_identifier c.name
  | rollback_to ↦ codes "ROLLBACK TO SAVEPOINT " ++ quote_identifier c.name
]

-- savepointCommandTag(action)
unfoldable pub savepoint_command_tag : Action → Text
savepoint_command_tag savepoint = codes "SAVEPOINT"
savepoint_command_tag release = codes "RELEASE"
savepoint_command_tag rollback_to = codes "ROLLBACK"
