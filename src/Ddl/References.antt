-- ===== src/Ddl/References.antt =====
-- replaceIdentifierReferences (sql/column-rename.ts): the names of a text that are the old column's are
-- replaced. The index and the inner loops are modes of one loop; `read` is the token so far.
pub mod Tokens
pub mod Laws
mod Tests
use postgres_mapepire_proxy.Prelude.{
  ℕ, ◌==◌, List, [], ◌∷◌, ◌++◌, Bool, true, false, ◌&&◌, if◌then◌else◌, Text, text_eq,
}
use postgres_mapepire_proxy.Sql.Identifier.{is_word_start}
use postgres_mapepire_proxy.Ddl.Names.{normalize_identifier, is_name_part}

-- Where the loop is: between tokens, inside a literal, inside a quoted name, inside a word.
pub data Mode : Type 0 where
  between : Mode
  literal : Mode
  quoted : Text → Mode
  word : Text → Mode

-- `normalizeIdentifier(token) === oldNormalized ? newSql : token`
unfoldable pub replaced : Text → Text → Text → Text
replaced old new token = if text_eq (normalize_identifier token) old then new else token

module _ (old new : Text) where
  -- The rest of the text from a mode on.
  unfoldable pub replace_from : Mode → Text → Text
  replace_from between [] = []
  replace_from literal [] = []
  replace_from (quoted read) [] = replaced old new read
  replace_from (word read) [] = replaced old new read
  replace_from between (c ∷ s) =
      let string = c ∷ replace_from literal s in
      let name = replace_from (quoted (c ∷ [])) s in
      let token = replace_from (word (c ∷ [])) s in
      let next = c ∷ replace_from between s in
      if c == 39
      then string
      else if c == b'"'
      then name
      else if is_word_start c
      then token
      else next
  replace_from literal (c ∷ []) = c ∷ []
  replace_from literal (c ∷ d ∷ s) =
      let doubled = c ∷ d ∷ replace_from literal s in
      let ends = c ∷ replace_from between (d ∷ s) in
      let next = c ∷ replace_from literal (d ∷ s) in
      if c == 39 then (if d == 39 then doubled else ends) else next
  replace_from (quoted read) (c ∷ []) = replaced old new (read ++ c ∷ [])
  replace_from (quoted read) (c ∷ d ∷ s) =
      let doubled = replace_from (quoted (read ++ c ∷ d ∷ [])) s in
      let ends = replaced old new (read ++ c ∷ []) ++ replace_from between (d ∷ s) in
      let next = replace_from (quoted (read ++ c ∷ [])) (d ∷ s) in
      if c == b'"' then (if d == b'"' then doubled else ends) else next
  replace_from (word read) (c ∷ s) =
      let longer = replace_from (word (read ++ c ∷ [])) s in
      let string = replaced old new read ++ c ∷ replace_from literal s in
      let name = replaced old new read ++ replace_from (quoted (c ∷ [])) s in
      let next = replaced old new read ++ c ∷ replace_from between s in
      if is_name_part c
      then longer
      else if c == 39
      then string
      else if c == b'"'
      then name
      else next

  -- replaceIdentifierReferences(text, oldNormalized, newSql)
  unfoldable pub replace_identifier_references : Text → Text
  replace_identifier_references text = replace_from between text
