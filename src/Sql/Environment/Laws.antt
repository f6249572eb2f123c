-- ===== src/Sql/Environment/Laws.antt =====
-- The shape of the settings' answers.
use postgres_mapepire_proxy.Prelude.{
  ◌≡◌, refl, ◌⊎◌, List, [], ◌∷◌, ◌++◌, Bool, Option, none, some, true, false, All, length, Text,
  codes, Bool-cases, inl, inr, subst, if◌then◌else◌,
}
use postgres_mapepire_proxy.Sql.Text.{or_match, decimal}
use postgres_mapepire_proxy.Sql.Regex.{Regex, Match, test}
use postgres_mapepire_proxy.Sql.Environment.{
  SyntheticResult, one_text, one_name, first_setting, max_identifier_length, answer_to,
  current_schema, current_setting, current_schemas, schemas_answer, ignored_set, environment_query,
}

-- An answer that the session can send: there is a value for each field in every row, and the tag
-- counts the rows unless there are no fields.
pub record IsAnswer (r : SyntheticResult) : Type 0 where
  pub shaped : All (λ row. length row ≡ length r.fields) r.rows
  pub counted :
      ((length r.fields ≡ 0) × (length r.rows ≡ 0))
      ⊎ (r.tag ≡ codes "SELECT " ++ decimal (length r.rows))

abbrev pub Answers : Option SyntheticResult → Type 0
Answers none = Unit
Answers (some r) = IsAnswer r

one_text-IsAnswer : (name : Text) (value : Text) → IsAnswer (one_text name value)
unfolding one_text decimal
one_text-IsAnswer name value = record { shaped = (refl, tt); counted = inr refl }

one_name-IsAnswer : (name : Text) (value : Text) → IsAnswer (one_name name value)
unfolding one_name decimal
one_name-IsAnswer name value = record { shaped = (refl, tt); counted = inr refl }

schemas_answer-IsAnswer : (schema : Text) (m : Match) → IsAnswer (schemas_answer schema m)
unfolding schemas_answer decimal
schemas_answer-IsAnswer schema m = record { shaped = (refl, tt); counted = inr refl }

or_match-Answers : (a b : Option SyntheticResult) → Answers a → Answers b → Answers (or_match a b)
or_match-Answers none b p q = q
or_match-Answers (some r) b p q = p

answer_to-Answers :
    (found : Option (Text × Match)) (answer : Match → SyntheticResult)
    → ((m : Match) → IsAnswer (answer m))
    → Answers (answer_to found answer)
unfolding answer_to
answer_to-Answers none answer each = tt
answer_to-Answers (some (front, m)) answer each = each m

if-Answers : (b : Bool) (r : SyntheticResult) → IsAnswer r → Answers (if b then some r else none)
if-Answers true r p = p
if-Answers false r p = tt

first_setting-Answers :
    (rows : List (Regex × Text × Text)) (sql : Text) → Answers (first_setting rows sql)
unfolding first_setting
first_setting-Answers [] sql = tt
first_setting-Answers ((pattern, name, value) ∷ rest) sql = elim (Bool-cases (test pattern sql)) [
  | inl found ↦ rw found (one_text-IsAnswer name value)
  | inr missed ↦ rw missed (first_setting-Answers rest sql)
]

max_identifier_length-Answers : (sql : Text) → Answers (max_identifier_length sql)
unfolding max_identifier_length decimal
max_identifier_length-Answers sql =
    if-Answers _ _ (record { shaped = (refl, tt); counted = inr refl })

ignored_set-Answers : (sql : Text) → Answers (ignored_set sql)
unfolding ignored_set
ignored_set-Answers sql = if-Answers _ _ (record { shaped = tt; counted = inl (refl, refl) })

-- Every answer of environmentQuery, whatever the statement, can be sent: it has one value for each
-- field in every row, and its tag counts its rows, unless it is the SET that has neither.
pub environment_query-IsAnswer :
    (sql database schema version : Text) (r : SyntheticResult)
    → environment_query sql database schema version ≡ some r
    → IsAnswer r
unfolding environment_query current_schema current_setting current_schemas
environment_query-IsAnswer sql database schema version r e = subst Answers e (
    or_match-Answers _ _ (max_identifier_length-Answers _) (
      or_match-Answers _ _ (first_setting-Answers _ _) (
        or_match-Answers _ _ (answer_to-Answers _ _ (λ m. one_name-IsAnswer _ _)) (
          or_match-Answers _ _ (answer_to-Answers _ _ (λ m. one_text-IsAnswer _ _)) (
            or_match-Answers _ _ (answer_to-Answers _ _ (schemas_answer-IsAnswer schema))
              (ignored_set-Answers _))))))
