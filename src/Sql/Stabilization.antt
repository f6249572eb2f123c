-- ===== src/Sql/Stabilization.antt =====
-- mapepire/object-stabilization.ts: the errors of a table that is being rebuilt, and how long the
-- session waits before it tries again.
pub mod Laws
use postgres_mapepire_proxy.Prelude.{
  ℕ, ◌*◌, ◌-◌, ◌^◌, ◌==◌, [], ◌∷◌, ◌++◌, Bool, true, false, not, ◌&&◌, if◌then◌else◌, Option, none,
  some, Text, codes, ltb, length, text_eq,
}
use postgres_mapepire_proxy.Sql.Text.{is_space, is_digit}
use postgres_mapepire_proxy.Sql.Regex.{
  Regex, one, ◌~◌, ◌<|>◌, group, at_end, boundary, Match, exec, test, group_of, text_of,
}
use postgres_mapepire_proxy.Sql.Regex.Classes.{text, word, plus, maybe, blanks, spaces1, identifier}
use postgres_mapepire_proxy.Ddl.Names.{normalize_upper, normalize_identifier}

-- The target's name, the second one if there are two.
unfoldable pub target_of : Match → Text
target_of m = elim (group_of 2 m) [ none ↦ text_of 1 m | some name ↦ name ]

-- ddlTargetName(sql)
unfoldable pub ddl_target_name : Text → Option Text
ddl_target_name sql =
    elim (exec
      (boundary
        ~ (word (codes "alter") ~ spaces1 ~ word (codes "table")
            <|> word (codes "create")
              ~ spaces1
              ~ maybe (word (codes "or") ~ spaces1 ~ word (codes "replace") ~ spaces1)
              ~ word (codes "table")
            <|> word (codes "rename") ~ spaces1 ~ word (codes "table"))
        ~ spaces1
        ~ group 1 identifier
        ~ maybe (blanks ~ text (codes ".") ~ blanks ~ group 2 identifier))
      sql) [ none ↦ none | some (front, m) ↦ some (normalize_identifier (target_of m)) ]

-- `missing.length === 10 && /\d{4,5}$/.test(missing)`
unfoldable pub looks_generated : Text → Bool
looks_generated name =
    let digit = one is_digit in
    length name == 10 && test (digit ~ digit ~ digit ~ digit ~ maybe digit ~ at_end) name

abbrev pub not_space : Regex
not_space = plus (one (λ c. not (is_space c)))

-- `\[SQL0204\]\s+([^\s]+)\s+in\s+([^\s]+)\s+type\s+\*FILE\s+not\s+found`
abbrev pub missing_file : Regex
missing_file =
    word (codes "[sql0204]")
    ~ spaces1
    ~ group 1 not_space
    ~ spaces1
    ~ word (codes "in")
    ~ spaces1
    ~ group 2 not_space
    ~ spaces1
    ~ word (codes "type")
    ~ spaces1
    ~ word (codes "*file")
    ~ spaces1
    ~ word (codes "not")
    ~ spaces1
    ~ word (codes "found")

-- The object that is missing is not the target, and has a generated name.
unfoldable pub is_generated_for : Text → Text → Bool
is_generated_for missing target =
    looks_generated (normalize_upper missing)
    && not (text_eq (normalize_upper missing) (normalize_upper target))

-- isTransientIbmiObjectStateError(error, sql), on the text of the error
unfoldable pub is_transient_error : Text → Text → Bool
is_transient_error message sql =
    if test (boundary ~ word (codes "sql0443") ~ boundary) message
      && test
          (boundary
            ~ word (codes "file")
            ~ spaces1
            ~ word (codes "not")
            ~ spaces1
            ~ word (codes "found")
            ~ spaces1
            ~ word (codes "yet")
            ~ boundary)
          message
    then true
    else if not (
        test (boundary ~ word (codes "sql0204") ~ boundary) message
        && test
            (boundary
              ~ word (codes "type")
              ~ spaces1
              ~ word (codes "*file")
              ~ spaces1
              ~ word (codes "not")
              ~ spaces1
              ~ word (codes "found")
              ~ boundary)
            message)
    then false
    else elim (exec missing_file message) [
      | none ↦ false
      | some (front, m) ↦ elim (ddl_target_name sql) [
        | none ↦ false
        | some [] ↦ false
        | some (c ∷ target) ↦ is_generated_for (text_of 1 m) (c ∷ target)
      ]
    ]

abbrev min : ℕ → ℕ → ℕ
min a b = if ltb a b then a else b

abbrev max : ℕ → ℕ → ℕ
max a b = if ltb a b then b else a

-- ibmiObjectStabilizationDelayMs(attempt)
unfoldable pub stabilization_delay : ℕ → ℕ
stabilization_delay attempt = min 800 (50 * 2 ^ min (max 1 attempt - 1) 4)
