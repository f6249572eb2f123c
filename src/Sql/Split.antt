-- ===== src/Sql/Split.antt =====
-- splitSimpleStatements (proxy/session.ts): the statements of a simple query, cut at semicolons
-- outside quotes.
pub mod Laws
use postgres_mapepire_proxy.Prelude.{
  ℕ, ◌==◌, List, [], ◌∷◌, ◌++◌, Bool, true, false, not, ◌&&◌, ◌||◌, if◌then◌else◌, Text,
}
use postgres_mapepire_proxy.Sql.Text.{trim}

-- `if (part) statements.push(part)`, in front of what follows.
abbrev pub push : Text → List Text → List Text
push [] statements = statements
push (c ∷ part) statements = (c ∷ part) ∷ statements

-- The loop, with `inSingle`, `inDouble` and the text from `start` on.
unfoldable pub split_from : Bool → Bool → Text → Text → List Text
split_from single double part [] = push (trim part) []
split_from single double part (c ∷ []) =
    if c == b';' && (not single && not double)
    then push (trim part) []
    else push (trim (part ++ c ∷ [])) []
split_from single double part (c ∷ d ∷ rest) =
    let doubled = split_from single double (part ++ c ∷ d ∷ []) rest in
    let kept = split_from single double (part ++ c ∷ []) (d ∷ rest) in
    let quoted = split_from (not single) double (part ++ c ∷ []) (d ∷ rest) in
    let named = split_from single (not double) (part ++ c ∷ []) (d ∷ rest) in
    let next = split_from single double [] (d ∷ rest) in
    if c == 39 && not double
    then (if single && d == 39 then doubled else quoted)
    else if c == 34 && not single
    then (if double && d == 34 then doubled else named)
    else if c == b';' && (not single && not double)
    then push (trim part) next
    else kept

-- splitSimpleStatements(sql)
unfoldable pub split_simple_statements : Text → List Text
split_simple_statements sql = split_from false false [] sql
