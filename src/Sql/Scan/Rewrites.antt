-- ===== src/Sql/Scan/Rewrites.antt =====
-- Two rewrites of translateSql in sql/translator.ts: the `$n` placeholders, and a SELECT EXISTS.
use postgres_mapepire_proxy.Prelude.{
  ℕ, zero, suc, ◌+◌, ◌*◌, ◌-◌, ◌==◌, List, [], ◌∷◌, ◌++◌, if◌then◌else◌, Option, none, some, Text,
  codes, length, take, drop,
}
use postgres_mapepire_proxy.Sql.Text.{trim_start, keyword, spaces, is_digit, ◌>>=◌}
use postgres_mapepire_proxy.Sql.Scan.{matching_paren}
use postgres_mapepire_proxy.Ddl.ColumnTypes.{mark_at}

-- `(\d+)`, where it begins.
unfoldable pub leading_digits : Text → Text
leading_digits [] = []
leading_digits (c ∷ s) = let rest = leading_digits s in if is_digit c then c ∷ rest else []

-- Number(n) of digits; JavaScript's is exact below 2^53.
unfoldable pub number_of : ℕ → Text → ℕ
number_of read [] = read
number_of read (c ∷ s) = number_of (read * 10 + (c - b'0')) s

-- The replacement of `/\$(\d+)/g`: the text, and the numbers in the order of the text. The first
-- argument counts the digits of a placeholder that are still to be passed over.
unfoldable pub placeholders_from : ℕ → Text → Text × List ℕ
placeholders_from skip [] = ([], [])
placeholders_from (suc skip) (c ∷ s) = placeholders_from skip s
placeholders_from zero (c ∷ s) =
    let digits = leading_digits s in
    let (sql, order) = placeholders_from 0 s in
    let (behind, numbers) = placeholders_from (length digits) s in
    if c == b'$'
    then elim digits [
      | [] ↦ (c ∷ sql, order)
      | d ∷ ds ↦ (b'?' ∷ behind, number_of 0 (d ∷ ds) ∷ numbers)
    ]
    else (c ∷ sql, order)

-- The statement with `?` for its placeholders, and parameterOrder.
unfoldable pub replace_placeholders : Text → Text × List ℕ
replace_placeholders sql = placeholders_from 0 sql

-- sql.indexOf('(')
unfoldable pub index_of_paren : ℕ → Text → Option ℕ
index_of_paren i [] = none
index_of_paren i (c ∷ s) = if c == b'(' then some i else index_of_paren (i + 1) s

-- `/^\s*select\s+exists\s*\(/i`
unfoldable pub exists_at : Text → Option Text
exists_at sql =
    keyword (codes "select") (trim_start sql)
    >>= spaces
    >>= keyword (codes "exists")
    >>= mark_at b'('

-- The statement around the subquery between the parentheses at `start` and `close`.
unfoldable pub exists_as_case : Text → ℕ → ℕ → Text
exists_as_case sql start close =
    codes "SELECT CASE WHEN EXISTS ("
    ++ drop (start + 1) (take close sql)
    ++ codes ") THEN 1 ELSE 0 END"
    ++ drop (close + 1) sql

-- rewriteTopLevelExists(sql)
unfoldable pub rewrite_top_level_exists : Text → Text
rewrite_top_level_exists sql = elim (exists_at sql) [
  | none ↦ sql
  | some rest ↦ elim (index_of_paren 0 sql) [
    | none ↦ sql
    | some start ↦ elim (matching_paren sql start) [
      | none ↦ sql
      | some close ↦ exists_as_case sql start close
    ]
  ]
]
