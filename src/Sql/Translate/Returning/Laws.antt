-- ===== src/Sql/Translate/Returning/Laws.antt =====
-- The columns of an accepted RETURNING.
use postgres_mapepire_proxy.Prelude.{
  ℕ, ◌≡◌, refl, sym, ap, subst, ◌∙◌, [], ◌∷◌, List, Option, none, some, Text, codes, All,
  Bool-cases, inl, inr, text_eq, arith,
}
use postgres_mapepire_proxy.Prelude.Results.{ok, bind-succeeds, ok-injective}
use postgres_mapepire_proxy.Sql.Text.{trim}
use postgres_mapepire_proxy.Sql.Regex.{
  Regex, group, Place, between, Match, exec, group_from, text_from, text_of,
}
use postgres_mapepire_proxy.Sql.Regex.Classes.{maybe, identifier}
use postgres_mapepire_proxy.Sql.Regex.Laws.{Way, some-injective}
use postgres_mapepire_proxy.Sql.Regex.Laws.Texts.{
  Spells, Silent, Way-Reads, Way-Kept, between-Reads,
}
use postgres_mapepire_proxy.Sql.Regex.Laws.Found.{IsFound, exec-IsFound}
use postgres_mapepire_proxy.Sql.Translate.Returning.{
  Column, Returning, alias_pattern, returned, column_of, parse_returning_expression,
  parse_returning_list, returning_of, returning_at, parse_returning, target_words,
}
use postgres_mapepire_proxy.Session.State.{Kind, insert, update, delete}

-- A second group, which may be missing, leaves the first as it is.
behind-first :
    (r : Regex) (t : Text) (groups : List (ℕ × Text)) (p q : Place)
    → Silent r
    → Way (maybe (group 2 r)) p q
    → p.captured ≡ (1, t) ∷ groups
    → text_from 1 q.captured ≡ t
unfolding text_from group_from
behind-first r t groups p q quiet (inl (m, way, e)) first =
    ap (λ (y : Place). text_from 1 y.captured) e
    ∙ ap (text_from 1) (Way-Kept r quiet p m way ∙ first)
behind-first r t groups p q quiet (inr e) first =
    ap (λ (y : Place). text_from 1 y.captured) (sym e) ∙ ap (text_from 1) first

-- The first group of a match is an identifier.
first-Spells : (m : Match) → IsFound returned m → Spells identifier (text_of 1 m)
first-Spells m found =
    let is_way = found.is_way in
    let (_, _, (m1, _, (m2, (m2', name, e2), (m3, alias, e3)))) = is_way.way in
    let (t, read, spelled) = Way-Reads identifier m1 m2' name in
    let first : text_of 1 m ≡ between m1 m2' =
      ap (text_from 1) (is_way.groups ∙ ap (λ (y : Place). y.captured) (sym e3))
      ∙ behind-first alias_pattern _ m2'.captured m2 m3 (omega arith) alias
          (ap (λ (y : Place). y.captured) e2) in
    subst (Spells identifier) (sym (first ∙ between-Reads m1 m2' t read)) spelled

column_of-Spells :
    (expression : Text) (found : Option (Text × Match)) (c : Column)
    → ((front : Text) (m : Match) → found ≡ some (front, m) → IsFound returned m)
    → column_of expression found ≡ ok c
    → Spells identifier c.column
unfolding column_of
column_of-Spells expression none c is_found e = absurd (cc)
column_of-Spells expression (some (front, m)) c is_found e =
    subst (λ (x : Column). Spells identifier x.column) (ok-injective refl e)
      (first-Spells m (is_found front m refl))

expression-Spells :
    (expression : Text) (c : Column)
    → parse_returning_expression expression ≡ ok c
    → Spells identifier c.column
unfolding parse_returning_expression
expression-Spells expression c e = elim (Bool-cases (text_eq expression (codes "*"))) [
  | inl star ↦ absurd (ground arith)
  | inr other ↦
      column_of-Spells expression (exec returned expression) c (exec-IsFound returned expression)
        (sym (rw other refl) ∙ e)
]

-- The columns are identifiers.
abbrev pub AreIdentifiers : List Column → Type 0
AreIdentifiers = All (λ c. Spells identifier c.column)

list-AreIdentifiers :
    (items : List Text) (columns : List Column)
    → parse_returning_list items ≡ ok columns
    → AreIdentifiers columns
unfolding parse_returning_list
list-AreIdentifiers [] columns e = subst AreIdentifiers (ok-injective refl e) tt
list-AreIdentifiers (item ∷ items) columns e =
    let (c, first, e') = bind-succeeds (parse_returning_expression (trim item)) _ e in
    let (cs, rest, last) = bind-succeeds (parse_returning_list items) _ e' in
    subst AreIdentifiers (ok-injective refl last)
      (expression-Spells (trim item) c first, list-AreIdentifiers items cs rest)

returning_of-AreIdentifiers :
    (kind : Kind) (list : Text) (table : Option Text) (info : Returning)
    → returning_of kind list table ≡ ok info
    → AreIdentifiers info.columns
unfolding returning_of
returning_of-AreIdentifiers kind [] table info e = absurd (cc)
returning_of-AreIdentifiers kind (c ∷ list) none info e = absurd (cc)
returning_of-AreIdentifiers kind (c ∷ list) (some []) info e = absurd (cc)
returning_of-AreIdentifiers kind (c ∷ list) (some (d ∷ table)) info e =
    let (columns, found, last) = bind-succeeds (parse_returning_list _) _ e in
    subst (λ (x : Returning). AreIdentifiers x.columns) (ok-injective refl last)
      (list-AreIdentifiers _ columns found)

returning_at-AreIdentifiers :
    (kind : Kind) (words : Regex) (sql : Text) (index : Option ℕ) (info : Returning)
    → returning_at kind words sql index ≡ ok (some info)
    → AreIdentifiers info.columns
unfolding returning_at
returning_at-AreIdentifiers kind words sql none info e = absurd (ground arith)
returning_at-AreIdentifiers kind words sql (some index) info e =
    let (info', found, last) = bind-succeeds (returning_of kind _ _) _ e in
    subst (λ (x : Returning). AreIdentifiers x.columns) (some-injective (ok-injective refl last))
      (returning_of-AreIdentifiers kind _ _ info' found)

-- Where parsePgReturning accepts a RETURNING, each column of it is one identifier, quoted or plain:
-- no expression, no star and no further statement gets into the list that is selected from the
-- changed table.
pub parse_returning-AreIdentifiers :
    (kind : Kind) (sql : Text) (info : Returning)
    → parse_returning kind sql ≡ ok (some info)
    → AreIdentifiers info.columns
unfolding parse_returning target_words
parse_returning-AreIdentifiers insert sql info e = returning_at-AreIdentifiers insert _ sql _ info e
parse_returning-AreIdentifiers update sql info e = returning_at-AreIdentifiers update _ sql _ info e
parse_returning-AreIdentifiers delete sql info e = returning_at-AreIdentifiers delete _ sql _ info e
parse_returning-AreIdentifiers _ sql info e = absurd (ground arith)
