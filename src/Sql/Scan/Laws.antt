-- ===== src/Sql/Scan/Laws.antt =====
-- What the scanners keep: the text itself, its quoted parts, and its letters but for their case.
use postgres_mapepire_proxy.Prelude.{
  ℕ, suc, ◌-◌, List, [], ◌∷◌, ◌++◌, Bool, true, false, not, if◌then◌else◌, Text, length, ◌≤◌, ◌≡◌,
  refl, ◌∙◌, sym, arith, append_assoc, append-nil,
}
use postgres_mapepire_proxy.Sql.Text.{upper, trim}
use postgres_mapepire_proxy.Sql.Split.{push, split_from, split_simple_statements}
use postgres_mapepire_proxy.Sql.Scan.{
  joined, Mark, marks, chars, definitions_from, split_definition_list, uppercase_from,
  uppercase_unquoted, semicolons_from,
}

pub chars-marks : (single double : Bool) (s : Text) → chars (marks single double s) ≡ s
unfolding chars marks
chars-marks single double [] = refl
chars-marks single double (c ∷ []) = ground arith
chars-marks single double (c ∷ d ∷ rest) = ground (
  arith,
  chars-marks single double rest,
  chars-marks (not single) double (d ∷ rest),
  chars-marks single (not double) (d ∷ rest),
  chars-marks single double (d ∷ rest),
)

-- A loop of splitDefinitionList has a part to give back.
joined_cut :
    (part now : Text) (depth : ℕ) (ms : List Mark)
    → joined (part ∷ definitions_from depth now ms)
      ≡ part ++ b',' ∷ joined (definitions_from depth now ms)
unfolding definitions_from
joined_cut part now depth [] = refl
joined_cut part now depth ((m, c) ∷ ms) = ground (
  arith,
  joined_cut part (now ++ c ∷ []) (suc depth) ms,
  joined_cut part (now ++ c ∷ []) (depth - 1) ms,
  joined_cut part (now ++ c ∷ []) depth ms,
)

joined-definitions :
    (depth : ℕ) (part : Text) (ms : List Mark)
    → joined (definitions_from depth part ms) ≡ part ++ chars ms
unfolding definitions_from chars
joined-definitions depth part [] = sym (append-nil part)
joined-definitions depth part ((m, c) ∷ ms) = ground (
  arith,
  joined_cut part [] depth ms,
  joined-definitions (suc depth) (part ++ c ∷ []) ms,
  joined-definitions (depth - 1) (part ++ c ∷ []) ms,
  joined-definitions depth (part ++ c ∷ []) ms,
  joined-definitions depth [] ms,
  append_assoc part (c ∷ []) (chars ms),
)

-- The parts of a definition list, joined by commas again, are the list.
pub join-split : (body : Text) → joined (split_definition_list body) ≡ body
unfolding split_definition_list
join-split body = joined-definitions 0 [] (marks false false body) ∙ chars-marks false false body

-- A character that the loops let through, as a capital.
abbrev pub raised : List Mark → List Mark
raised [] = []
raised ((m, c) ∷ ms) = (m, if m then upper c else c) ∷ raised ms

uppercase_open : (s : Text) → uppercase_from false false (34 ∷ s) ≡ 34 ∷ uppercase_from false true s
unfolding uppercase_from
uppercase_open [] = refl
uppercase_open (d ∷ s) = refl

uppercase-marks :
    (single double : Bool) (s : Text)
    → uppercase_from single double s ≡ chars (raised (marks single double s))
unfolding uppercase_from chars marks
uppercase-marks single double [] = refl
uppercase-marks single double (c ∷ []) = ground arith
uppercase-marks single double (c ∷ d ∷ rest) = ground (
  arith,
  uppercase_open rest,
  uppercase-marks single double rest,
  uppercase-marks (not single) double (d ∷ rest),
  uppercase-marks single (not double) (d ∷ rest),
  uppercase-marks single double (d ∷ rest),
)

-- uppercaseUnquotedRelationIdentifiers, which toggles at every double quote, makes a capital of just
-- the characters outside quotes that the loops with the full quote tests let through.
pub uppercase_lem : (sql : Text) → uppercase_unquoted sql ≡ chars (raised (marks false false sql))
unfolding uppercase_unquoted
uppercase_lem sql = uppercase-marks false false sql

length-push : (part : Text) (ps : List Text) → length (push part ps) ≤ suc (length ps)
length-push [] ps = omega arith
length-push (c ∷ part) ps = omega arith

semicolons_open : (s : Text) → semicolons_from false false (34 ∷ s) ≡ semicolons_from false true s
unfolding semicolons_from
semicolons_open [] = refl
semicolons_open (d ∷ s) = refl

length-split_from :
    (single double : Bool) (part s : Text)
    → length (split_from single double part s) ≤ suc (semicolons_from single double s)
unfolding split_from semicolons_from
length-split_from single double part [] = length-push (trim part) []
length-split_from single double part (c ∷ []) =
    ground (arith, length-push (trim part) [], length-push (trim (part ++ c ∷ [])) [])
length-split_from single double part (c ∷ d ∷ rest) = ground (
  arith,
  semicolons_open rest,
  length-split_from single double (part ++ c ∷ d ∷ []) rest,
  length-split_from (not single) double (part ++ c ∷ []) (d ∷ rest),
  length-split_from single (not double) (part ++ c ∷ []) (d ∷ rest),
  length-split_from single double [] (d ∷ rest),
  length-split_from single double (part ++ c ∷ []) (d ∷ rest),
  length-push (trim part) (split_from single double [] (d ∷ rest)),
)

-- The session splits a simple query into no more statements than the translator counts semicolons
-- outside quotes, and one.
pub length-split :
    (sql : Text) → length (split_simple_statements sql) ≤ suc (semicolons_from false false sql)
unfolding split_simple_statements
length-split sql = length-split_from false false [] sql
