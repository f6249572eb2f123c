-- ===== src/Ddl/References/Tests.antt =====
-- A rename in a check constraint, beside a string that spells the name and holds a quote.
use postgres_mapepire_proxy.Prelude.{◌≡◌, refl, List, [], ◌∷◌, codes, text_eq}
use postgres_mapepire_proxy.Sql.Text.{double, undouble, trim, trim_start, trim_end, is_space, upper}
use postgres_mapepire_proxy.Sql.Identifier.{without_last}
use postgres_mapepire_proxy.Ddl.Names.{normalize_identifier, ends_with_quote}
use postgres_mapepire_proxy.Ddl.References.{replace_identifier_references, replaced}
use postgres_mapepire_proxy.Ddl.References.Tokens.{
  Token, string, quoted_name, plain_name, other, written_all, renamed_all,
}
use postgres_mapepire_proxy.Ddl.References.Laws.{replace_references-written}

abbrev check : List Token
check =
    plain_name b'a' (codes "ctive")
    ∷ other b'='
    ∷ string (codes "it's active")
    ∷ other b'<'
    ∷ quoted_name (codes "ACTIVE")
    ∷ []

-- Both spellings are replaced, and the string is not.
check_renamed :
    renamed_all (codes "ACTIVE") (codes "ENABLED") check ≡ codes "ENABLED='it''s active'<ENABLED"
unfolding double replaced text_eq normalize_identifier ends_with_quote without_last undouble trim
    trim_start trim_end is_space upper
check_renamed = refl

replace_references-written_example :
    replace_identifier_references (codes "ACTIVE") (codes "ENABLED") (written_all check)
    ≡ renamed_all (codes "ACTIVE") (codes "ENABLED") check
replace_references-written_example =
    replace_references-written (codes "ACTIVE") (codes "ENABLED") check
      ((refl, refl, refl), ((refl, refl, refl), (refl, ((refl, refl, refl), (refl, tt)))))
