-- ===== src/Sql/Translate/Rewrites/Casts.antt =====
-- What rewritePgCasts makes of a statement.
use postgres_mapepire_proxy.Prelude.{
  ==_iff, ℕ, ◌≡◌, refl, ap, ◌∙◌, [], ◌∷◌, ◌++◌, Option, none, Text, codes, arith,
}
use postgres_mapepire_proxy.Sql.Regex.{Match, text_of}
use postgres_mapepire_proxy.Sql.Regex.Classes.{text}
use postgres_mapepire_proxy.Sql.Regex.Laws.Texts.{Spells}
use postgres_mapepire_proxy.Sql.Regex.Laws.Rewritten.{IsWay, Rewritten, replace_all-Rewritten}
use postgres_mapepire_proxy.Sql.Regex.Laws.Groups.{IsWay-AreGroups}
use postgres_mapepire_proxy.Sql.Translate.Rewrites.{cast_operand, cast_type, cast, rewrite_casts}

-- `operand::type`, and the cast of Db2 that stands for it.
abbrev pub IsCast : Text → Text → Type 0
IsCast u u' =
    (operand : Text) × (type_name : Text) × (u ≡ operand ++ codes "::" ++ type_name)
    × (u' ≡ codes "CAST(" ++ operand ++ codes " AS " ++ type_name ++ codes ")")
    × Spells cast_operand operand
    × Spells cast_type type_name

text-Spells : (w t : Text) → Spells (text w) t → t ≡ w
text-Spells [] t e = e
text-Spells (c ∷ w) t (u, v, e, (d, e', same), rest) =
    e ∙ rw (e', (==_iff d c).0 same, text-Spells w v rest) refl

each-IsCast :
    (before : Option ℕ) (s : Text) (m : Match)
    → IsWay cast before s m
    → IsCast m.matched (codes "CAST(" ++ text_of 1 m ++ codes " AS " ++ text_of 2 m ++ codes ")")
each-IsCast before s m found =
    let groups =
      IsWay-AreGroups cast_operand (text (codes "::")) cast_type (omega arith) (omega arith)
        (omega arith) before s m found in
    let read = text-Spells (codes "::") groups.between_text groups.middle in
    (
      text_of 1 m,
      text_of 2 m,
      groups.matched ∙ ap (λ (w : Text). text_of 1 m ++ w ++ text_of 2 m) read,
      refl,
      groups.first,
      groups.second,
    )

-- rewritePgCasts replaces pieces `operand::type`, where the operand is a literal, a placeholder, a
-- name or a number and the type is a type's name, by CAST(operand AS type). It leaves no such piece: a
-- character is kept only where the pattern of these pieces, tried there behind the character in front
-- of it in the statement, matches no text.
pub rewrite_casts-Rewritten : (sql : Text) → Rewritten cast IsCast none sql (rewrite_casts sql)
unfolding rewrite_casts
rewrite_casts-Rewritten sql = replace_all-Rewritten cast _ IsCast each-IsCast sql
