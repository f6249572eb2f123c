-- ===== src/Sql/Regex/Laws/Groups.antt =====
-- The groups of a match of `(a)w(b)`.
use postgres_mapepire_proxy.Prelude.{
  ℕ, ◌≡◌, refl, sym, ap, subst, ◌∙◌, ◌∷◌, ◌++◌, List, Option, Text, append_assoc,
}
use postgres_mapepire_proxy.Sql.Regex.{
  Regex, ◌~◌, group, Place, between, Match, place, group_from, text_from, text_of,
}
use postgres_mapepire_proxy.Sql.Regex.Laws.Texts.{
  Spells, Silent, Way-Reads, Way-Kept, between-Reads,
}
use postgres_mapepire_proxy.Sql.Regex.Laws.Rewritten.{IsWay}

-- The match is the first group, a text between the groups, and the second group.
pub record AreGroups (a w b : Regex) (m : Match) : Type 0 where
  pub between_text : Text
  pub matched : m.matched ≡ text_of 1 m ++ between_text ++ text_of 2 m
  pub first : Spells a (text_of 1 m)
  pub middle : Spells w between_text
  pub second : Spells b (text_of 2 m)

regroup : (u x v r : Text) → u ++ (x ++ (v ++ r)) ≡ (u ++ x ++ v) ++ r
regroup u x v r = simp append_assoc

pub IsWay-AreGroups :
    (a w b : Regex)
    → Silent a
    → Silent w
    → Silent b
    → (before : Option ℕ) (s : Text) (m : Match) → IsWay (group 1 a ~ w ~ group 2 b) before s m
    → AreGroups a w b m
unfolding text_from group_from
IsWay-AreGroups a w b quiet_a quiet_w quiet_b before s m found =
    let p = place before s in
    let (m1, (m1', way_a, e1), (m2, way_w, (m3, way_b, e2))) = found.way in
    let (u, read_u, spelled_u) = Way-Reads a p m1' way_a in
    let (x, read_x, spelled_x) = Way-Reads w m1 m2 way_w in
    let (v, read_v, spelled_v) = Way-Reads b m2 m3 way_b in
    let end = found.end_place in
    let captured : m.groups ≡ (2, between m2 m3) ∷ (1, between p m1') ∷ m1'.captured =
      found.groups
      ∙ ap (λ (y : Place). y.captured) e2
      ∙ ap (λ (g : List (ℕ × Text)). (2, between m2 m3) ∷ g)
          (Way-Kept b quiet_b m2 m3 way_b
            ∙ Way-Kept w quiet_w m1 m2 way_w
            ∙ ap (λ (y : Place). y.captured) e1) in
    let one : text_of 1 m ≡ u = ap (text_from 1) captured ∙ between-Reads p m1' u read_u in
    let two : text_of 2 m ≡ v = ap (text_from 2) captured ∙ between-Reads m2 m3 v read_v in
    let inner : m1'.rest ≡ x ++ (v ++ end.rest) =
      ap (λ (y : Place). y.rest) (sym e1)
      ∙ read_x
      ∙ ap (λ (r : Text). x ++ r) (read_v ∙ ap (λ (y : Place). v ++ y.rest) (sym e2)) in
    let whole : p.rest ≡ (u ++ x ++ v) ++ end.rest =
      read_u ∙ ap (λ (r : Text). u ++ r) inner ∙ regroup u x v end.rest in
    record {
      between_text = x;
      matched = found.read ∙ between-Reads p end (u ++ x ++ v) whole ∙ rw (one, two) refl;
      first = subst (Spells a) (sym one) spelled_u;
      middle = spelled_x;
      second = subst (Spells b) (sym two) spelled_v;
    }
