-- ===== src/Sql/Regex/Laws/Found.antt =====
-- What `exec` finds.
use postgres_mapepire_proxy.Prelude.{
  ℕ, ◌≡◌, refl, ap, subst, [], ◌∷◌, ◌++◌, Option, none, some, Text,
}
use postgres_mapepire_proxy.Sql.Regex.{Regex, Match, match_at, search_from, exec}
use postgres_mapepire_proxy.Sql.Regex.Laws.{some-injective}
use postgres_mapepire_proxy.Sql.Regex.Laws.Rewritten.{IsWay, match_at-IsWay}

-- A match somewhere in a text.
pub record IsFound (r : Regex) (m : Match) : Type 0 where
  pub before : Option ℕ
  pub from : Text
  pub is_way : IsWay r before from m

here-IsFound :
    (r : Regex) (before : Option ℕ) (s front front' : Text) (found : Option Match) (m : Match)
    → ((n : Match) → found ≡ some n → IsWay r before s n)
    → (next : Option (Text × Match)) → (next ≡ some (front', m) → IsFound r m)
    → elim found as (λ _. Option (Text × Match)) [ some n ↦ some (front, n) | none ↦ next ]
      ≡ some (front', m)
    → IsFound r m
here-IsFound r before s front front' none m way next later e = later e
here-IsFound r before s front front' (some n) m way next later e = record {
  before = before;
  from = s;
  is_way =
      subst (IsWay r before s) (ap (λ (x : Text × Match). x.1) (some-injective e)) (way n refl);
}

pub search_from-IsFound :
    (r : Regex) (before : Option ℕ) (front s front' : Text) (m : Match)
    → search_from r before front s ≡ some (front', m)
    → IsFound r m
unfolding search_from
search_from-IsFound r before front [] front' m e =
    here-IsFound r before [] front front' (match_at r before []) m (match_at-IsWay r before []) none
      (λ e'. absurd (cc)) e
search_from-IsFound r before front (c ∷ s) front' m e =
    here-IsFound r before (c ∷ s) front front' (match_at r before (c ∷ s)) m
      (match_at-IsWay r before (c ∷ s)) (search_from r (some c) (front ++ c ∷ []) s)
      (search_from-IsFound r (some c) (front ++ c ∷ []) s front' m) e

pub exec-IsFound :
    (r : Regex) (s front : Text) (m : Match) → exec r s ≡ some (front, m) → IsFound r m
unfolding exec
exec-IsFound r s front m e = search_from-IsFound r none [] s front m e
