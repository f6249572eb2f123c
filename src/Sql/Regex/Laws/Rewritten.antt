-- ===== src/Sql/Regex/Laws/Rewritten.antt =====
-- What a global replacement makes of a text: pieces that the pattern matched are replaced, and the
-- rest is kept.
use postgres_mapepire_proxy.Prelude.{
  ℕ, zero, suc, ◌≡◌, refl, sym, ap, subst, ◌∙◌, [], ◌∷◌, ◌++◌, append-nil, Option, none, some, Text,
  length, take, drop, tail, drop-append, take-append,
}
use postgres_mapepire_proxy.Sql.Regex.{
  Regex, Place, between, place, run, Match, match_of, match_at, replace_end, replace_here, onto,
  replace_from, replace_all,
}
use postgres_mapepire_proxy.Sql.Regex.Laws.{Way, run-Sound, some-injective}
use postgres_mapepire_proxy.Sql.Regex.Laws.Texts.{Spells, Way-Reads, between-Reads}

-- A match is a way through its pattern from where it begins.
pub record IsWay (r : Regex) (before : Option ℕ) (s : Text) (m : Match) : Type 0 where
  pub end_place : Place
  pub way : Way r (place before s) end_place
  pub groups : m.groups ≡ end_place.captured
  pub read : m.matched ≡ between (place before s) end_place
  pub whole : s ≡ m.matched ++ m.behind
  pub spelled : Spells r m.matched

found-IsWay :
    (r : Regex) (before : Option ℕ) (s : Text) (found : Option Place) (m : Match)
    → run r some (place before s) ≡ found
    → match_of found (place before s) ≡ some m
    → IsWay r before s m
found-IsWay r before s none m e f = absurd (cc)
found-IsWay r before s (some q) m e f =
    let p = place before s in
    let (q', way', same) = run-Sound r some p q e in
    let way : Way r p q = subst (λ (x : Place). Way r p x) (some-injective same) way' in
    let (t, whole, spelled) = Way-Reads r p q way in
    let read = between-Reads p q t whole in
    let found : IsWay r before s
        (record { matched = between p q; groups = q.captured; behind = q.rest }) =
      record {
        end_place = q;
        way = way;
        groups = refl;
        read = refl;
        whole = whole ∙ ap (λ (x : Text). x ++ q.rest) (sym read);
        spelled = subst (Spells r) (sym read) spelled;
      } in
    subst (IsWay r before s) (some-injective f) found

pub match_at-IsWay :
    (r : Regex) (before : Option ℕ) (s : Text) (m : Match)
    → match_at r before s ≡ some m
    → IsWay r before s m
unfolding match_at
match_at-IsWay r before s m e = found-IsWay r before s (run r some (place before s)) m refl e

append-eq-nil : (s t : Text) → s ++ t ≡ [] → (s ≡ []) × (t ≡ [])
append-eq-nil [] t e = (refl, e)
append-eq-nil (c ∷ s) t e = absurd (cc)

-- The character in front of what stands behind a text.
abbrev pub last_of : Option ℕ → Text → Option ℕ
last_of before [] = before
last_of before (c ∷ s) = last_of (some c) s

-- At this place the pattern matches nothing, or the empty text alone.
abbrev pub IsPassed : Regex → Option ℕ → Text → Type 0
IsPassed r before s = (m : Match) → match_at r before s ≡ some m → m.matched ≡ []

-- A text behind a character, and what it is rewritten to: each piece that is replaced stands to its
-- replacement in `P`, and a character is kept only at a place where the pattern matches no piece.
pub data Rewritten (r : Regex) (P : Text → Text → Type 0) : Option ℕ → Text → Text → Type 0 where
  ended : {before : Option ℕ} {s s' : Text} → s ≡ [] → s' ≡ [] → Rewritten r P before s s'
  kept :
      {before : Option ℕ} {s s' : Text} (c : ℕ) (t t' : Text)
      → s ≡ c ∷ t
      → s' ≡ c ∷ t'
      → IsPassed r before (c ∷ t)
      → Rewritten r P (some c) t t'
      → Rewritten r P before s s'
  piece :
      {before : Option ℕ} {s s' : Text} (u u' t t' : Text)
      → s ≡ u ++ t
      → s' ≡ u' ++ t'
      → P u u'
      → Rewritten r P (last_of before u) t t'
      → Rewritten r P before s s'

abbrev head_or : ℕ → Text → ℕ
head_or n [] = n
head_or n (c ∷ s) = c

module _ (r : Regex) (f : Match → Text) (P : Text → Text → Type 0)
    (each : (before : Option ℕ) (s : Text) (m : Match)
      → IsWay r before s m
      → P m.matched (f m)) where
  -- A replaced match, with what is made of the rest.
  matched-Rewritten :
      (before : Option ℕ) (s : Text) (m : Match) (t : Text)
      → IsWay r before s m
      → Rewritten r P (last_of before m.matched) m.behind t
      → Rewritten r P before s (f m ++ t)
  matched-Rewritten before s m t found rest =
      piece m.matched (f m) m.behind t found.whole refl (each before s m found) rest

  end-Rewritten :
      (before : Option ℕ) (found : Option Match)
      → ((m : Match) → found ≡ some m → IsWay r before [] m)
      → Rewritten r P before [] (replace_end f found)
  unfolding replace_end
  end-Rewritten before none way = ended refl refl
  end-Rewritten before (some m) way =
      let nothing = append-eq-nil m.matched m.behind (sym (IsWay.whole (way m refl))) in
      subst (Rewritten r P before []) (append-nil (f m))
        (matched-Rewritten before [] m [] (way m refl) (ended nothing.1 refl))

  onto-Rewritten :
      (before : Option ℕ) (c : ℕ) (s : Text) (onward : ℕ → Text) (m : Match) (t : Text)
      → t ≡ m.matched
      → match_at r before (c ∷ s) ≡ some m
      → IsWay r before (c ∷ s) m
      → ((n : ℕ) → Rewritten r P (last_of (some c) (take n s)) (drop n s) (onward n))
      → Rewritten r P before (c ∷ s) (onto t c onward (f m))
  unfolding onto
  onto-Rewritten before c s onward m [] e once found rest =
      matched-Rewritten before (c ∷ s) m (c ∷ onward 0) found (
        subst (λ (x : Text). Rewritten r P (last_of before x) m.behind (c ∷ onward 0)) e
          (subst (λ (x : Text). Rewritten r P before x (c ∷ onward 0))
            (found.whole ∙ ap (λ (x : Text). x ++ m.behind) (sym e))
            (kept c s (onward 0) refl refl
              (λ m' again.
                ap (λ (x : Match). x.matched) (some-injective (sym again ∙ once)) ∙ sym e)
              (rest 0))))
  onto-Rewritten before c s onward m (d ∷ t) e once found rest =
      let whole : c ∷ s ≡ d ∷ (t ++ m.behind) =
        found.whole ∙ ap (λ (x : Text). x ++ m.behind) (sym e) in
      let first : c ≡ d = ap (head_or 0) whole in
      let others : s ≡ t ++ m.behind = ap tail whole in
      matched-Rewritten before (c ∷ s) m (onward (length t)) found (
        subst (λ (x : Text). Rewritten r P (last_of before x) m.behind (onward (length t))) e
          (subst (λ (x : ℕ). Rewritten r P (last_of (some x) t) m.behind (onward (length t))) first
            (subst (λ (x : Text). Rewritten r P (last_of (some c) x) m.behind (onward (length t)))
              (ap (take (length t)) others ∙ take-append t m.behind)
              (subst
                (λ (x : Text).
                  Rewritten r P (last_of (some c) (take (length t) s)) x (onward (length t)))
                (ap (drop (length t)) others ∙ drop-append t m.behind) (rest (length t))))))

  here-Rewritten :
      (before : Option ℕ) (c : ℕ) (s : Text) (onward : ℕ → Text) (found : Option Match)
      → match_at r before (c ∷ s) ≡ found
      → ((n : ℕ) → Rewritten r P (last_of (some c) (take n s)) (drop n s) (onward n))
      → Rewritten r P before (c ∷ s) (replace_here f c onward found)
  unfolding replace_here
  here-Rewritten before c s onward none e rest =
      kept c s (onward 0) refl refl (λ m again. absurd cc) (rest 0)
  here-Rewritten before c s onward (some m) e rest =
      onto-Rewritten before c s onward m m.matched refl e (match_at-IsWay r before (c ∷ s) m e) rest

  from-Rewritten :
      (skip : ℕ) (before : Option ℕ) (s : Text)
      → Rewritten r P (last_of before (take skip s)) (drop skip s) (replace_from r f skip before s)
  unfolding replace_from
  from-Rewritten zero before [] =
      end-Rewritten before (match_at r before []) (match_at-IsWay r before [])
  from-Rewritten (suc n) before [] = ended refl refl
  from-Rewritten (suc n) before (c ∷ s) = from-Rewritten n (some c) s
  from-Rewritten zero before (c ∷ s) =
      here-Rewritten before c s (λ n. replace_from r f n (some c) s) (match_at r before (c ∷ s))
        refl (λ n. from-Rewritten n (some c) s)

  pub replace_all-Rewritten : (s : Text) → Rewritten r P none s (replace_all r f s)
  unfolding replace_all
  replace_all-Rewritten s = from-Rewritten 0 none s
