-- ===== src/Pool/Counts.antt =====
-- How often a job stands in a list, and how the set operations change that.
use postgres_mapepire_proxy.Prelude.{
  ℕ, ◌+◌, ◌≤◌, ◌≡◌, refl, List, [], ◌∷◌, ◌++◌, ltb, ◌==◌, arith, ◌&&◌, if◌then◌else◌, length,
  length-append,
}
use postgres_mapepire_proxy.Pool.{Purpose, has, without, add}

abbrev pub count : ℕ → List ℕ → ℕ
count j [] = 0
count j (k ∷ ks) = (if k == j then 1 else 0) + count j ks

abbrev pub count_landed : ℕ → List (Purpose × ℕ) → ℕ
count_landed j [] = 0
count_landed j ((why, k) ∷ ks) = (if k == j then 1 else 0) + count_landed j ks

pub count-append : (j : ℕ) (xs ys : List ℕ) → count j (xs ++ ys) ≡ count j xs + count j ys
count-append j [] ys = omega arith
count-append j (x ∷ xs) ys = omega (arith, count-append j xs ys)

pub count_landed-append :
    (j : ℕ) (xs ys : List (Purpose × ℕ))
    → count_landed j (xs ++ ys) ≡ count_landed j xs + count_landed j ys
count_landed-append j [] ys = omega arith
count_landed-append j ((why, x) ∷ xs) ys = omega (arith, count_landed-append j xs ys)

pub count-without :
    (j k : ℕ) (xs : List ℕ) → count j (without k xs) ≡ (if k == j then 0 else count j xs)
unfolding without
count-without j k [] = ground arith
count-without j k (x ∷ xs) = ground (arith, count-without j k xs)

pub has-count : (j : ℕ) (xs : List ℕ) → has j xs ≡ ltb 0 (count j xs)
unfolding has
has-count j [] = refl
has-count j (x ∷ xs) = ground (arith, has-count j xs)

pub count-add :
    (j k : ℕ) (xs : List ℕ)
    → count j (add k xs) ≡ (if k == j && (count k xs == 0) then 1 else count j xs)
unfolding add
count-add j k xs = ground (arith, has-count k xs, count-append j xs (k ∷ []))

pub length-add_le : (k : ℕ) (xs : List ℕ) → length (add k xs) ≤ length xs + 1
unfolding add
length-add_le k xs = ground (arith, length-append xs (k ∷ []))

pub length-without_le : (k : ℕ) (xs : List ℕ) → length (without k xs) ≤ length xs
unfolding without
length-without_le k [] = omega arith
length-without_le k (x ∷ xs) = ground (arith, length-without_le k xs)
