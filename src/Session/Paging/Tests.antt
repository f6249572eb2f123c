-- ===== src/Session/Paging/Tests.antt =====
-- A cursor that serves two rows at a time.
use postgres_mapepire_proxy.Prelude.{
  ℕ, List, [], ◌∷◌, true, false, some, ◌≡◌, refl, subst, inl, inr, take, arith,
}
use postgres_mapepire_proxy.Prelude.Int.{pos, negsuc}
use postgres_mapepire_proxy.Prelude.Results.{ok, ok-injective}
use postgres_mapepire_proxy.Session.Paging.{Page, Cursor, Outcome, execute_paged, configured_limit}
use postgres_mapepire_proxy.Session.Paging.Reads.{IsPage, Serves, Read, paged_reads}

abbrev two_rows : List ℕ → Page ℕ ℕ × List ℕ
two_rows [] = (record { data_rows = []; is_done = true; metadata = 7 }, [])
two_rows (a ∷ []) = (record { data_rows = a ∷ []; is_done = true; metadata = 7 }, [])
two_rows (a ∷ b ∷ left) = (record { data_rows = a ∷ b ∷ []; is_done = false; metadata = 7 }, left)

abbrev in_twos : Cursor (List ℕ) ℕ ℕ ℕ
in_twos = record {
  execute = λ q n. ok (two_rows q);
  fetch_more = λ q n. ok (two_rows q);
  close = λ q. q;
}

two_rows_lem : (q : List ℕ) → let (page, left) = two_rows q in IsPage q page left
two_rows_lem [] = record { in_order = refl; ends = λ h. refl; moves = inl refl }
two_rows_lem (a ∷ []) = record { in_order = refl; ends = λ h. refl; moves = inl refl }
two_rows_lem (a ∷ b ∷ left) = record {
  in_order = refl;
  ends = λ h. absurd cc;
  moves = inr (omega arith);
}

two_rows-IsPage :
    (q : List ℕ) (page : Page ℕ ℕ) (q' : List ℕ)
    → in_twos.fetch_more q 2 ≡ ok (page, q')
    → IsPage q page q'
two_rows-IsPage q page q' e =
    subst (λ (p : Page ℕ ℕ × List ℕ). IsPage q p.0 p.1) (ok-injective refl e) (two_rows_lem q)

in_twos-Serves : Serves in_twos (λ q. q)
in_twos-Serves = record {
  execute_page = λ q n. two_rows-IsPage q;
  fetch_page = λ q n. two_rows-IsPage q;
}

limit_runs : configured_limit (pos 3) (negsuc 4) ≡ 3
unfolding configured_limit
limit_runs = refl

paged_reads_example :
    (outcome : Outcome (List ℕ) ℕ ℕ ℕ) × (execute_paged in_twos 2 3 5 (1 ∷ 2 ∷ 3 ∷ 4 ∷ 5 ∷ [])
      ≡ some outcome)
    × Read in_twos (1 ∷ 2 ∷ 3 ∷ 4 ∷ 5 ∷ []) 2 (take 3 (1 ∷ 2 ∷ 3 ∷ 4 ∷ 5 ∷ [])) outcome
paged_reads_example =
    paged_reads in_twos (λ q. q) 2 3 5 (1 ∷ 2 ∷ 3 ∷ 4 ∷ 5 ∷ []) in_twos-Serves (omega arith)
