-- ===== src/Session/Paging.antt =====
-- executePaged (proxy/session.ts): the rows of a result, read in pages from a cursor of the job up to a
-- limit. The cursor is a query object of the database client, a parameter.
pub mod Reads
mod Tests
use postgres_mapepire_proxy.Prelude.{
  ℕ, zero, suc, ◌+◌, ◌-◌, ◌^◌, List, [], ◌∷◌, ◌++◌, Bool, true, false, not, ltb, leb, ◌&&◌, Option,
  none, some, if◌then◌else◌, length, take, map,
}
use postgres_mapepire_proxy.Prelude.Int.{ℤ, pos, negsuc}
use postgres_mapepire_proxy.Prelude.Results.{Result, ok, err}

-- What is read of a QueryResult: `data`, `is_done`, `metadata`.
pub record Page (Row Meta : Type 0) : Type 0 where
  pub data_rows : List Row
  pub is_done : Bool
  pub metadata : Meta

-- The calls of a query object: execute(n) and fetchMore(n), each of which may throw, and close(),
-- whose error is dropped.
pub record Cursor (Q Row Meta E : Type 0) : Type 0 where
  pub execute : Q → ℕ → Result E (Page Row Meta × Q)
  pub fetch_more : Q → ℕ → Result E (Page Row Meta × Q)
  pub close : Q → Q

-- Math.min
unfoldable pub min : ℕ → ℕ → ℕ
min a b = if leb a b then a else b

-- Math.max
unfoldable pub max : ℕ → ℕ → ℕ
max a b = if leb a b then b else a

-- `n > 0` in the filter of `limits`.
positive : ℤ → List ℕ
positive (pos zero) = []
positive (pos (suc n)) = suc n ∷ []
positive (negsuc n) = []

-- Math.min(...limits), or Number.MAX_SAFE_INTEGER where there is none.
smallest : List ℕ → ℕ
unfolding min
smallest [] = 2 ^ 53 - 1
smallest (n ∷ []) = n
smallest (n ∷ m ∷ rest) = min n (smallest (m ∷ rest))

-- configuredLimit, of config.sql.maxRows and the maxRows of the call
unfoldable pub configured_limit : ℤ → ℤ → ℕ
unfolding positive smallest
configured_limit configured requested = smallest (positive configured ++ positive requested)

-- `!last.is_done && rows.length < configuredLimit`
unfoldable pub goes_on : {Row Meta : Type 0} → ℕ → Page Row Meta → List Row → Bool
goes_on limit last rows = not last.is_done && ltb (length rows) limit

-- What the call returns or throws, and the query object, closed in the finally.
abbrev pub Outcome : Type 0 → Type 0 → Type 0 → Type 0 → Type 0
Outcome Q Row Meta E = Result E (Page Row Meta) × Q

module _ {Q Row Meta E : Type 0} (cursor : Cursor Q Row Meta E) (fetch_size limit : ℕ) where
  -- `{ ...last, metadata: first.metadata, data: rows.slice(0, configuredLimit) }`
  abbrev pub finished : Page Row Meta → Page Row Meta → List Row → Q → Outcome Q Row Meta E
  finished first last rows q =
      (ok (record last { metadata = first.metadata; data_rows = take limit rows }), cursor.close q)

  -- `fetch`, the size of the next page
  unfoldable pub next_size : List Row → ℕ
  unfolding max min
  next_size rows = max 1 (min fetch_size (limit - length rows))

  -- The while loop, with fuel for its rounds.
  unfoldable pub page_loop :
      ℕ → Page Row Meta → Page Row Meta → List Row → Q → Option (Outcome Q Row Meta E)
  page_loop zero first last rows q = elim (goes_on limit last rows) [
    | true ↦ none
    | false ↦ some (finished first last rows q)
  ]
  page_loop (suc fuel) first last rows q = elim (goes_on limit last rows) [
    | false ↦ some (finished first last rows q)
    | true ↦ elim (cursor.fetch_more q (next_size rows)) [
      | err e ↦ some (err e, cursor.close q)
      | ok (page, q') ↦ page_loop fuel first page (rows ++ page.data_rows) q'
    ]
  ]

  -- executePaged, behind the creation of the query object
  unfoldable pub execute_paged : ℕ → Q → Option (Outcome Q Row Meta E)
  unfolding page_loop
  execute_paged fuel q = elim (cursor.execute q fetch_size) [
    | err e ↦ some (err e, cursor.close q)
    | ok (page, q') ↦ page_loop fuel page page page.data_rows q'
  ]
