-- ===== src/Session/Paging/Reads.antt =====
-- The pages are the rows of the result in order, up to the limit.
use postgres_mapepire_proxy.Prelude.{
  ℕ, zero, suc, ◌≤◌, List, [], ◌++◌, true, false, some, length, take, ◌≡◌, refl, ap, ◌∙◌, sym, ◌⊎◌,
  inl, inr, arith, length-append, append_assoc, append-nil, subst, Bool-cases, take-append_le,
}
use postgres_mapepire_proxy.Prelude.Results.{ok, err, Result-cases}
use postgres_mapepire_proxy.Session.Paging.{
  Page, Cursor, Outcome, goes_on, finished, next_size, page_loop, execute_paged,
}

-- A page behind which `before` are the rows of the result that are left, and `after` those left then: it
-- holds the first of them, in order; it is the last page only if none is left behind it, and it has a
-- row unless it is the last page.
pub record IsPage {Row Meta : Type 0} (before : List Row) (page : Page Row Meta) (after : List Row)
    : Type 0 where
  pub in_order : before ≡ page.data_rows ++ after
  pub ends : page.is_done ≡ true → after ≡ []
  pub moves : (page.is_done ≡ true) ⊎ (1 ≤ length page.data_rows)

-- What the database client documents of a cursor: `rest` are the rows of the result that it has not
-- given yet.
pub record Serves {Q Row Meta E : Type 0} (cursor : Cursor Q Row Meta E) (rest : Q → List Row)
    : Type 0 where
  pub execute_page :
      (q : Q) (n : ℕ) (page : Page Row Meta) (q' : Q)
      → cursor.execute q n ≡ ok (page, q')
      → IsPage (rest q) page (rest q')
  pub fetch_page :
      (q : Q) (n : ℕ) (page : Page Row Meta) (q' : Q)
      → cursor.fetch_more q n ≡ ok (page, q')
      → IsPage (rest q) page (rest q')

-- What a caller of executePaged sees who starts with the query object `start`: rows, with the metadata
-- of the first page, or the error of one of the calls; and the query object is closed.
pub data Read {Q Row Meta E : Type 0} (cursor : Cursor Q Row Meta E) (start : Q) (n : ℕ)
    (rows : List Row) : Outcome Q Row Meta E → Type 0 where
  rows_read :
      {first page : Page Row Meta} {p q : Q}
      → cursor.execute start n ≡ ok (first, p)
      → page.data_rows ≡ rows
      → page.metadata ≡ first.metadata
      → Read cursor start n rows (ok page, cursor.close q)
  call_failed :
      {e : E} {q p : Q} {m : ℕ}
      → (cursor.execute p m ≡ err e) ⊎ (cursor.fetch_more p m ≡ err e)
      → Read cursor start n rows (err e, cursor.close q)

take-rest :
    {Row Meta : Type 0} (limit : ℕ) (last : Page Row Meta) (rows left : List Row)
    → (last.is_done ≡ true → left ≡ [])
    → goes_on limit last rows ≡ false
    → take limit rows ≡ take limit (rows ++ left)
unfolding goes_on
take-rest limit last rows left ends stop = elim (Bool-cases last.is_done) [
  | inl is_last ↦ rw (ends is_last) (ap (take limit) (sym (append-nil rows)))
  | inr more ↦ sym (take-append_le limit rows left (ground arith))
]

module _ {Q Row Meta E : Type 0} (cursor : Cursor Q Row Meta E) (rest : Q → List Row)
    (serves : Serves cursor rest) (fetch_size limit : ℕ) where
  -- What the loop has in hand: a last page has nothing behind it, and any other leaves fuel.
  abbrev Fuelled : ℕ → Page Row Meta → Q → Type 0
  Fuelled fuel last q =
      ((last.is_done ≡ true) × (rest q ≡ []))
      ⊎ ((last.is_done ≡ false) × (suc (length (rest q)) ≤ fuel))

  step_fuel :
      (fuel : ℕ) (q q' : Q) (page : Page Row Meta)
      → length (rest q) ≤ fuel
      → IsPage (rest q) page (rest q')
      → Fuelled fuel page q'
  step_fuel fuel q q' page enough is = elim (Bool-cases page.is_done) [
    | inl is_last ↦ inl (is_last, is.ends is_last)
    | inr more ↦
        let total = ap length is.in_order ∙ length-append page.data_rows (rest q') in
        inr (more, elim is.moves [ inl is_last ↦ cc | inr row ↦ omega (arith, total, row, enough) ])
  ]

  left_over :
      (fuel : ℕ) (last : Page Row Meta) (q : Q)
      → Fuelled fuel last q
      → last.is_done ≡ true
      → rest q ≡ []
  left_over fuel last q (inl (done, nothing)) h = nothing
  left_over fuel last q (inr (more, enough)) h = cc

  fuel_left :
      (fuel : ℕ) (last : Page Row Meta) (rows : List Row) (q : Q)
      → Fuelled (suc fuel) last q
      → goes_on limit last rows ≡ true
      → length (rest q) ≤ fuel
  fuel_left fuel last rows q (inl (is_last, nothing)) on = unfold goes_on in ground arith
  fuel_left fuel last rows q (inr (more, enough)) on = omega (arith, enough)

  module _ (start : Q) (first : Page Row Meta) (began : Q)
      (begins : cursor.execute start fetch_size ≡ ok (first, began)) where
    abbrev Reads : ℕ → Page Row Meta → List Row → Q → Type 0
    Reads fuel last rows q =
        (outcome : Outcome Q Row Meta E) × (page_loop cursor fetch_size limit fuel first last rows q
          ≡ some outcome)
        × Read cursor start fetch_size (take limit (rows ++ rest q)) outcome

    loop_stops :
        (fuel : ℕ) (last : Page Row Meta) (rows : List Row) (q : Q)
        → (last.is_done ≡ true → rest q ≡ [])
        → goes_on limit last rows ≡ false
        → Reads fuel last rows q
    unfolding page_loop
    loop_stops fuel last rows q ends stop = (
      finished cursor fetch_size limit first last rows q,
      stopped fuel,
      rows_read {q = q} begins (take-rest limit last rows (rest q) ends stop) refl,
    )
      where
        stopped :
            (fuel : ℕ)
            → page_loop cursor fetch_size limit fuel first last rows q
              ≡ some (finished cursor fetch_size limit first last rows q)
        stopped zero = rw (stop, page_loop)
        stopped (suc fuel) = rw (stop, page_loop)

    loop-Reads :
        (fuel : ℕ) (last : Page Row Meta) (rows : List Row) (q : Q)
        → Fuelled fuel last q
        → Reads fuel last rows q
    unfolding page_loop
    loop-Reads zero last rows q (inl (is_last, nothing)) =
        loop_stops zero last rows q (λ h. nothing) (unfold goes_on in rw is_last)
    loop-Reads zero last rows q (inr (more, enough)) = absurd (omega (arith, enough))
    loop-Reads (suc fuel) last rows q fuelled = elim (Bool-cases (goes_on limit last rows)) [
      | inr stop ↦ loop_stops (suc fuel) last rows q (left_over (suc fuel) last q fuelled) stop
      | inl on ↦
          let size = next_size cursor fetch_size limit rows in
          elim (Result-cases (cursor.fetch_more q size)) [
            | inr (e, failed) ↦ (
              (err e, cursor.close q),
              rw (page_loop, on, failed),
              call_failed {m = size} (inr failed),
            )
            | inl ((page, q'), got) ↦
                let is = serves.fetch_page q size page q' got in
                let fuelled' =
                  step_fuel fuel q q' page (fuel_left fuel last rows q fuelled on) is in
                let (outcome, runs, read) =
                  loop-Reads fuel page (rows ++ page.data_rows) q' fuelled' in
                (
                  outcome,
                  rw (page_loop, on, got) runs,
                  subst (λ all. Read cursor start fetch_size (take limit all) outcome)
                      (append_assoc rows page.data_rows (rest q')
                        ∙ ap (◌++◌ rows) (sym is.in_order))
                      read,
                )
          ]
    ]

-- executePaged ends with enough fuel: one round for each row of the result. It reads the rows
-- in order from the first, up to the limit, with the metadata of the first page, or throws what a call
-- of the query object threw; and the query object is closed in both cases. The cursor is one that
-- serves the rows of a result in pages, of which only the last may be empty.
pub paged_reads :
    {Q Row Meta E : Type 0} (cursor : Cursor Q Row Meta E) (rest : Q → List Row)
    (fetch_size limit fuel : ℕ) (q : Q)
    → Serves cursor rest
    → length (rest q) ≤ fuel
    → (outcome : Outcome Q Row Meta E) × (execute_paged cursor fetch_size limit fuel q
        ≡ some outcome)
      × Read cursor q fetch_size (take limit (rest q)) outcome
unfolding execute_paged
paged_reads cursor rest fetch_size limit fuel q serves enough =
    elim (Result-cases (cursor.execute q fetch_size)) [
      | inr (e, failed) ↦
          ((err e, cursor.close q), rw (execute_paged, failed), call_failed (inl failed))
      | inl ((page, p), got) ↦
          let is = serves.execute_page q fetch_size page p got in
          let fuelled = step_fuel cursor rest serves fetch_size limit fuel q p page enough is in
          let (outcome, runs, read) =
            loop-Reads cursor rest serves fetch_size limit q page p got fuel page page.data_rows p
              fuelled in
          (
            outcome,
            rw (execute_paged, got) runs,
            subst (λ all. Read cursor q fetch_size (take limit all) outcome) (sym is.in_order) read,
          )
    ]
