-- ===== src/Pool/Waiting.antt =====
-- Who waits, who is served, and two ways in which the pool falls short.
use postgres_mapepire_proxy.Prelude.{
  ℕ, zero, suc, ◌++◌, ◌≤◌, append-nil, append_assoc, ◌+◌, ◌≡◌, ◌≢◌, refl, sym, ◌∙◌, ap, List, [],
  ◌∷◌, ◌==◌, Bool, true, false, not, arith, ◌&&◌, ◌||◌, length, length-append, map,
}
use postgres_mapepire_proxy.Pool.{
  Purpose, Pool, acquire, connect_fails, reset_done, queued, creates, granted, refused, stats,
  Acquired, Settled, handed,
}
use postgres_mapepire_proxy.Pool.Capacity.{jobs}

abbrev pub is_queued : Acquired → Bool
is_queued (queued w) = true
is_queued refused = false
is_queued (granted j) = false
is_queued creates = false

-- A caller waits exactly when the pool is not shutting and `stats` shows no available slot, and then
-- `stats` shows the pool saturated.
pub acquire-queued :
    (p : Pool)
    → (is_queued (acquire p).1 ≡ (not p.ending && (stats p).available_slots == 0))
      × ((not (is_queued (acquire p).1) || (stats (acquire p).0).saturated) ≡ true)
unfolding acquire stats
acquire-queued p = (ground arith, ground (arith, length-append p.waiters (p.next_waiter ∷ [])))

-- What becomes of the jobs that are reset one after the other.
abbrev pub settled : List ℕ → Pool → List Settled
settled [] p = []
settled (job ∷ jobs) p = (reset_done job p).1 ∷ settled jobs (reset_done job p).0

reset_done-waiters :
    (p : Pool) (job w : ℕ) (ws : List ℕ)
    → p.waiters ≡ w ∷ ws
    → ((reset_done job p).1 ≡ handed w) × ((reset_done job p).0.waiters ≡ ws)
unfolding reset_done
reset_done-waiters p job w ws e = (ground arith, ground arith)

settled-waiters :
    (jobs ws : List ℕ) (p : Pool)
    → p.waiters ≡ ws
    → length jobs ≡ length ws
    → settled jobs p ≡ map handed ws
settled-waiters [] [] p e n = refl
settled-waiters [] (w ∷ ws) p e n = absurd (omega arith)
settled-waiters (job ∷ jobs) [] p e n = absurd (omega arith)
settled-waiters (job ∷ jobs) (w ∷ ws) p e n =
    let (h, q) = reset_done-waiters p job w ws e in
    rw (h) (ap (λ l. handed w ∷ l) (settled-waiters jobs ws (reset_done job p).0 q (omega arith)))

-- A number of callers, one behind the other, and what becomes of each.
abbrev pub callers : ℕ → Pool → Pool × List Acquired
callers zero p = (p, [])
callers (suc n) p =
    let (q, outcome) = acquire p in let (r, outcomes) = callers n q in (r, outcome ∷ outcomes)

-- The numbers of the next callers to wait.
abbrev pub tickets : ℕ → ℕ → List ℕ
tickets zero w = []
tickets (suc n) w = w ∷ tickets n (w + 1)

length-tickets : (n w : ℕ) → length (tickets n w) ≡ n
length-tickets zero w = refl
length-tickets (suc n) w = omega (arith, length-tickets n (w + 1))

-- A pool that waits for one more.
abbrev one_more : Pool → Pool
one_more p = record p { waiters = p.waiters ++ p.next_waiter ∷ []; next_waiter = p.next_waiter + 1 }

acquire-full :
    (p : Pool)
    → p.ending ≡ false
    → p.idle ≡ []
    → p.max_size ≤ length p.all + p.creating
    → acquire p ≡ (one_more p, queued p.next_waiter)
unfolding acquire
acquire-full p e i full = ground arith

-- In a full pool every caller waits, behind those who wait already.
callers-queued :
    (n : ℕ) (p : Pool)
    → p.ending ≡ false
    → p.idle ≡ []
    → p.max_size ≤ length p.all + p.creating
    → ((callers n p).1 ≡ map queued (tickets n p.next_waiter))
      × ((callers n p).0.waiters ≡ p.waiters ++ tickets n p.next_waiter)
callers-queued zero p e i full = (refl, sym (append-nil p.waiters))
callers-queued (suc n) p e i full =
    let (waits, queue) = callers-queued n (one_more p) e i full in
    rw (acquire-full p e i full) (
      ap (◌∷◌ (queued p.next_waiter)) waits,
      queue ∙ append_assoc p.waiters (p.next_waiter ∷ []) (tickets n (p.next_waiter + 1)),
    )

-- First come, first served: the pool is not shutting and is full, and has no idle job. The callers
-- that come now wait, and the jobs that are reset then go one each to those who waited before, in
-- their order, and then to these callers, in the order in which they came. There are as many jobs as
-- callers in all.
pub callers-served :
    (p : Pool) (n : ℕ) (freed : List ℕ)
    → p.ending ≡ false
    → p.idle ≡ []
    → p.max_size ≤ length p.all + p.creating
    → length freed ≡ length p.waiters + n
    → ((callers n p).1 ≡ map queued (tickets n p.next_waiter))
      × (settled freed (callers n p).0 ≡ map handed (p.waiters ++ tickets n p.next_waiter))
callers-served p n freed e i full enough =
    let (waits, queue) = callers-queued n p e i full in
    (
      waits,
      settled-waiters freed (p.waiters ++ tickets n p.next_waiter) (callers n p).0 queue (
          omega (
            arith,
            length-append p.waiters (tickets n p.next_waiter),
            length-tickets n p.next_waiter,
          )),
    )

-- The cap can be passed: the pool is not shutting, it is full and has no idle job, and a connected
-- job waits to be registered. A further caller is let through, and then the jobs, those being
-- connected included, are one more than `max_size`.
pub acquire_over_cap :
    (p : Pool)
    → p.ending ≡ false
    → p.idle ≡ []
    → p.landed ≢ []
    → jobs p ≡ p.max_size
    → ((acquire p).1 ≡ creates) × (jobs (acquire p).0 ≡ p.max_size + 1)
unfolding acquire
acquire_over_cap p n e l full = (ground arith, ground arith)

-- Waiting callers are not woken when a connection fails, although a slot is free then: they go on
-- waiting, and the next caller overtakes them. The pool is full, is not shutting and has no idle job.
pub connect_fails_overtaken :
    (p : Pool) (before behind : List Purpose)
    → p.ending ≡ false
    → p.idle ≡ []
    → p.creating ≢ 0
    → length p.all + p.creating ≡ p.max_size
    → ((connect_fails before behind p).waiters ≡ p.waiters)
      × ((acquire (connect_fails before behind p)).1 ≡ creates)
      × ((acquire (connect_fails before behind p)).0.waiters ≡ p.waiters)
unfolding connect_fails acquire
connect_fails_overtaken p before behind n e c full = (refl, ground arith, ground arith)
