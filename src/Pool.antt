-- ===== src/Pool.antt =====
-- mapepire/session-pool.ts, SessionJobPool. A method that awaits is cut at its awaits: each piece
-- runs without interruption, and what happens between two pieces is the environment's choice
-- (Pool.Run). A SQLJob is the number of its creation. A `Set` is a list in insertion order. Beside
-- the source's fields stand the calls that wait: `connecting` (createTrackedJob before its job
-- connects, with what it is for), `landed` (connected and counted out of `creating`, its caller
-- not yet resumed) and `resetting` (release between its two parts).
mod Counts
pub mod Capabilities
pub mod Run
pub mod Ownership
pub mod Capacity
pub mod Waiting
pub mod Schema
mod Tests
use postgres_mapepire_proxy.Prelude.{
  ℕ, zero, suc, ◌+◌, ◌-◌, ◌<◌, ◌≤◌, ◌≡◌, List, [], ◌∷◌, ◌++◌, ltb, leb, ◌==◌, Bool, true, false,
  not, Option, none, some, ◌&&◌, ◌||◌, if◌then◌else◌, length, every,
}

-- Who called createTrackedJob: init, acquire, or invalidate for a replacement.
pub data Purpose : Type 0 where
  filling acquiring replacing : Purpose

pub record Pool : Type 0 where
  pub starting_size : ℕ
  pub max_size : ℕ
  pub idle : List ℕ
  pub leased : List ℕ
  pub all : List ℕ
  pub waiters : List ℕ
  pub creating : ℕ
  pub ending : Bool
  pub connecting : List Purpose
  pub landed : List (Purpose × ℕ)
  pub resetting : List ℕ
  pub next_job : ℕ
  pub next_waiter : ℕ

-- `set.has(job)`, and the count of a job in a list.
pub has : ℕ → List ℕ → Bool
has j [] = false
has j (k ∷ ks) = k == j || has j ks

-- `set.delete(job)`, `idle.filter((j) => j !== job)` and the splice of one waiter.
pub without : ℕ → List ℕ → List ℕ
without j [] = []
without j (k ∷ ks) = let rest = without j ks in if k == j then rest else k ∷ rest

-- `set.add(job)`
pub add : ℕ → List ℕ → List ℕ
add j ks = if has j ks then ks else ks ++ j ∷ []

-- The pool that the constructor builds.
unfoldable pub new_pool : ℕ → ℕ → Pool
new_pool starting max = record {
  starting_size = starting;
  max_size = max;
  idle = [];
  leased = [];
  all = [];
  waiters = [];
  creating = 0;
  ending = false;
  connecting = [];
  landed = [];
  resetting = [];
  next_job = 0;
  next_waiter = 0;
}

-- createTrackedJob up to its await: `creating += 1`.
pub begin_create : Purpose → Pool → Pool
begin_create why p = record p { creating = p.creating + 1; connecting = p.connecting ++ why ∷ [] }

-- What acquire does before it first waits.
pub data Acquired : Type 0 where
  refused : Acquired
  granted : ℕ → Acquired
  creates : Acquired
  queued : ℕ → Acquired

-- The part of acquire for an empty idle list: create below the cap, else wait.
acquire_new : Pool → Pool × Acquired
acquire_new p =
    if ltb (length p.all + p.creating) p.max_size then (begin_create acquiring p, creates) else (
      record p { waiters = p.waiters ++ p.next_waiter ∷ []; next_waiter = p.next_waiter + 1 },
      queued p.next_waiter,
    )

acquire_idle : List ℕ → Pool → Pool × Acquired
unfolding acquire_new begin_create add
acquire_idle [] p = acquire_new p
acquire_idle (job ∷ rest) p = (record p { idle = rest; leased = add job p.leased }, granted job)

-- acquire()
unfoldable pub acquire : Pool → Pool × Acquired
unfolding acquire_idle
acquire p = if p.ending then (p, refused) else acquire_idle p.idle p

-- The timer of a waiter: it leaves the queue, and its promise is rejected.
pub expire : ℕ → Pool → Pool
expire w p = record p { waiters = without w p.waiters }

-- The `finally` of createTrackedJob when the connection of a call made for `why` succeeds.
pub connect : Purpose → List Purpose → List Purpose → Pool → Pool
connect why before behind p = record p {
  creating = p.creating - 1;
  connecting = before ++ behind;
  landed = p.landed ++ (why, p.next_job) ∷ [];
  next_job = p.next_job + 1;
}

-- The same when it fails: the caller rethrows, or logs.
pub connect_fails : List Purpose → List Purpose → Pool → Pool
connect_fails before behind p = record p {
  creating = p.creating - 1;
  connecting = before ++ behind;
}

-- A job that is free goes to the longest waiter, or to the idle list.
abbrev pub serve : List ℕ → ℕ → Pool → Pool × Option ℕ
serve [] job p = (record p { idle = p.idle ++ job ∷ [] }, none)
serve (w ∷ ws) job p = (record p { waiters = ws; leased = add job p.leased }, some w)

-- What the caller of createTrackedJob does with its job: createIdleJob, acquire and invalidate. The
-- second part is the waiter that got the job.
pub register : Purpose → ℕ → List (Purpose × ℕ) → List (Purpose × ℕ) → Pool → Pool × Option ℕ
unfolding add
register filling job before behind p =
    (record p { landed = before ++ behind; all = add job p.all; idle = p.idle ++ job ∷ [] }, none)
register acquiring job before behind p =
    (record p { landed = before ++ behind; all = add job p.all; leased = add job p.leased }, none)
register replacing job before behind p =
    serve p.waiters job (record p { landed = before ++ behind; all = add job p.all })

-- release(job) up to its first await.
pub release : ℕ → Pool → Pool
unfolding without has
release job p =
    if has job p.all
    then record p { leased = without job p.leased; resetting = job ∷ p.resetting }
    else p

-- What release does with a job that was reset.
pub data Settled : Type 0 where
  handed : ℕ → Settled
  pooled : Settled
  closed : Settled

settle : List ℕ → ℕ → Pool → Pool × Settled
unfolding add
settle (w ∷ ws) job p = (record p { waiters = ws; leased = add job p.leased }, handed w)
settle [] job p =
    if not p.ending then (record p { idle = p.idle ++ job ∷ [] }, pooled) else (p, closed)

-- release(job) behind a ROLLBACK and a SET CURRENT SCHEMA that succeeded.
pub reset_done : ℕ → Pool → Pool × Settled
unfolding settle without
reset_done job p = settle p.waiters job (record p { resetting = without job p.resetting })

-- invalidate(job) up to its await of closeJob.
pub invalidate : ℕ → Pool → Pool
unfolding without
invalidate job p = record p {
  idle = without job p.idle;
  leased = without job p.leased;
  all = without job p.all;
}

-- release(job) behind a reset that failed.
pub reset_fails : ℕ → Pool → Pool
unfolding invalidate
reset_fails job p = invalidate job (record p { resetting = without job p.resetting })

-- invalidate(job) behind closeJob: a replacement, below the starting size.
pub replace : Pool → Pool
unfolding begin_create
replace p =
    if not p.ending && ltb (length p.all + p.creating) p.starting_size
    then begin_create replacing p
    else p

-- end() up to its await: every waiter is rejected.
pub shut : Pool → Pool
shut p = record p { ending = true; waiters = [] }

-- end() behind the closing of all jobs.
pub cleared : Pool → Pool
cleared p = record p { idle = []; leased = []; all = [] }

-- The part of PoolStats that the pool's own fields give.
pub record PoolStats : Type 0 where
  pub total : ℕ
  pub idle_count : ℕ
  pub leased_count : ℕ
  pub waiting : ℕ
  pub available_slots : ℕ
  pub saturated : Bool

-- stats(); `-` stops at 0, as `Math.max(0, …)` does.
pub stats : Pool → PoolStats
stats p = record {
  total = length p.all;
  idle_count = length p.idle;
  leased_count = length p.leased;
  waiting = length p.waiters;
  available_slots = p.max_size - length p.all - p.creating + length p.idle;
  saturated =
      ltb 0 (length p.waiters)
      || (length p.idle == 0 && leb p.max_size (length p.all + p.creating));
}

-- isReady(), where `unhealthy` counts the jobs whose status is neither ready nor busy.
pub is_ready : (ℕ → Bool) → Pool → Bool
is_ready healthy p = not p.ending && ltb 0 (length p.all) && every healthy p.all

-- One round of init: createIdleJob, run to its end.
open_job : Pool → Pool
unfolding register connect begin_create
open_job p = (register filling p.next_job [] [] (connect filling [] [] (begin_create filling p))).0

open_jobs : ℕ → Pool → Pool
unfolding open_job
open_jobs zero p = p
open_jobs (suc n) p = open_jobs n (open_job p)

-- init(): the starting size of idle jobs, one after the other. Their order is the only thing that
-- the interleaving of `Promise.all` could change, and no call of the pool runs beside it.
unfoldable pub init : ℕ → ℕ → Option Pool
unfolding open_jobs new_pool
init starting max =
    if ltb starting 1 then none else some (open_jobs starting (new_pool starting max))
