-- ===== src/Pool/Tests.antt =====
-- The pool on concrete runs.
use postgres_mapepire_proxy.Prelude.{
  ◌≡◌, refl, [], ◌∷◌, arith, true, ◌==◌, false, some, none, if◌then◌else◌, codes,
}
use postgres_mapepire_proxy.Pool.{
  acquiring, Pool, acquire, release, invalidate, reset_done, init, open_jobs, new_pool,
  connect_fails, connect, creates, queued, handed,
}
use postgres_mapepire_proxy.Prelude.Results.{ok}
use postgres_mapepire_proxy.Ddl.Registry.{get}
use postgres_mapepire_proxy.Pool.Schema.{
  Catalogue, Schemas, inspected, looked_up, inspect_schema, judge, judged, create_schema,
  invalidate_schema, prepared, prepare_schema,
}
use postgres_mapepire_proxy.Pool.Schema.Laws.{IsPrepared, prepare_schema-IsPrepared}
use postgres_mapepire_proxy.Pool.Run.{acquires, connects, Reach, here, next}
use postgres_mapepire_proxy.Pool.Ownership.{Owned, Reach-Owned}
use postgres_mapepire_proxy.Pool.Capacity.{Capped, jobs, Step-Capped}
use postgres_mapepire_proxy.Pool.Waiting.{
  settled, callers, callers-served, acquire_over_cap, connect_fails_overtaken,
}

-- Two jobs at the start, three at most.
abbrev small : Pool
small = open_jobs 2 (new_pool 2 3)

-- One session takes a job and gives it back.
lent_twice : Reach small (acquire (acquire small).0).0
lent_twice = next (next here (acquires small)) (acquires (acquire small).0)

Reach-Owned_example : Owned 0 (acquire (acquire small).0).0
unfolding init
Reach-Owned_example = Reach-Owned 2 3 0 refl lent_twice

-- A full pool of one job, with a job that has connected and is not registered.
abbrev one_landed : Pool
one_landed = record (new_pool 1 1) { landed = (acquiring, 0) ∷ []; next_job = 1 }

-- The cap is full with one connection in flight.
abbrev one_connecting : Pool
one_connecting = record (new_pool 1 1) {
  creating = 1;
  connecting = acquiring ∷ [];
  waiters = 7 ∷ [];
  next_waiter = 8;
}

one_connecting-Capped : Capped one_connecting
unfolding new_pool
one_connecting-Capped = record { sizes = omega arith; in_flight = refl; within = omega arith }

Step-Capped_example : Capped (connect acquiring [] [] one_connecting)
Step-Capped_example =
    Step-Capped (connects one_connecting acquiring [] [] refl) tt one_connecting-Capped

acquire_over_cap_example : ((acquire one_landed).1 ≡ creates) × (jobs (acquire one_landed).0 ≡ 2)
unfolding new_pool
acquire_over_cap_example = acquire_over_cap one_landed refl refl (ground arith) refl

connect_fails_overtaken_example :
    ((connect_fails [] [] one_connecting).waiters ≡ 7 ∷ [])
    × ((acquire (connect_fails [] [] one_connecting)).1 ≡ creates)
    × ((acquire (connect_fails [] [] one_connecting)).0.waiters ≡ 7 ∷ [])
unfolding new_pool
connect_fails_overtaken_example =
    connect_fails_overtaken one_connecting [] [] refl refl (ground arith) refl

callers-served_example :
    ((callers 2 one_connecting).1 ≡ queued 8 ∷ queued 9 ∷ [])
    × (settled (0 ∷ 1 ∷ 2 ∷ []) (callers 2 one_connecting).0 ≡ handed 7 ∷ handed 8 ∷ handed 9 ∷ [])
unfolding new_pool
callers-served_example =
    callers-served one_connecting 2 (0 ∷ 1 ∷ 2 ∷ []) refl refl (ground arith) refl

-- A catalogue without the schema before it is created.
abbrev empty_catalogue : Catalogue
empty_catalogue = record {
  inspect = λ n schema.
      if n == 0
      then ok (record { exists = false; writes_configured = some false })
      else ok (record { exists = true; writes_configured = some true });
  create = λ n schema. ok tt;
  default_schema = codes "QGPL";
  auto_create = true;
  require_transactional = true;
}

abbrev nothing_known : Schemas
nothing_known = record { cache = []; default_capabilities = none; inspections = 0; created = [] }

created_on_the_way :
    (prepare_schema empty_catalogue (codes "APP") false true nothing_known).0
    ≡ ok (record { exists = true; writes_configured = some true })
unfolding prepare_schema inspect_schema looked_up inspected prepared create_schema judged judge get
    invalidate_schema
created_on_the_way = refl

prepare_schema-IsPrepared_example :
    IsPrepared empty_catalogue
      (codes "APP")
      false
      nothing_known
      (record { exists = true; writes_configured = some true })
      (prepare_schema empty_catalogue (codes "APP") false true nothing_known).1
prepare_schema-IsPrepared_example =
    prepare_schema-IsPrepared empty_catalogue (codes "APP") false true nothing_known
      (record { exists = true; writes_configured = some true }) created_on_the_way

-- A job that is invalidated while it is reset comes back to the idle jobs, and is in `all` no more.
invalidated_in_reset :
    let p = (reset_done 0 (invalidate 0 (release 0 (acquire small).0))).0 in
    (p.idle ≡ 1 ∷ 0 ∷ []) × (p.all ≡ 1 ∷ [])
unfolding reset_done invalidate release acquire open_jobs new_pool
invalidated_in_reset = (refl, refl)
