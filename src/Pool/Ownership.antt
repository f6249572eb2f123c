-- ===== src/Pool/Ownership.antt =====
-- A job is lent to one session at a time.
use postgres_mapepire_proxy.Prelude.{
  ℕ, zero, suc, ◌+◌, ◌≤◌, ◌≡◌, refl, ap, subst, List, [], ◌∷◌, ◌++◌, ◌==◌, true, false, some, arith,
  Bool-cases, ◌⊎◌, inl, inr, false, if◌then◌else◌,
}
use postgres_mapepire_proxy.Pool.{
  Purpose, filling, acquiring, replacing, Pool, has, add, without, acquire, acquire_idle, expire,
  connect, connect_fails, register, release, reset_done, reset_fails, invalidate, replace, shut,
  cleared, settle, serve, init, open_jobs, open_job, new_pool,
}
use postgres_mapepire_proxy.Pool.Counts.{
  count, count_landed, count-append, count_landed-append, count-without, has-count, count-add,
}
use postgres_mapepire_proxy.Pool.Run.{
  Step, acquires, expires, connects, connection_fails, registers, releases, resets, reset_failing,
  invalidates, replaces, shuts, clears, Reach, here, next,
}

-- Where the job `j` stands: in one place at most; where it is in `all` it is idle, leased or being
-- reset (until the pool shuts); and nowhere before it is created. A pool that shuts has no waiters.
pub record Owned (j : ℕ) (p : Pool) : Type 0 where
  pub once : count j p.idle + count j p.leased + count j p.resetting + count_landed j p.landed ≤ 1
  pub members :
      p.ending ≡ false → count j p.all ≤ count j p.idle + count j p.leased + count j p.resetting
  pub fresh :
      p.next_job ≤ j
      → count j p.all
          + count j p.idle
          + count j p.leased
          + count j p.resetting
          + count_landed j p.landed
        ≡ 0
  pub no_waiters : p.ending ≡ true → p.waiters ≡ []

module _ (j : ℕ) (p : Pool) (v : Owned j p) where
  acquire_idle-Owned : (l : List ℕ) → p.idle ≡ l → p.ending ≡ false → Owned j (acquire_idle l p).0
  unfolding acquire_idle
  acquire_idle-Owned [] e n = ground arith
  acquire_idle-Owned (k ∷ ks) e n = ground (arith, count-add j k p.leased)

  acquire-Owned : Owned j (acquire p).0
  unfolding acquire
  acquire-Owned = elim (Bool-cases p.ending) [
    | inl e ↦ simp e v
    | inr e ↦ simp e (acquire_idle-Owned p.idle refl e)
  ]

  expire-Owned : (w : ℕ) → Owned j (expire w p)
  unfolding expire without
  expire-Owned w = record {
    once = v.once;
    members = v.members;
    fresh = v.fresh;
    no_waiters = λ e. rw (v.no_waiters e);
  }

  connect-Owned :
      (why : Purpose) (before behind : List Purpose) → Owned j (connect why before behind p)
  unfolding connect
  connect-Owned why before behind =
      ground (arith, count_landed-append j p.landed ((why, p.next_job) ∷ []))

  connect_fails-Owned : (before behind : List Purpose) → Owned j (connect_fails before behind p)
  unfolding connect_fails
  connect_fails-Owned before behind = record {
    once = v.once;
    members = v.members;
    fresh = v.fresh;
    no_waiters = v.no_waiters;
  }

  release-Owned :
      (job : ℕ) → (has job p.leased ≡ true) ⊎ (has job p.all ≡ false) → Owned j (release job p)
  unfolding release
  release-Owned job (inl h) =
      ground (arith, has-count job p.leased, has-count job p.all, count-without j job p.leased)
  release-Owned job (inr h) = simp h v

  settle-Owned :
      (job : ℕ) (l : List ℕ)
      → has job p.resetting ≡ true
      → p.waiters ≡ l
      → Owned j (settle l job (record p { resetting = without job p.resetting })).0
  unfolding settle
  settle-Owned job (w ∷ ws) h e =
      ground (
        arith,
        has-count job p.resetting,
        count-without j job p.resetting,
        count-add j job p.leased,
      )
  settle-Owned job [] h e = ground (
    arith,
    has-count job p.resetting,
    count-without j job p.resetting,
    count-append j p.idle (job ∷ []),
  )

  reset_done-Owned : (job : ℕ) → has job p.resetting ≡ true → Owned j (reset_done job p).0
  unfolding reset_done
  reset_done-Owned job h = settle-Owned job p.waiters h refl

  invalidate-Owned : (job : ℕ) → Owned j (invalidate job p)
  unfolding invalidate
  invalidate-Owned job =
      ground
        (arith, count-without j job p.leased, count-without j job p.idle, count-without j job p.all)

  reset_fails-Owned : (job : ℕ) → has job p.resetting ≡ true → Owned j (reset_fails job p)
  unfolding reset_fails
  reset_fails-Owned job h = ground (
    arith,
    has-count job p.resetting,
    count-without j job p.leased,
    count-without j job p.idle,
    count-without j job p.all,
    count-without j job p.resetting,
  )

  landed-count :
      (why : Purpose) (job : ℕ) (before behind : List (Purpose × ℕ))
      → p.landed ≡ before ++ (why, job) ∷ behind
      → count_landed j p.landed ≡ count_landed j (before ++ behind) + (if job == j then 1 else 0)
  landed-count why job before behind e = omega (
    arith,
    ap (count_landed j) e,
    count_landed-append j before ((why, job) ∷ behind),
    count_landed-append j before behind,
  )

  register_waiting-Owned :
      (job : ℕ) (l : List ℕ) (before behind : List (Purpose × ℕ))
      → p.landed ≡ before ++ (replacing, job) ∷ behind
      → p.waiters ≡ l
      → Owned j (serve l job (record p { landed = before ++ behind; all = add job p.all })).0
  register_waiting-Owned job [] before behind e w = ground (
    arith,
    landed-count replacing job before behind e,
    count-add j job p.all,
    count-append j p.idle (job ∷ []),
  )
  register_waiting-Owned job (x ∷ xs) before behind e w = ground (
    arith,
    landed-count replacing job before behind e,
    count-add j job p.all,
    count-add j job p.leased,
  )

  register-Owned :
      (why : Purpose) (job : ℕ) (before behind : List (Purpose × ℕ))
      → p.landed ≡ before ++ (why, job) ∷ behind
      → Owned j (register why job before behind p).0
  unfolding register
  register-Owned filling job before behind e = ground (
    arith,
    landed-count filling job before behind e,
    count-add j job p.all,
    count-append j p.idle (job ∷ []),
  )
  register-Owned acquiring job before behind e = ground (
    arith,
    landed-count acquiring job before behind e,
    count-add j job p.all,
    count-add j job p.leased,
  )
  register-Owned replacing job before behind e =
      register_waiting-Owned job p.waiters before behind e refl

  replace-Owned : Owned j (replace p)
  unfolding replace
  replace-Owned = ground arith

  shut-Owned : Owned j (shut p)
  unfolding shut
  shut-Owned = ground arith

  cleared-Owned : p.ending ≡ true → Owned j (cleared p)
  unfolding cleared
  cleared-Owned e = ground arith

-- Whatever happens next, the job stays in one place at most.
Step-Owned : (j : ℕ) {p q : Pool} → Step p q → Owned j p → Owned j q
Step-Owned j (acquires p) v = acquire-Owned j p v
Step-Owned j (expires p w) v = expire-Owned j p v w
Step-Owned j (connects p why before behind e) v = connect-Owned j p v why before behind
Step-Owned j (connection_fails p why before behind e) v = connect_fails-Owned j p v before behind
Step-Owned j (registers p why job before behind e) v = register-Owned j p v why job before behind e
Step-Owned j (releases p job h) v = release-Owned j p v job h
Step-Owned j (resets p job h) v = reset_done-Owned j p v job h
Step-Owned j (reset_failing p job h) v = reset_fails-Owned j p v job h
Step-Owned j (invalidates p job) v = invalidate-Owned j p v job
Step-Owned j (replaces p) v = replace-Owned j p v
Step-Owned j (shuts p) v = shut-Owned j p v
Step-Owned j (clears p e) v = cleared-Owned j p v e

open_jobs-Owned : (j n : ℕ) (p : Pool) → p.ending ≡ false → Owned j p → Owned j (open_jobs n p)
unfolding open_jobs
open_jobs-Owned j zero p e v = v
open_jobs-Owned j (suc n) p e v =
    open_jobs-Owned j n (open_job p) e
      (ground (arith, count-append j p.idle (p.next_job ∷ []), count-add j p.next_job p.all))

new_pool-Owned : (j n m : ℕ) → Owned j (new_pool n m)
unfolding new_pool
new_pool-Owned j n m = ground arith

init-Owned : (j n m : ℕ) {p : Pool} → init n m ≡ some p → Owned j p
unfolding init new_pool
init-Owned j n m {p} h =
    let e : open_jobs n (new_pool n m) ≡ p = ground arith in
    subst (Owned j) e (open_jobs-Owned j n (new_pool n m) refl (new_pool-Owned j n m))

-- From an initialized pool, along every interleaving of calls, connections, failures, timeouts and
-- the shutdown, each job is in at most one of: idle, leased, being reset, connected and waiting to be
-- registered. Until the shutdown, if it is in `all`, it is there once, and in one of the first three.
-- A job may be invalidated at any time, also while it is idle, reset or lent to another session; a
-- session gives back a job only while it is leased, or where it is not in `all` any more.
pub Reach-Owned :
    (n m : ℕ) {start p : Pool} (j : ℕ) → init n m ≡ some start → Reach start p → Owned j p
Reach-Owned n m j i here = init-Owned j n m i
Reach-Owned n m j i (next r s) = Step-Owned j s (Reach-Owned n m j i r)
