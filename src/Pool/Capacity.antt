-- ===== src/Pool/Capacity.antt =====
-- How many jobs there can be, and when a caller has to wait.
use postgres_mapepire_proxy.Prelude.{
  ℕ, ◌+◌, ◌≤◌, ◌≡◌, ap, List, [], ◌∷◌, ◌++◌, arith, Bool-cases, inl, inr, length, length-append,
}
use postgres_mapepire_proxy.Pool.{
  Purpose, filling, acquiring, replacing, Pool, add, without, acquire, acquire_idle, expire,
  connect, connect_fails, register, release, reset_done, reset_fails, invalidate, replace, shut,
  cleared, settle, serve,
}
use postgres_mapepire_proxy.Pool.Counts.{length-add_le, length-without_le}
use postgres_mapepire_proxy.Pool.Run.{
  Step, acquires, expires, connects, connection_fails, registers, releases, resets, reset_failing,
  invalidates, replaces, shuts, clears,
}

-- The jobs that exist, that are being connected, and that wait to be registered.
abbrev pub jobs : Pool → ℕ
jobs p = length p.all + p.creating + length p.landed

-- `creating` counts the connections in flight, and with the jobs it stays within the cap.
pub record Capped (p : Pool) : Type 0 where
  pub sizes : p.starting_size ≤ p.max_size
  pub in_flight : p.creating ≡ length p.connecting
  pub within : jobs p ≤ p.max_size

-- The two checks of the cap see every job: none has connected without being registered yet.
abbrev pub ChecksAll : {p q : Pool} → Step p q → Type 0
ChecksAll (acquires p) = p.landed ≡ []
ChecksAll (replaces p) = p.landed ≡ []
ChecksAll (expires p w) = Unit {0}
ChecksAll (connects p why before behind e) = Unit {0}
ChecksAll (connection_fails p why before behind e) = Unit {0}
ChecksAll (registers p why job before behind e) = Unit {0}
ChecksAll (releases p job h) = Unit {0}
ChecksAll (resets p job h) = Unit {0}
ChecksAll (reset_failing p job h) = Unit {0}
ChecksAll (invalidates p job) = Unit {0}
ChecksAll (shuts p) = Unit {0}
ChecksAll (clears p e) = Unit {0}

module _ (p : Pool) (v : Capped p) where
  acquire_idle-Capped : (l : List ℕ) → p.landed ≡ [] → Capped (acquire_idle l p).0
  unfolding acquire_idle
  acquire_idle-Capped [] quiet =
      ground (arith, length-append p.connecting (acquiring ∷ []), ap length quiet)
  acquire_idle-Capped (k ∷ ks) quiet = ground arith

  acquire-Capped : p.landed ≡ [] → Capped (acquire p).0
  unfolding acquire
  acquire-Capped quiet = elim (Bool-cases p.ending) [
    | inl e ↦ simp e v
    | inr e ↦ simp e (acquire_idle-Capped p.idle quiet)
  ]

  length-split :
      {A : Type 0} (x : A) (l before behind : List A)
      → l ≡ before ++ x ∷ behind
      → length l ≡ length (before ++ behind) + 1
  length-split x l before behind e =
      omega (arith, ap length e, length-append before (x ∷ behind), length-append before behind)

  connect-Capped :
      (why : Purpose) (before behind : List Purpose)
      → p.connecting ≡ before ++ why ∷ behind
      → Capped (connect why before behind p)
  unfolding connect
  connect-Capped why before behind e = ground (
    arith,
    length-split why p.connecting before behind e,
    length-append p.landed ((why, p.next_job) ∷ []),
  )

  connect_fails-Capped :
      (why : Purpose) (before behind : List Purpose)
      → p.connecting ≡ before ++ why ∷ behind
      → Capped (connect_fails before behind p)
  unfolding connect_fails
  connect_fails-Capped why before behind e =
      ground (arith, length-split why p.connecting before behind e)

  serve-Capped :
      (l : List ℕ) (job : ℕ) (before behind : List (Purpose × ℕ))
      → length (before ++ behind) + 1 ≤ length p.landed
      → Capped (serve l job (record p { landed = before ++ behind; all = add job p.all })).0
  serve-Capped [] job before behind e = ground (arith, length-add_le job p.all)
  serve-Capped (w ∷ ws) job before behind e = ground (arith, length-add_le job p.all)

  register-Capped :
      (why : Purpose) (job : ℕ) (before behind : List (Purpose × ℕ))
      → p.landed ≡ before ++ (why, job) ∷ behind
      → Capped (register why job before behind p).0
  unfolding register
  register-Capped filling job before behind e =
      ground (arith, length-split (filling, job) p.landed before behind e, length-add_le job p.all)
  register-Capped acquiring job before behind e =
      ground
        (arith, length-split (acquiring, job) p.landed before behind e, length-add_le job p.all)
  register-Capped replacing job before behind e =
      serve-Capped p.waiters job before behind
        (omega (arith, length-split (replacing, job) p.landed before behind e))

  release-Capped : (job : ℕ) → Capped (release job p)
  unfolding release
  release-Capped job = ground arith

  settle-Capped :
      (job : ℕ) (l : List ℕ)
      → Capped (settle l job (record p { resetting = without job p.resetting })).0
  unfolding settle
  settle-Capped job [] = ground arith
  settle-Capped job (w ∷ ws) = ground arith

  reset_done-Capped : (job : ℕ) → Capped (reset_done job p).0
  unfolding reset_done
  reset_done-Capped job = settle-Capped job p.waiters

  invalidate-Capped : (job : ℕ) → Capped (invalidate job p)
  unfolding invalidate
  invalidate-Capped job = ground (arith, length-without_le job p.all)

  reset_fails-Capped : (job : ℕ) → Capped (reset_fails job p)
  unfolding reset_fails
  reset_fails-Capped job = ground (arith, length-without_le job p.all)

  replace-Capped : p.landed ≡ [] → Capped (replace p)
  unfolding replace
  replace-Capped quiet =
      ground (arith, length-append p.connecting (replacing ∷ []), ap length quiet)

-- The cap of `max_size` jobs holds along every step at which the code's two checks see all jobs. The
-- checks do not count a job that has connected and is not registered yet.
pub Step-Capped : {p q : Pool} (s : Step p q) → ChecksAll s → Capped p → Capped q
Step-Capped (acquires p) quiet v = acquire-Capped p v quiet
Step-Capped (expires p w) quiet v = unfold expire in ground arith
Step-Capped (connects p why before behind e) quiet v = connect-Capped p v why before behind e
Step-Capped (connection_fails p why before behind e) quiet v =
    connect_fails-Capped p v why before behind e
Step-Capped (registers p why job before behind e) quiet v =
    register-Capped p v why job before behind e
Step-Capped (releases p job h) quiet v = release-Capped p v job
Step-Capped (resets p job h) quiet v = reset_done-Capped p v job
Step-Capped (reset_failing p job h) quiet v = reset_fails-Capped p v job
Step-Capped (invalidates p job) quiet v = invalidate-Capped p v job
Step-Capped (replaces p) quiet v = replace-Capped p v quiet
Step-Capped (shuts p) quiet v = unfold shut in ground arith
Step-Capped (clears p e) quiet v = unfold cleared in ground arith
