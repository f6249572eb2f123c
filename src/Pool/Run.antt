-- ===== src/Pool/Run.antt =====
-- Everything that can happen to the pool, one uninterrupted piece of a method at a time. The
-- clients are the sessions. A session gives back the job that it holds, which is leased or which
-- another session has invalidated meanwhile. An invalidation may come at any time and of any job: the
-- catch of ensureBackendJob also invalidates a job that the close of its session has given back.
-- `replaces` may come at any time here, and in the source only behind an invalidation.
use postgres_mapepire_proxy.Prelude.{ℕ, ◌≡◌, List, ◌∷◌, ◌++◌, ◌⊎◌, true, false}
use postgres_mapepire_proxy.Pool.{
  Purpose, Pool, has, acquire, expire, connect, connect_fails, register, release, reset_done,
  reset_fails, invalidate, replace, shut, cleared,
}

pub data Step : Pool → Pool → Type 0 where
  acquires : (p : Pool) → Step p (acquire p).0
  expires : (p : Pool) (w : ℕ) → Step p (expire w p)
  connects :
      (p : Pool) (why : Purpose) (before behind : List Purpose)
      → p.connecting ≡ before ++ why ∷ behind
      → Step p (connect why before behind p)
  connection_fails :
      (p : Pool) (why : Purpose) (before behind : List Purpose)
      → p.connecting ≡ before ++ why ∷ behind
      → Step p (connect_fails before behind p)
  registers :
      (p : Pool) (why : Purpose) (job : ℕ) (before behind : List (Purpose × ℕ))
      → p.landed ≡ before ++ (why, job) ∷ behind
      → Step p (register why job before behind p).0
  releases :
      (p : Pool) (job : ℕ)
      → (has job p.leased ≡ true) ⊎ (has job p.all ≡ false)
      → Step p (release job p)
  resets : (p : Pool) (job : ℕ) → has job p.resetting ≡ true → Step p (reset_done job p).0
  reset_failing : (p : Pool) (job : ℕ) → has job p.resetting ≡ true → Step p (reset_fails job p)
  invalidates : (p : Pool) (job : ℕ) → Step p (invalidate job p)
  replaces : (p : Pool) → Step p (replace p)
  shuts : (p : Pool) → Step p (shut p)
  clears : (p : Pool) → p.ending ≡ true → Step p (cleared p)

-- The pools that can follow.
pub data Reach (start : Pool) : Pool → Type 0 where
  here : Reach start start
  next : {p q : Pool} → Reach start p → Step p q → Reach start q
