-- ===== src/Sql/Locks/Laws.antt =====
-- What the advisory locks promise to the sessions.
use postgres_mapepire_proxy.Prelude.{
  ℕ, zero, suc, ◌+◌, ◌-◌, ◌≡◌, refl, ap, ◌∙◌, ltb, ◌==◌, [], ◌∷◌, true, false, Option, none, some,
  if◌then◌else◌, Text, text_eq_refl, arith, inl, inr, Bool-cases, Option-cases, ==_iff, sym,
}
use postgres_mapepire_proxy.Ddl.Registry.{get, put, delete}
use postgres_mapepire_proxy.Ddl.Registry.Laws.{get-put, get-delete}
use postgres_mapepire_proxy.Sql.Locks.{HeldLock, Locks, lock, release_one, release_all}

get-put-same : (key : Text) (h : HeldLock) (held : Locks) → get key (put key h held) ≡ some h
get-put-same key h held =
    get-put key key h held ∙ ap (λ b. if b then some h else get key held) (text_eq_refl key)

get-delete-same : (key : Text) (held : Locks) → get key (delete key held) ≡ none
get-delete-same key held =
    get-delete key key held ∙ ap (λ b. if b then none else get key held) (text_eq_refl key)

-- The branches of `lock` and of `release_one`.
lock-free :
    (key : Text) (owner : ℕ) (held : Locks)
    → get key held ≡ none
    → lock key owner held ≡ (put key (record { owner = owner; count = 1 }) held, true)
unfolding lock
lock-free key owner held e = ground arith

lock-own :
    (key : Text) (owner : ℕ) (held : Locks) {h : HeldLock}
    → get key held ≡ some h
    → (h.owner == owner) ≡ true
    → lock key owner held ≡ (put key (record h { count = h.count + 1 }) held, true)
unfolding lock
lock-own key owner held e o = ground arith

lock-other :
    (key : Text) (owner : ℕ) (held : Locks) {h : HeldLock}
    → get key held ≡ some h
    → (h.owner == owner) ≡ false
    → lock key owner held ≡ (held, false)
unfolding lock
lock-other key owner held e o = ground arith

release_one-own :
    (key : Text) (owner : ℕ) (held : Locks) {h : HeldLock}
    → get key held ≡ some h
    → (h.owner == owner) ≡ true
    → release_one key owner held ≡ (
      if ltb 1 h.count then put key (record h { count = h.count - 1 }) held else delete key held,
      true,
    )
unfolding release_one
release_one-own key owner held e o = ground arith

release_one-free :
    (key : Text) (owner : ℕ) (held : Locks)
    → get key held ≡ none
    → release_one key owner held ≡ (held, false)
unfolding release_one
release_one-free key owner held e = ground arith

lock-held :
    (key : Text) (owner : ℕ) (held : Locks)
    → (lock key owner held).1 ≡ true
    → (count : ℕ) × (get key (lock key owner held).0
        ≡ some (record { owner = owner; count = count }))
lock-held key owner held e = elim (Option-cases (get key held)) [
  | inl n ↦ (1, ap (λ p. get key p.0) (lock-free key owner held n) ∙ get-put-same key _ held)
  | inr (h, n) ↦ elim (Bool-cases (h.owner == owner)) [
    | inl o ↦ (
      h.count + 1,
      ap (λ p. get key p.0) (lock-own key owner held n o)
          ∙ get-put-same key _ held
          ∙ ap (λ w. some (record { owner = w; count = h.count + 1 }))
              (omega (arith, (==_iff h.owner owner).0 o)),
    )
    | inr o ↦ (let x = sym e ∙ ap (λ p. p.1) (lock-other key owner held n o) in ground arith)
  ]
]

-- While one session holds a key no other session gets it, and its attempt changes nothing.
pub lock-exclusive :
    (key : Text) (owner other : ℕ) (held : Locks)
    → (owner == other) ≡ false
    → (lock key owner held).1 ≡ true
    → lock key other (lock key owner held).0 ≡ ((lock key owner held).0, false)
lock-exclusive key owner other held n h =
    let (count, e) = lock-held key owner held h in lock-other key other (lock key owner held).0 e n

-- `n` times locked, and then `m` times unlocked, by the same session.
abbrev pub locked : ℕ → Text → ℕ → Locks → Locks
locked zero key owner held = held
locked (suc n) key owner held = (lock key owner (locked n key owner held)).0

abbrev pub unlocked : ℕ → Text → ℕ → Locks → Locks
unlocked zero key owner held = held
unlocked (suc m) key owner held = (release_one key owner (unlocked m key owner held)).0

-- What a key holds at a depth.
abbrev pub at_depth : ℕ → ℕ → Option HeldLock
at_depth owner zero = none
at_depth owner (suc n) = some (record { owner = owner; count = suc n })

lock-depth :
    (key : Text) (owner n : ℕ) (held : Locks)
    → get key held ≡ at_depth owner n
    → get key (lock key owner held).0 ≡ at_depth owner (suc n)
lock-depth key owner zero held h =
    ap (λ p. get key p.0) (lock-free key owner held h) ∙ get-put-same key _ held
lock-depth key owner (suc n) held h =
    ap (λ p. get key p.0) (lock-own key owner held h (ground arith))
    ∙ get-put-same key _ held
    ∙ ap (λ c. some (record { owner = owner; count = c })) (omega arith)

release_one-depth :
    (key : Text) (owner n : ℕ) (held : Locks)
    → get key held ≡ at_depth owner n
    → get key (release_one key owner held).0 ≡ at_depth owner (n - 1)
release_one-depth key owner zero held h =
    ap (λ p. get key p.0) (release_one-free key owner held h) ∙ h
release_one-depth key owner (suc zero) held h =
    ap (λ p. get key p.0) (release_one-own key owner held h (ground arith))
    ∙ get-delete-same key held
release_one-depth key owner (suc (suc n)) held h =
    ap (λ p. get key p.0) (release_one-own key owner held h (ground arith))
    ∙ ap (λ b. get key (if b then put key fewer held else delete key held)) more
    ∙ get-put-same key fewer held
    ∙ below (suc (suc n) - 1) (omega arith)
  where
    fewer : HeldLock
    fewer = record { owner = owner; count = suc (suc n) - 1 }

    more : ltb 1 (suc (suc n)) ≡ true
    more = ground arith

    below : (k : ℕ) → k ≡ suc n → some (record { owner = owner; count = k }) ≡ at_depth owner k
    below zero e = absurd (omega arith)
    below (suc k) e = refl

locked-depth :
    (n : ℕ) (key : Text) (owner : ℕ) (held : Locks)
    → get key held ≡ none
    → get key (locked n key owner held) ≡ at_depth owner n
locked-depth zero key owner held h = h
locked-depth (suc n) key owner held h =
    lock-depth key owner n (locked n key owner held) (locked-depth n key owner held h)

-- A key that is free, locked `n` times and then unlocked `m` times by one session, is held `n - m`
-- times by it: it is free again exactly from the `n`th unlock on.
pub unlocked-locked :
    (m n : ℕ) (key : Text) (owner : ℕ) (held : Locks)
    → get key held ≡ none
    → get key (unlocked m key owner (locked n key owner held)) ≡ at_depth owner (n - m)
unlocked-locked zero n key owner held h =
    locked-depth n key owner held h ∙ ap (at_depth owner) (omega arith)
unlocked-locked (suc m) n key owner held h =
    release_one-depth key owner (n - m) (unlocked m key owner (locked n key owner held))
      (unlocked-locked m n key owner held h)
    ∙ ap (at_depth owner) (omega arith)

release_all-others :
    (key : Text) (owner : ℕ) (held : Locks) (h : HeldLock)
    → get key held ≡ some h
    → (h.owner == owner) ≡ false
    → get key (release_all owner held).0 ≡ some h
unfolding release_all get
release_all-others key owner [] h e o = e
release_all-others key owner ((j, g) ∷ held) h e o =
    ground (arith, release_all-others key owner held h)

release_all-own :
    (key : Text) (owner : ℕ) (held : Locks) (h : HeldLock)
    → get key (release_all owner held).0 ≡ some h
    → (h.owner == owner) ≡ false
unfolding release_all get
release_all-own key owner [] h e = ground arith
release_all-own key owner ((j, g) ∷ held) h e = ground (arith, release_all-own key owner held h)

-- When a session closes, no key is left that is held by it, and a key that another session holds
-- stays as it is.
pub release_all_lem :
    (key : Text) (owner : ℕ) (held : Locks) (h : HeldLock)
    → (get key (release_all owner held).0 ≡ some h → (h.owner == owner) ≡ false)
      × (get key held ≡ some h
          → (h.owner == owner) ≡ false
          → get key (release_all owner held).0 ≡ some h)
release_all_lem key owner held h =
    (release_all-own key owner held h, release_all-others key owner held h)
