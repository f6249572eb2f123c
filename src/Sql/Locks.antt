-- ===== src/Sql/Locks.antt =====
-- sql/advisory-lock.ts: the registry of advisory locks that all sessions of the process share. An
-- owner is the number of a session, and a key is the text that parseAdvisoryKey makes.
pub mod Laws
use postgres_mapepire_proxy.Prelude.{
  ℕ, zero, suc, ◌+◌, ◌-◌, ltb, ◌==◌, List, [], ◌∷◌, Bool, true, false, Option, none, some,
  if◌then◌else◌, Text, codes,
}
use postgres_mapepire_proxy.Prelude.Int.{pos, negsuc}
use postgres_mapepire_proxy.Ddl.Registry.{get, put, delete}
use postgres_mapepire_proxy.Wire.Oids.{oid}
use postgres_mapepire_proxy.Wire.Encode.{Cell, null, boolean, FieldDescription}
use postgres_mapepire_proxy.Session.State.{Synthetic}

-- HeldLock
pub record HeldLock : Type 0 where
  pub owner : ℕ
  pub count : ℕ

abbrev pub Locks : Type 0
Locks = List (Text × HeldLock)

-- PgAdvisoryLockQuery; the key of an unlockAll is not read.
pub data LockAction : Type 0 where
  try_lock unlock unlock_all : LockAction

pub record LockQuery : Type 0 where
  pub action : LockAction
  pub key : Text
  pub field_name : Text

-- The branch of tryLock.
unfoldable pub lock : Text → ℕ → Locks → Locks × Bool
lock key owner held = elim (get key held) [
  | none ↦ (put key (record { owner = owner; count = 1 }) held, true)
  | some h ↦
      if h.owner == owner
      then (put key (record h { count = h.count + 1 }) held, true)
      else (held, false)
]

-- The branch of unlock.
unfoldable pub release_one : Text → ℕ → Locks → Locks × Bool
release_one key owner held = elim (get key held) [
  | none ↦ (held, false)
  | some h ↦
      if h.owner == owner
      then (
        if ltb 1 h.count then put key (record h { count = h.count - 1 }) held else delete key held,
        true,
      )
      else (held, false)
]

-- releaseAllPgAdvisoryLocks(owner), with the number of locks released.
unfoldable pub release_all : ℕ → Locks → Locks × ℕ
release_all owner [] = ([], 0)
release_all owner ((key, h) ∷ held) =
    let (rest, released) = release_all owner held in
    if h.owner == owner then (rest, released + 1) else ((key, h) ∷ rest, released)

-- pgAdvisoryLockFields(query)
unfoldable pub lock_fields : LockQuery → List FieldDescription
lock_fields q = elim q.action [
  | try_lock ↦ field oid.bool (pos 1)
  | unlock ↦ field oid.bool (pos 1)
  | unlock_all ↦ field oid.text (negsuc 0)
]
  where
    field : ℕ → postgres_mapepire_proxy.Prelude.Int.ℤ → List FieldDescription
    field type size =
        (record {
          name = q.field_name;
          table_oid = 0;
          column_attr = pos 0;
          type_oid = type;
          type_size = size;
          type_modifier = negsuc 0;
          format = 0;
        })
        ∷ []

-- The result of one row and one column.
abbrev single : LockQuery → Cell → Synthetic
single q c = record { fields = lock_fields q; rows = (c ∷ []) ∷ []; tag = codes "SELECT 1" }

-- executePgAdvisoryLockQuery(query, owner)
unfoldable pub execute_lock : LockQuery → ℕ → Locks → Locks × Synthetic
execute_lock q owner held = elim q.action [
  | unlock_all ↦ ((release_all owner held).0, single q null)
  | try_lock ↦ let (after, value) = lock q.key owner held in (after, single q (boolean value))
  | unlock ↦ let (after, value) = release_one q.key owner held in (after, single q (boolean value))
]
