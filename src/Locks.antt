-- ===== src/Locks.antt =====
-- hps_sf/mutex.h: the scoped locks, with the calls that they make on the lock that they guard, and
-- the lock made of an atomic flag. The other locks pass each call on to pthread.
pub mod Tests
pub mod Scoped
pub mod Guarding
pub mod Owners
pub mod Spinning
use collabor_ative_schedule.Base.{ℕ, Bool, true, false, not, List, [], ◌∷◌, ◌++◌, if◌then◌else◌}

-- A call on the guarded lock.
pub data Op : Type 0 where
  lock rdlock wrlock unlock : Op

-- A scoped lock: `m_locked`, and the calls so far on `m_mutex`.
pub record ScopedLock : Type 0 where
  pub locked : Bool
  pub ops : List Op

abbrev pub calls : Op → ScopedLock → ScopedLock
calls op s = record s { ops = s.ops ++ op ∷ [] }

-- The constructors of `hps_ScopedLockImpl`, `hps_ReadScopedLockImpl` and `hps_WriteScopedLockImpl`;
-- `before` is what was called on the lock until then.
unfoldable pub new_scoped_lock : List Op → ScopedLock
new_scoped_lock before = record { locked = true; ops = before ++ lock ∷ [] }

unfoldable pub new_read_lock : List Op → ScopedLock
new_read_lock before = record { locked = true; ops = before ++ rdlock ∷ [] }

unfoldable pub new_write_lock : List Op → ScopedLock
new_write_lock before = record { locked = true; ops = before ++ wrlock ∷ [] }

-- `lock` of each of the three.
unfoldable pub lock_scoped : ScopedLock → ScopedLock
lock_scoped s = if not s.locked then record (calls lock s) { locked = true } else s

unfoldable pub lock_read : ScopedLock → ScopedLock
lock_read s = if not s.locked then record (calls rdlock s) { locked = true } else s

unfoldable pub lock_write : ScopedLock → ScopedLock
lock_write s = if not s.locked then record (calls wrlock s) { locked = true } else s

-- `unlock`, which is the same in the three, and the destructor.
unfoldable pub unlock_scoped : ScopedLock → ScopedLock
unlock_scoped s = if s.locked then record (calls unlock s) { locked = false } else s

unfoldable pub destroy_scoped : ScopedLock → ScopedLock
unfolding unlock_scoped
destroy_scoped s = record (unlock_scoped s) { locked = false }

-- `hps_CASLock`: the flag after the constructor, after one test of the loop in `lock`, which says
-- whether the lock was taken, and after `unlock`.
unfoldable pub new_cas_lock : Bool
new_cas_lock = false

unfoldable pub test_and_set : Bool → Bool × Bool
test_and_set flag = (not flag, true)

unfoldable pub clear : Bool → Bool
clear flag = false
