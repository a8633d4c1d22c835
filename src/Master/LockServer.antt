-- ===== src/Master/LockServer.antt =====
-- The lock server without caching: src/master/lock_server.cc. A thread in `acquire` goes round its loop
-- until it finds the lock free, and waits in between: each round is a step, under the mutex.
pub mod Exclusive
mod Examples
use ctgfs.Prelude.{ℕ, Bool, true, false, Option, none, some, List, [], ◌∷◌, ◌==◌, if◌then◌else◌}

-- `lock_map_`: whether the lock is there, and whether it is locked.
abbrev pub LockMap : Type 0
LockMap = ℕ → Option Bool

abbrev set_lock : LockMap → ℕ → Bool → LockMap
set_lock m lid b other = if other == lid then some b else m other

abbrev round_of : LockMap → ℕ → Option Bool → Bool × LockMap
round_of m lid none = (true, set_lock m lid true)
round_of m lid (some true) = (false, m)
round_of m lid (some false) = (true, set_lock m lid true)

-- One round of `acquire`: whether it returns.
unfoldable pub acquire_round : LockMap → ℕ → Bool × LockMap
acquire_round m lid = round_of m lid (m lid)

-- The map, and whether a waiting thread is signalled.
abbrev release_of : LockMap → ℕ → Option Bool → Bool × LockMap
release_of m lid none = (false, m)
release_of m lid (some true) = (true, set_lock m lid false)
release_of m lid (some false) = (false, m)

unfoldable pub release : LockMap → ℕ → Bool × LockMap
release m lid = release_of m lid (m lid)

pub data Event : Type 0 where
  tries : ℕ → Event
  releases : ℕ → Event

unfoldable pub step : LockMap → Event → LockMap
step m (tries lid) = (acquire_round m lid).1
step m (releases lid) = (release m lid).1

unfoldable pub run : LockMap → List Event → LockMap
run m [] = m
run m (e ∷ es) = run (step m e) es

abbrev pub no_locks : LockMap
no_locks lid = none
