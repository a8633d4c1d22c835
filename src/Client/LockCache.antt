-- ===== src/Client/LockCache.antt =====
-- The client that caches locks: src/client/lock_client_cache.cc. A function is what a thread does under
-- `lock_m_`, up to its next remote call, its next wait or its return; it gives the phase that the thread is
-- in then. The lock server numbers statuses as src/include/client/lock_protocol.h does.
pub mod Threads
pub mod Keeps
pub mod Moves
pub mod Exclusive
pub mod Foreign
mod Examples
use ctgfs.Prelude.{
  ℕ, zero, suc, ◌+◌, ◌-◌, Bool, true, false, Option, none, some, ◌==◌, if◌then◌else◌,
}
use ctgfs.Master.LockCache.{Status, retry, retire}

pub data LockState : Type 0 where
  none_here free locked acquiring releasing : LockState

pub record LockCache : Type 0 where
  pub state : LockState
  pub is_revoked : Bool

abbrev pub lock_cache : LockCache
lock_cache = record { state = none_here; is_revoked = false }

-- `lsm_` and `waiting_threads`.
pub record LockClient : Type 0 where
  pub lsm : ℕ → Option LockCache
  pub waiting_threads : ℕ

abbrev pub lock_client : LockClient
lock_client = record { lsm = λ lid. none; waiting_threads = 0 }

-- A thread that is `asked`, `sending` or `retrying` waits for the reply of an acquire, one that is `releasing` or
-- `revoking` for the reply of a release. `failed` is a return without the lock, `aborted` an assertion.
pub data Phase : Type 0 where
  idle failed aborted : Phase
  asked waiting holding releasing sending revoking retrying : ℕ → Phase

abbrev pub Moved : Type 0
Moved = Phase × LockClient

abbrev or_new : Option LockCache → LockCache
or_new none = lock_cache
or_new (some e) = e

-- The first use of a lock makes its entry.
abbrev pub at_lock : LockClient → ℕ → LockCache
at_lock c lid = or_new (c.lsm lid)

abbrev pub set_cache : LockClient → ℕ → LockCache → LockClient
set_cache c lid e = record c { lsm = λ l. if l == lid then some e else c.lsm l }

abbrev pub set_state : LockClient → ℕ → LockState → LockClient
set_state c lid st = set_cache c lid (record (at_lock c lid) { state = st })

abbrev begin_wait : LockClient → ℕ → Moved
begin_wait c lid = (waiting lid, record c { waiting_threads = c.waiting_threads + 1 })

abbrev pub acquire_in : LockClient → ℕ → LockState → Moved
acquire_in c lid none_here = (asked lid, set_state c lid acquiring)
acquire_in c lid releasing = (asked lid, set_state c lid acquiring)
acquire_in c lid free = (holding lid, set_state c lid locked)
acquire_in c lid locked = begin_wait (set_cache c lid (at_lock c lid)) lid
acquire_in c lid acquiring = begin_wait (set_cache c lid (at_lock c lid)) lid

-- The loop of acquire, once.
unfoldable pub acquire : LockClient → ℕ → Moved
acquire c lid = acquire_in c lid (at_lock c lid).state

unfoldable pub wake : LockClient → ℕ → Moved
wake c lid = acquire (record c { waiting_threads = c.waiting_threads - 1 }) lid

abbrev is_revoked_by : Status → Bool → Bool
is_revoked_by retire b = true
is_revoked_by _ b = b

-- The lock is the client's, unless a revocation has come in the meantime.
abbrev pub granted : LockClient → ℕ → Status → Bool → Moved
granted c lid r true =
    acquire (set_cache c lid (record { state = none_here; is_revoked = false })) lid
granted c lid r false =
    (holding lid, set_cache c lid (record { state = locked; is_revoked = is_revoked_by r false }))

abbrev pub answered : LockClient → ℕ → Status → Moved
answered c lid retry = begin_wait (set_state c lid none_here) lid
answered c lid r = granted c lid r (at_lock c lid).is_revoked

abbrev pub acquire_reply_in : LockClient → ℕ → Status → LockState → Moved
acquire_reply_in c lid r acquiring = answered c lid r
acquire_reply_in c lid r _ = acquire c lid

-- The reply of an acquire, where the call itself went well.
unfoldable pub acquire_reply : LockClient → ℕ → Status → Moved
acquire_reply c lid r = acquire_reply_in c lid r (at_lock c lid).state

abbrev pub release_locked : LockClient → ℕ → Bool → Moved
release_locked c lid true =
    (releasing lid, set_cache c lid (record { state = releasing; is_revoked = false }))
release_locked c lid false = (idle, set_state c lid free)

abbrev pub release_in : LockClient → ℕ → LockState → Moved
release_in c lid locked = release_locked c lid (at_lock c lid).is_revoked
release_in c lid _ = (aborted, set_cache c lid (at_lock c lid))

unfoldable pub release : LockClient → ℕ → Moved
release c lid = release_in c lid (at_lock c lid).state

-- `need_send`: the lock is asked for again for the threads that wait.
abbrev pub released : LockClient → ℕ → ℕ → Moved
released c lid zero = (idle, set_state c lid none_here)
released c lid (suc n) = (sending lid, set_state c lid acquiring)

abbrev pub release_reply_in : LockClient → ℕ → LockState → Moved
release_reply_in c lid releasing = released c lid c.waiting_threads
release_reply_in c lid _ = (idle, c)

unfoldable pub release_reply : LockClient → ℕ → Moved
release_reply c lid = release_reply_in c lid (at_lock c lid).state

abbrev pub sent_for : LockClient → ℕ → Status → LockClient
sent_for c lid retry = set_state c lid none_here
sent_for c lid r =
    set_cache c lid
      (record { state = free; is_revoked = is_revoked_by r (at_lock c lid).is_revoked })

abbrev pub send_reply_in : LockClient → ℕ → Status → LockState → Moved
send_reply_in c lid r acquiring = (idle, sent_for c lid r)
send_reply_in c lid r _ = (idle, c)

unfoldable pub send_reply : LockClient → ℕ → Status → Moved
send_reply c lid r = send_reply_in c lid r (at_lock c lid).state

abbrev pub revoked : LockClient → ℕ → LockClient
revoked c lid = set_cache c lid (record (at_lock c lid) { is_revoked = true })

abbrev pub revoke_in : LockClient → ℕ → LockState → Moved
revoke_in c lid free = (revoking lid, set_state c lid releasing)
revoke_in c lid locked = (idle, revoked c lid)
revoke_in c lid acquiring = (idle, revoked c lid)
revoke_in c lid _ = (idle, set_cache c lid (at_lock c lid))

unfoldable pub revoke_handler : LockClient → ℕ → Moved
revoke_handler c lid = revoke_in c lid (at_lock c lid).state

abbrev pub revoke_reply_in : LockClient → ℕ → LockState → Moved
revoke_reply_in c lid releasing = (idle, set_state c lid none_here)
revoke_reply_in c lid _ = (idle, c)

unfoldable pub revoke_reply : LockClient → ℕ → Moved
revoke_reply c lid = revoke_reply_in c lid (at_lock c lid).state

abbrev pub retry_in : LockClient → ℕ → Option LockState → Moved
retry_in c lid none = (aborted, c)
retry_in c lid (some free) = (idle, c)
retry_in c lid (some locked) = (idle, c)
retry_in c lid (some _) = (retrying lid, set_state c lid acquiring)

abbrev pub state_of : Option LockCache → Option LockState
state_of none = none
state_of (some e) = some e.state

-- A lock that the client has never used is an assertion.
unfoldable pub retry_handler : LockClient → ℕ → Moved
retry_handler c lid = retry_in c lid (state_of (c.lsm lid))

-- Both RETIRE and RETRY.
abbrev pub is_retired_by : Status → Bool → Bool
is_retired_by retire b = true
is_retired_by retry b = true
is_retired_by _ b = b

abbrev pub retry_reply_in : LockClient → ℕ → Status → LockState → Moved
retry_reply_in c lid r acquiring = (
  idle,
  set_cache c lid
      (record { state = free; is_revoked = is_retired_by r (at_lock c lid).is_revoked }),
)
retry_reply_in c lid r _ = retry_handler c lid

unfoldable pub retry_reply : LockClient → ℕ → Status → Moved
retry_reply c lid r = retry_reply_in c lid r (at_lock c lid).state
