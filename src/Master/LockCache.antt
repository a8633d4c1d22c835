-- ===== src/Master/LockCache.antt =====
-- The lock server of caching clients: src/master/lock_server_cache.cc. A handler holds the mutex
-- until it calls a client and does not use the locks after that, so that it is one step and the calls
-- that it makes.
pub mod Queue
pub mod Exclusive
mod Examples
use ctgfs.Prelude.{ℕ, Bool, true, false, List, [], ◌∷◌, ◌++◌, ◌==◌, if◌then◌else◌}
use ctgfs.Prelude.Bytes.{Bytes, bytes_eq}

pub data Status : Type 0 where
  ok : Status
  retry : Status
  rpcerr : Status
  noent : Status
  ioerr : Status
  retire : Status

pub record LockServState : Type 0 where
  pub holder : Bytes
  pub holded : Bool
  pub pendingers : List Bytes

abbrev pub lock_serv_state : LockServState
lock_serv_state = record { holder = []; holded = false; pendingers = [] }

-- `lsm_`: a lock that it does not have yet is in the state that its first use gives it.
abbrev pub Locks : Type 0
Locks = ℕ → LockServState

abbrev pub no_locks : Locks
no_locks lid = lock_serv_state

-- What `safebind` and the call of a client come to.
pub data Peer : Type 0 where
  unbound : Peer
  refuses : Peer
  answers : Peer

pub data Call : Type 0 where
  call_revoke : Bytes → ℕ → Call
  call_retry : Bytes → ℕ → Call

-- The result of a handler, its argument `r`, and the calls that it made.
pub record Outcome : Type 0 where
  pub ret : Status
  pub r : Status
  pub calls : List Call

abbrev pub outcome_of_call : Peer → Status → Call → Outcome
outcome_of_call unbound r c = record { ret = ioerr; r = r; calls = [] }
outcome_of_call refuses r c = record { ret = rpcerr; r = r; calls = c ∷ [] }
outcome_of_call answers r c = record { ret = ok; r = r; calls = c ∷ [] }

abbrev no_call : Status → Outcome
no_call r = record { ret = ok; r = r; calls = [] }

abbrev set_lock : Locks → ℕ → LockServState → Locks
set_lock s lid st other = if other == lid then st else s other

abbrev with_pendinger : LockServState → Bytes → LockServState
with_pendinger st id = record st { pendingers = st.pendingers ++ id ∷ [] }

abbrev pub acquire_waiting : (Bytes → Peer) → LockServState → ℕ → Bytes → Outcome × LockServState
acquire_waiting link st lid id = elim st.pendingers [
  | [] ↦ (outcome_of_call (link st.holder) retry (call_revoke st.holder lid), with_pendinger st id)
  | p ∷ ps ↦ (no_call retry, with_pendinger st id)
]

abbrev acquire_again : LockServState → Outcome × LockServState
acquire_again st = elim st.pendingers [ [] ↦ (no_call ok, st) | p ∷ ps ↦ (no_call retire, st) ]

abbrev acquire_free : LockServState → Bytes → Outcome × LockServState
acquire_free st id = elim st.pendingers [
  | [] ↦ (no_call ok, record st { holded = true; holder = id })
  | p ∷ ps ↦ (no_call ok, st)
]

unfoldable pub acquire_lock : (Bytes → Peer) → LockServState → ℕ → Bytes → Outcome × LockServState
acquire_lock link st lid id =
    if st.holded
    then if bytes_eq st.holder id
      then acquire_again (record st { holder = id })
      else acquire_waiting link st lid id
    else acquire_free st id

abbrev release_held : (Bytes → Peer) → LockServState → ℕ → Outcome × LockServState
release_held link st lid = elim st.pendingers [
  | [] ↦ (no_call ok, record st { holded = false; holder = [] })
  | next ∷ ps ↦ (
    outcome_of_call (link next) ok (call_retry next lid),
    record { holder = next; holded = true; pendingers = ps },
  )
]

unfoldable pub release_lock : (Bytes → Peer) → LockServState → ℕ → Bytes → Outcome × LockServState
release_lock link st lid id =
    if st.holded
    then if bytes_eq st.holder id then release_held link st lid else (no_call ok, st)
    else (no_call ok, st)

abbrev stored : Locks → ℕ → Outcome × LockServState → Outcome × Locks
stored s lid (o, st) = (o, set_lock s lid st)

unfoldable pub acquire : (Bytes → Peer) → Locks → ℕ → Bytes → Outcome × Locks
acquire link s lid id = stored s lid (acquire_lock link (s lid) lid id)

unfoldable pub release : (Bytes → Peer) → Locks → ℕ → Bytes → Outcome × Locks
release link s lid id = stored s lid (release_lock link (s lid) lid id)

pub data Event : Type 0 where
  acquires : ℕ → Bytes → Event
  releases : ℕ → Bytes → Event

unfoldable pub step : (Bytes → Peer) → Locks → Event → Locks
step link s (acquires lid id) = (acquire link s lid id).1
step link s (releases lid id) = (release link s lid id).1

unfoldable pub run : (Bytes → Peer) → Locks → List Event → Locks
run link s [] = s
run link s (e ∷ es) = run link (step link s e) es
