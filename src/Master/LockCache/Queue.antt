-- ===== src/Master/LockCache/Queue.antt =====
-- The locks of src/master/lock_server_cache.cc as queues of clients.
use ctgfs.Prelude.{ℕ, ◌≡◌, refl, ap, ◌∙◌, false, List, [], ◌∷◌, ◌++◌, arith, ◌==◌, if◌then◌else◌}
use ctgfs.Prelude.Bytes.{Bytes, bytes_eq, bytes_eq-eq}
use ctgfs.Master.LockCache.{
  LockServState, Locks, no_locks, Peer, acquire_lock, release_lock, acquire, release, Event,
  acquires, releases, step, run,
}

abbrev pub queue : LockServState → List Bytes
queue st = if st.holded then st.holder ∷ st.pendingers else []

-- A lock that nobody has is as new.
abbrev pub IsFree : LockServState → Type 0
IsFree st = st.holded ≡ false → st.pendingers ≡ []

unfoldable pub enqueue : Bytes → List Bytes → List Bytes
enqueue id [] = id ∷ []
enqueue id (h ∷ q) = if bytes_eq h id then h ∷ q else h ∷ (q ++ id ∷ [])

unfoldable pub dequeue : Bytes → List Bytes → List Bytes
dequeue id [] = []
dequeue id (h ∷ q) = if bytes_eq h id then q else h ∷ q

-- What the events that name `lid` make of its queue.
unfoldable pub queue_step : ℕ → List Bytes → Event → List Bytes
queue_step lid q (acquires other id) = if lid == other then enqueue id q else q
queue_step lid q (releases other id) = if lid == other then dequeue id q else q

unfoldable pub queue_run : ℕ → List Bytes → List Event → List Bytes
queue_run lid q [] = q
queue_run lid q (e ∷ es) = queue_run lid (queue_step lid q e) es

pub acquire_lock-queue :
    (link : Bytes → Peer) (st : LockServState) (lid : ℕ) (id : Bytes)
    → IsFree st
    → IsFree (acquire_lock link st lid id).1
      × (queue (acquire_lock link st lid id).1 ≡ enqueue id (queue st))
unfolding acquire_lock enqueue
acquire_lock-queue link st lid id w = ground (arith, bytes_eq-eq st.holder id)

release_lock-queue :
    (link : Bytes → Peer) (st : LockServState) (lid : ℕ) (id : Bytes)
    → IsFree st
    → IsFree (release_lock link st lid id).1
      × (queue (release_lock link st lid id).1 ≡ dequeue id (queue st))
unfolding release_lock dequeue
release_lock-queue link st lid id w = ground arith

step-queue :
    (link : Bytes → Peer) (s : Locks) (e : Event) (lid : ℕ)
    → IsFree (s lid)
    → IsFree (step link s e lid) × (queue (step link s e lid) ≡ queue_step lid (queue (s lid)) e)
unfolding step acquire release queue_step
step-queue link s (acquires other id) lid w =
    ground (arith, acquire_lock-queue link (s lid) lid id w)
step-queue link s (releases other id) lid w =
    ground (arith, release_lock-queue link (s lid) lid id w)

pub run-queue :
    (link : Bytes → Peer) (s : Locks) (es : List Event) (lid : ℕ)
    → IsFree (s lid)
    → IsFree (run link s es lid) × (queue (run link s es lid) ≡ queue_run lid (queue (s lid)) es)
unfolding run queue_run
run-queue link s [] lid w = (w, refl)
run-queue link s (e ∷ es) lid w =
    let (w', here) = step-queue link s e lid w in
    let (w'', later) = run-queue link (step link s e) es lid w' in
    (w'', later ∙ ap (λ q. queue_run lid q es) here)

-- After any history, whatever the clients answer, the holder and the waiters of each lock are the
-- queue that the history makes: an acquisition by a client that does not have the lock goes to the
-- end, a release by the holder takes it off the front, and all else changes nothing. A lock that
-- nobody holds has no waiters.
pub locks_are_queues :
    (link : Bytes → Peer) (es : List Event) (lid : ℕ)
    → IsFree (run link no_locks es lid) × (queue (run link no_locks es lid) ≡ queue_run lid [] es)
locks_are_queues link es lid = run-queue link no_locks es lid (λ h. refl)
