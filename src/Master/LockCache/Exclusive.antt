-- ===== src/Master/LockCache/Exclusive.antt =====
-- Mutual exclusion and the order of service of src/master/lock_server_cache.cc.
use ctgfs.Prelude.{ℕ, ◌≡◌, ◌≢◌, refl, ◌∙◌, List, [], ◌∷◌, ◌++◌, map, arith, All}
use ctgfs.Prelude.Bytes.{Bytes, bytes_eq_refl, bytes_eq-eq}
use ctgfs.Master.LockCache.{
  retry, LockServState, Locks, no_locks, Peer, acquire_lock, acquire, Event, acquires, releases,
  run,
}
use ctgfs.Master.LockCache.Queue.{
  queue, IsFree, enqueue, dequeue, queue_step, queue_run, run-queue, locks_are_queues,
  acquire_lock-queue,
}

abbrev pub NotReleases : ℕ → Bytes → Event → Type 0
NotReleases lid id e = e ≢ releases lid id

-- The client at the front of the queue has the lock.
abbrev pub HasHead : Bytes → List Bytes → Type 0
HasHead id [] = ⊥
HasHead id (h ∷ q) = h ≡ id

head_stays :
    (lid : ℕ) (id : Bytes) (q : List Bytes) (e : Event)
    → NotReleases lid id e
    → HasHead id q
    → HasHead id (queue_step lid q e)
unfolding queue_step enqueue dequeue
head_stays lid id [] e n k = absurd k
head_stays lid id (h ∷ q) (acquires other x) n k = ground arith
head_stays lid id (h ∷ q) (releases other x) n k = ground (arith, bytes_eq-eq h x)

head_stays_run :
    (lid : ℕ) (id : Bytes) (q : List Bytes) (es : List Event)
    → All (NotReleases lid id) es
    → HasHead id q
    → HasHead id (queue_run lid q es)
unfolding queue_run
head_stays_run lid id q [] n h = h
head_stays_run lid id q (e ∷ es) (n, ns) h =
    head_stays_run lid id (queue_step lid q e) es ns (head_stays lid id q e n h)

granted-HasHead :
    (link : Bytes → Peer) (st : LockServState) (lid : ℕ) (id : Bytes)
    → IsFree st
    → (acquire_lock link st lid id).0.r ≢ retry
    → HasHead id (queue (acquire_lock link st lid id).1)
unfolding acquire_lock
granted-HasHead link st lid id w n = ground (arith, bytes_eq-eq st.holder id)

refused :
    (link : Bytes → Peer) (st : LockServState) (lid : ℕ) (id other : Bytes)
    → other ≢ id
    → HasHead id (queue st)
    → (acquire_lock link st lid other).0.r ≡ retry
unfolding acquire_lock
refused link st lid id other n h = ground (arith, bytes_eq-eq st.holder other)

admitted :
    (link : Bytes → Peer) (st : LockServState) (lid : ℕ) (id : Bytes)
    → HasHead id (queue st)
    → (acquire_lock link st lid id).0.r ≢ retry
unfolding acquire_lock
admitted link st lid id h = ground (arith, bytes_eq_refl id)

-- Mutual exclusion: where an acquisition of a lock after some history is not answered RETRY, then
-- until that client releases the lock, whatever else happens, every other client is answered RETRY,
-- and the client itself is not.
pub granted_exclusive :
    (link : Bytes → Peer) (es es' : List Event) (lid : ℕ) (id other : Bytes)
    → other ≢ id
    → (acquire link (run link no_locks es) lid id).0.r ≢ retry
    → All (NotReleases lid id) es'
    → ((acquire link (run link (acquire link (run link no_locks es) lid id).1 es') lid other).0.r
        ≡ retry)
      × ((acquire link (run link (acquire link (run link no_locks es) lid id).1 es') lid id).0.r
          ≢ retry)
unfolding acquire
granted_exclusive link es es' lid id other n g rest =
    (refused link (later lid) lid id other n has, admitted link (later lid) lid id has)
  where
    before : Locks
    before = run link no_locks es

    free : IsFree (before lid)
    free = (locks_are_queues link es lid).0

    now : Locks
    now = (acquire link before lid id).1

    later : Locks
    later = run link now es'

    now_at : now lid ≡ (acquire_lock link (before lid) lid id).1
    now_at = ground arith

    free_now : IsFree (now lid)
    free_now = rw now_at ((acquire_lock-queue link (before lid) lid id free).0)

    has : HasHead id (queue (later lid))
    has = rw ((run-queue link now es' lid free_now).1) (
        head_stays_run lid id (queue (now lid)) es' rest
          (rw now_at (granted-HasHead link (before lid) lid id free g)))

release_in_turn :
    (lid : ℕ) (before : List Bytes) (q : List Bytes)
    → queue_run lid (before ++ q) (map (releases lid) before) ≡ q
unfolding queue_run queue_step dequeue
release_in_turn lid [] q = refl
release_in_turn lid (h ∷ before) q = ground (arith, bytes_eq_refl h, release_in_turn lid before q)

-- Service is in the order of arrival: where the queue of a lock is some clients, then `id` and others,
-- and these clients release the lock in their turn, the queue is `id` and the others, and `id` is not
-- answered RETRY when it asks again.
pub served_in_order :
    (link : Bytes → Peer) (es : List Event) (lid : ℕ) (before : List Bytes) (id : Bytes)
    (q : List Bytes)
    → queue (run link no_locks es lid) ≡ before ++ id ∷ q
    → (queue (run link (run link no_locks es) (map (releases lid) before) lid) ≡ id ∷ q)
      × ((acquire link (run link (run link no_locks es) (map (releases lid) before)) lid id).0.r
          ≢ retry)
unfolding acquire
served_in_order link es lid before id q h = (
  at,
  admitted link (run link (run link no_locks es) (map (releases lid) before) lid) lid id
      (rw at refl),
)
  where
    at : queue (run link (run link no_locks es) (map (releases lid) before) lid) ≡ id ∷ q
    at =
        (run-queue link (run link no_locks es) (map (releases lid) before) lid
          (locks_are_queues link es lid).0).1
        ∙ rw h (release_in_turn lid before (id ∷ q))
