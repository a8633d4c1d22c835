-- ===== src/Master/LockCache/Examples.antt =====
-- Three clients at one lock.
use ctgfs.Prelude.{◌≡◌, ◌≢◌, refl, arith, List, [], ◌∷◌, ◌++◌, map}
use ctgfs.Prelude.Bytes.{Bytes, bytes_eq}
use ctgfs.Master.LockCache.{
  retry, ok, retire, no_locks, Peer, answers, call_revoke, call_retry, acquire, release,
  acquire_lock, release_lock, Event, acquires, releases, step, run,
}
use ctgfs.Master.LockCache.Queue.{queue, IsFree, queue_run, locks_are_queues}
use ctgfs.Master.LockCache.Exclusive.{granted_exclusive, served_in_order}

abbrev a : Bytes
a = 97 ∷ []

abbrev b : Bytes
b = 98 ∷ []

abbrev c : Bytes
c = 99 ∷ []

abbrev up : Bytes → Peer
up id = answers

abbrev history : List Event
history = acquires 5 a ∷ acquires 5 b ∷ acquires 5 c ∷ []

waiters : queue (run up no_locks history 5) ≡ a ∷ b ∷ c ∷ []
unfolding run step acquire acquire_lock bytes_eq
waiters = refl

first_waiter_revokes :
    (acquire up (run up no_locks (acquires 5 a ∷ [])) 5 b).0
    ≡ record { ret = ok; r = retry; calls = call_revoke a 5 ∷ [] }
unfolding run step acquire acquire_lock bytes_eq
first_waiter_revokes = refl

release_calls_next :
    (release up (run up no_locks history) 5 a).0
    ≡ record { ret = ok; r = ok; calls = call_retry b 5 ∷ [] }
unfolding run step acquire acquire_lock release release_lock bytes_eq
release_calls_next = refl

next_is_told_to_retire :
    (acquire up (run up no_locks (history ++ releases 5 a ∷ [])) 5 b).0.r ≡ retire
unfolding run step acquire acquire_lock release release_lock bytes_eq
next_is_told_to_retire = refl

locks_are_queues_example :
    IsFree (run up no_locks history 5)
    × (queue (run up no_locks history 5) ≡ queue_run 5 [] history)
locks_are_queues_example = locks_are_queues up history 5

granted_exclusive_example :
    ((acquire up
        (run up (acquire up (run up no_locks []) 5 a).1 (acquires 5 c ∷ releases 5 c ∷ []))
        5
        b).0.r
      ≡ retry)
    × ((acquire up
          (run up (acquire up (run up no_locks []) 5 a).1 (acquires 5 c ∷ releases 5 c ∷ []))
          5
          a).0.r
        ≢ retry)
unfolding run step acquire acquire_lock bytes_eq
granted_exclusive_example =
    granted_exclusive up [] (acquires 5 c ∷ releases 5 c ∷ []) 5 a b (ground arith) (ground arith)
      (ground arith)

served_in_order_example :
    (queue (run up (run up no_locks history) (map (releases 5) (a ∷ b ∷ [])) 5) ≡ c ∷ [])
    × ((acquire up (run up (run up no_locks history) (map (releases 5) (a ∷ b ∷ []))) 5 c).0.r
        ≢ retry)
served_in_order_example = served_in_order up history 5 (a ∷ b ∷ []) c [] waiters
