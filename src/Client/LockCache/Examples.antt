-- ===== src/Client/LockCache/Examples.antt =====
-- Runs of src/client/lock_client_cache.cc.
use ctgfs.Prelude.{ℕ, ◌≡◌, ◌≢◌, refl, true, false, some, [], ◌∷◌}
use ctgfs.Prelude.Bytes.{bytes_eq}
use ctgfs.Master.LockCache.{ok, retry, answers, LockServState, acquire_lock}
use ctgfs.Client.LockCache.{
  LockClient, lock_client, lock_cache, idle, asked, waiting, holding, retrying, aborted, acquire,
  acquire_reply, release, revoke_handler, retry_handler, retry_reply,
}
use ctgfs.Client.LockCache.Threads.{
  System, no_threads, moves, Reach, here, later, acquires, acquire_answered, revokes,
}
use ctgfs.Client.LockCache.Exclusive.{one_holder}
use ctgfs.Client.LockCache.Foreign.{retry_takes_held_lock}

-- Thread 0 gets the lock 7, thread 1 waits for it, and the server wants it back.
abbrev after_acquire : System
after_acquire = moves no_threads 0 (acquire lock_client 7)

abbrev after_reply : System
after_reply = moves after_acquire 0 (acquire_reply after_acquire.client 7 ok)

abbrev after_second : System
after_second = moves after_reply 1 (acquire after_reply.client 7)

abbrev after_revoke : System
after_revoke = moves after_second 2 (revoke_handler after_second.client 7)

states :
    (after_acquire.threads 0 ≡ asked 7)
    × (after_reply.threads 0 ≡ holding 7)
    × (after_second.threads 1 ≡ waiting 7)
    × (after_revoke.threads 0 ≡ holding 7)
unfolding acquire acquire_reply revoke_handler
states = (refl, refl, refl, refl)

unasked :
    (after_acquire.threads 0 ≡ asked 7)
    × (after_reply.threads 1 ≡ idle)
    × (after_second.threads 2 ≡ idle)
unfolding acquire acquire_reply
unasked = (refl, refl, refl)

reaches : Reach no_threads after_revoke
reaches =
    later
      (later (later (later here (acquires 0 7 refl)) (acquire_answered 0 7 ok unasked.0))
        (acquires 1 7 unasked.1))
      (revokes 2 7 unasked.2)

abbrev first_thread : ℕ
first_thread = 0

one_holder_example : (first_thread ≡ first_thread) × ((release after_revoke.client 7).0 ≢ aborted)
one_holder_example = one_holder after_revoke 0 0 7 reaches states.3 states.3

-- The client `b` has had the lock 7 and given it back; a retry for it comes late, and `a` holds the lock.
abbrev had_lock : LockClient
had_lock = record { lsm = λ l. some lock_cache; waiting_threads = 0 }

abbrev held_by_a : LockServState
held_by_a = record { holder = 97 ∷ []; holded = true; pendingers = [] }

late_retry : (retry_handler had_lock 7).0 ≡ retrying 7
unfolding retry_handler
late_retry = refl

not_b : bytes_eq (97 ∷ []) (98 ∷ []) ≡ false
unfolding bytes_eq
not_b = refl

reply_through : (acquire_lock (λ a. answers) held_by_a 7 (98 ∷ [])).0.ret ≡ ok
unfolding acquire_lock bytes_eq
reply_through = refl

retry_takes_held_lock_example :
    let (answer, after) = acquire_lock (λ a. answers) held_by_a 7 (98 ∷ []) in
    (answer.r ≡ retry)
    × (after.holder ≡ 97 ∷ [])
    × (after.holded ≡ true)
    × ((acquire (retry_reply (retry_handler had_lock 7).1 7 answer.r).1 7).0 ≡ holding 7)
retry_takes_held_lock_example =
    retry_takes_held_lock (λ a. answers) held_by_a had_lock 7 (98 ∷ []) refl not_b late_retry
      reply_through
