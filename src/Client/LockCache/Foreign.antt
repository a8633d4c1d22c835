-- ===== src/Client/LockCache/Foreign.antt =====
-- A retry of src/client/lock_client_cache.cc against the server of src/master/lock_server_cache.cc.
use ctgfs.Prelude.{ℕ, ◌≡◌, refl, ◌∙◌, ap, true, false, Option, none, some, arith, List, [], ◌∷◌}
use ctgfs.Prelude.Bytes.{Bytes, bytes_eq}
use ctgfs.Master.LockCache.{
  Status, ok, retry, Peer, unbound, refuses, answers, Call, outcome_of_call, LockServState,
  acquire_waiting, acquire_lock,
}
use ctgfs.Client.LockCache.{
  LockState, none_here, free, locked, releasing, acquiring, acquire_in, retry_reply_in,
  is_retired_by, LockCache, LockClient, at_lock, set_cache, holding, retrying, state_of, retry_in,
  retry_reply, retry_handler, acquire,
}
use ctgfs.Client.LockCache.Keeps.{at_set}

outcome-r : (x : Peer) (r : Status) (k : Call) → (outcome_of_call x r k).r ≡ r
outcome-r unbound r k = refl
outcome-r refuses r k = refl
outcome-r answers r k = refl

waiting-held :
    (link : Bytes → Peer) (st : LockServState) (lid : ℕ) (id : Bytes) (l : List Bytes)
    → st.pendingers ≡ l
    → st.holded ≡ true
    → ((acquire_waiting link st lid id).0.r ≡ retry)
      × ((acquire_waiting link st lid id).1.holder ≡ st.holder)
      × ((acquire_waiting link st lid id).1.holded ≡ true)
waiting-held link st lid id [] e h = rw e (outcome-r (link st.holder) retry _, refl, h)
waiting-held link st lid id (p ∷ ps) e h = rw e (refl, refl, h)

-- The server keeps the holder, and answers RETRY.
acquire_lock-held :
    (link : Bytes → Peer) (st : LockServState) (lid : ℕ) (id : Bytes)
    → st.holded ≡ true
    → bytes_eq st.holder id ≡ false
    → ((acquire_lock link st lid id).0.r ≡ retry)
      × ((acquire_lock link st lid id).1.holder ≡ st.holder)
      × ((acquire_lock link st lid id).1.holded ≡ true)
unfolding acquire_lock
acquire_lock-held link st lid id h ne =
    rw (h, ne) (waiting-held link (record st { holded = true }) lid id st.pendingers refl refl)

at_set_same : (c : LockClient) (lid : ℕ) (x : LockCache) → at_lock (set_cache c lid x) lid ≡ x
at_set_same c lid x = at_set c lid x lid ∙ ground arith

retrying_in :
    (c : LockClient) (lid : ℕ) (x : Option LockState)
    → (retry_in c lid x).0 ≡ retrying lid
    → (at_lock (retry_in c lid x).1 lid).state ≡ acquiring
retrying_in c lid none e = absurd cc
retrying_in c lid (some free) e = absurd cc
retrying_in c lid (some locked) e = absurd cc
retrying_in c lid (some none_here) e = ap (λ x. x.state) (at_set_same c lid _)
retrying_in c lid (some acquiring) e = ap (λ x. x.state) (at_set_same c lid _)
retrying_in c lid (some releasing) e = ap (λ x. x.state) (at_set_same c lid _)

retrying_asks :
    (c : LockClient) (lid : ℕ)
    → (retry_handler c lid).0 ≡ retrying lid
    → (at_lock (retry_handler c lid).1 lid).state ≡ acquiring
unfolding retry_handler
retrying_asks c lid e = retrying_in c lid (state_of (c.lsm lid)) e

retry_takes :
    (c : LockClient) (lid : ℕ) (r : Status)
    → (at_lock c lid).state ≡ acquiring
    → (acquire (retry_reply c lid r).1 lid).0 ≡ holding lid
unfolding retry_reply acquire
retry_takes c lid r e =
    let now : LockCache = record {
      state = free;
      is_revoked = is_retired_by r (at_lock c lid).is_revoked;
    } in
    ap (λ st. (acquire (retry_reply_in c lid r st).1 lid).0) e
    ∙ ap (λ x. (acquire_in (set_cache c lid now) lid x.state).0) (at_set_same c lid now)

-- A client's retry handler asks for a lock that the server holds for another client: the server answers RETRY
-- and keeps the holder, and where its reply gets through, the client's next acquire returns with the lock all the same, without a call.
pub retry_takes_held_lock :
    (link : Bytes → Peer) (st : LockServState) (c : LockClient) (lid : ℕ) (id : Bytes)
    → st.holded ≡ true
    → bytes_eq st.holder id ≡ false
    → (retry_handler c lid).0 ≡ retrying lid
    → (acquire_lock link st lid id).0.ret ≡ ok
    → let (answer, after) = acquire_lock link st lid id in
      (answer.r ≡ retry)
      × (after.holder ≡ st.holder)
      × (after.holded ≡ true)
      × ((acquire (retry_reply (retry_handler c lid).1 lid answer.r).1 lid).0 ≡ holding lid)
retry_takes_held_lock link st c lid id h ne asks goes_well =
    let (answer, holder, holded) = acquire_lock-held link st lid id h ne in
    (answer, holder, holded, retry_takes (retry_handler c lid).1 lid _ (retrying_asks c lid asks))
