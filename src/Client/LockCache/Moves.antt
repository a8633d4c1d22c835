-- ===== src/Client/LockCache/Moves.antt =====
-- Each function of src/client/lock_client_cache.cc keeps what is locked.
use ctgfs.Prelude.{
  ℕ, zero, suc, ◌-◌, ◌≡◌, ◌≢◌, refl, sym, ◌∙◌, ap, inl, inr, Bool, Option-cases, true, false,
  Option, none, some, arith,
}
use mathlib.Core.Option.{some-injective}
use ctgfs.Master.LockCache.{Status, ok, retry, rpcerr, noent, ioerr, retire}
use ctgfs.Client.LockCache.{
  LockState, none_here, free, locked, acquiring, releasing, LockClient, at_lock, set_cache, idle,
  aborted, asked, waiting, sending, revoking, retrying, acquire_in, acquire_reply_in, granted,
  answered, released, release_reply_in, sent_for, send_reply_in, revoke_in, revoke_reply_in,
  retry_in, state_of, retry_reply_in, acquire, wake, acquire_reply, release_reply, send_reply,
  revoke_handler, revoke_reply, retry_handler, retry_reply,
}
use ctgfs.Client.LockCache.Keeps.{
  Keeps, quiet-Keeps, taking-Keeps, after-Keeps, unlocked-Keeps, still-Keeps,
}

acquire_in-Keeps :
    (c : LockClient) (lid : ℕ) (st : LockState)
    → (at_lock c lid).state ≡ st
    → Keeps c (acquire_in c lid st)
acquire_in-Keeps c lid none_here e =
    quiet-Keeps c lid _ (asked lid) c.waiting_threads refl (λ k. absurd cc)
acquire_in-Keeps c lid releasing e =
    quiet-Keeps c lid _ (asked lid) c.waiting_threads refl (λ k. absurd cc)
acquire_in-Keeps c lid free e = taking-Keeps c lid _ (λ k. absurd cc) refl
acquire_in-Keeps c lid locked e = quiet-Keeps c lid _ (waiting lid) _ refl (λ k. k)
acquire_in-Keeps c lid acquiring e = quiet-Keeps c lid _ (waiting lid) _ refl (λ k. k)

pub acquire-Keeps : (c : LockClient) (lid : ℕ) → Keeps c (acquire c lid)
unfolding acquire
acquire-Keeps c lid = acquire_in-Keeps c lid _ refl

pub wake-Keeps : (c : LockClient) (lid : ℕ) → Keeps c (wake c lid)
unfolding wake
wake-Keeps c lid =
    after-Keeps c (record c { waiting_threads = c.waiting_threads - 1 }) _ (λ l x. x) (λ l x. x)
      (acquire-Keeps (record c { waiting_threads = c.waiting_threads - 1 }) lid)

granted-Keeps :
    (c : LockClient) (lid : ℕ) (r : Status) (b : Bool)
    → (at_lock c lid).state ≢ locked
    → Keeps c (granted c lid r b)
granted-Keeps c lid r true h =
    unlocked-Keeps c lid (record { state = none_here; is_revoked = false }) _ h
      (acquire-Keeps (set_cache c lid (record { state = none_here; is_revoked = false })) lid)
granted-Keeps c lid r false h = taking-Keeps c lid _ h refl

answered-Keeps :
    (c : LockClient) (lid : ℕ) (r : Status)
    → (at_lock c lid).state ≡ acquiring
    → Keeps c (answered c lid r)
answered-Keeps c lid retry e = quiet-Keeps c lid _ (waiting lid) _ refl (λ k. absurd cc)
answered-Keeps c lid ok e = granted-Keeps c lid ok _ (λ k. absurd cc)
answered-Keeps c lid rpcerr e = granted-Keeps c lid rpcerr _ (λ k. absurd cc)
answered-Keeps c lid noent e = granted-Keeps c lid noent _ (λ k. absurd cc)
answered-Keeps c lid ioerr e = granted-Keeps c lid ioerr _ (λ k. absurd cc)
answered-Keeps c lid retire e = granted-Keeps c lid retire _ (λ k. absurd cc)

acquire_reply_in-Keeps :
    (c : LockClient) (lid : ℕ) (r : Status) (st : LockState)
    → (at_lock c lid).state ≡ st
    → Keeps c (acquire_reply_in c lid r st)
acquire_reply_in-Keeps c lid r acquiring e = answered-Keeps c lid r e
acquire_reply_in-Keeps c lid r none_here e = acquire-Keeps c lid
acquire_reply_in-Keeps c lid r free e = acquire-Keeps c lid
acquire_reply_in-Keeps c lid r locked e = acquire-Keeps c lid
acquire_reply_in-Keeps c lid r releasing e = acquire-Keeps c lid

released-Keeps :
    (c : LockClient) (lid : ℕ) (n : ℕ)
    → (at_lock c lid).state ≡ releasing
    → Keeps c (released c lid n)
released-Keeps c lid zero e = quiet-Keeps c lid _ idle c.waiting_threads refl (λ k. absurd cc)
released-Keeps c lid (suc n) e =
    quiet-Keeps c lid _ (sending lid) c.waiting_threads refl (λ k. absurd cc)

release_reply_in-Keeps :
    (c : LockClient) (lid : ℕ) (st : LockState)
    → (at_lock c lid).state ≡ st
    → Keeps c (release_reply_in c lid st)
release_reply_in-Keeps c lid releasing e = released-Keeps c lid c.waiting_threads e
release_reply_in-Keeps c lid none_here e = still-Keeps c idle refl
release_reply_in-Keeps c lid free e = still-Keeps c idle refl
release_reply_in-Keeps c lid locked e = still-Keeps c idle refl
release_reply_in-Keeps c lid acquiring e = still-Keeps c idle refl

sent_for-Keeps :
    (c : LockClient) (lid : ℕ) (r : Status)
    → (at_lock c lid).state ≡ acquiring
    → Keeps c (idle, sent_for c lid r)
sent_for-Keeps c lid retry e = quiet-Keeps c lid _ idle c.waiting_threads refl (λ k. absurd cc)
sent_for-Keeps c lid ok e = quiet-Keeps c lid _ idle c.waiting_threads refl (λ k. absurd cc)
sent_for-Keeps c lid rpcerr e = quiet-Keeps c lid _ idle c.waiting_threads refl (λ k. absurd cc)
sent_for-Keeps c lid noent e = quiet-Keeps c lid _ idle c.waiting_threads refl (λ k. absurd cc)
sent_for-Keeps c lid ioerr e = quiet-Keeps c lid _ idle c.waiting_threads refl (λ k. absurd cc)
sent_for-Keeps c lid retire e = quiet-Keeps c lid _ idle c.waiting_threads refl (λ k. absurd cc)

send_reply_in-Keeps :
    (c : LockClient) (lid : ℕ) (r : Status) (st : LockState)
    → (at_lock c lid).state ≡ st
    → Keeps c (send_reply_in c lid r st)
send_reply_in-Keeps c lid r acquiring e = sent_for-Keeps c lid r e
send_reply_in-Keeps c lid r none_here e = still-Keeps c idle refl
send_reply_in-Keeps c lid r free e = still-Keeps c idle refl
send_reply_in-Keeps c lid r locked e = still-Keeps c idle refl
send_reply_in-Keeps c lid r releasing e = still-Keeps c idle refl

revoke_in-Keeps :
    (c : LockClient) (lid : ℕ) (st : LockState)
    → (at_lock c lid).state ≡ st
    → Keeps c (revoke_in c lid st)
revoke_in-Keeps c lid free e =
    quiet-Keeps c lid _ (revoking lid) c.waiting_threads refl (λ k. absurd cc)
revoke_in-Keeps c lid locked e = quiet-Keeps c lid _ idle c.waiting_threads refl (λ k. k)
revoke_in-Keeps c lid acquiring e = quiet-Keeps c lid _ idle c.waiting_threads refl (λ k. k)
revoke_in-Keeps c lid none_here e = quiet-Keeps c lid _ idle c.waiting_threads refl (λ k. k)
revoke_in-Keeps c lid releasing e = quiet-Keeps c lid _ idle c.waiting_threads refl (λ k. k)

revoke_reply_in-Keeps :
    (c : LockClient) (lid : ℕ) (st : LockState)
    → (at_lock c lid).state ≡ st
    → Keeps c (revoke_reply_in c lid st)
revoke_reply_in-Keeps c lid releasing e =
    quiet-Keeps c lid _ idle c.waiting_threads refl (λ k. absurd cc)
revoke_reply_in-Keeps c lid none_here e = still-Keeps c idle refl
revoke_reply_in-Keeps c lid free e = still-Keeps c idle refl
revoke_reply_in-Keeps c lid locked e = still-Keeps c idle refl
revoke_reply_in-Keeps c lid acquiring e = still-Keeps c idle refl

waits_for_retry :
    (c : LockClient) (lid : ℕ) (st : LockState)
    → state_of (c.lsm lid) ≡ some st
    → (at_lock c lid).state ≡ st
waits_for_retry c lid st e = elim (Option-cases (c.lsm lid)) [
  | inl k ↦ absurd (ground arith)
  | inr (x, k) ↦ rw k (some-injective _ _ (ap state_of (sym k) ∙ e))
]

retry_in-Keeps :
    (c : LockClient) (lid : ℕ) (x : Option LockState)
    → state_of (c.lsm lid) ≡ x
    → Keeps c (retry_in c lid x)
retry_in-Keeps c lid none e = still-Keeps c aborted refl
retry_in-Keeps c lid (some free) e = still-Keeps c idle refl
retry_in-Keeps c lid (some locked) e = still-Keeps c idle refl
retry_in-Keeps c lid (some none_here) e =
    let is = waits_for_retry c lid _ e in
    quiet-Keeps c lid _ (retrying lid) c.waiting_threads refl (λ k. absurd cc)
retry_in-Keeps c lid (some acquiring) e =
    let is = waits_for_retry c lid _ e in
    quiet-Keeps c lid _ (retrying lid) c.waiting_threads refl (λ k. absurd cc)
retry_in-Keeps c lid (some releasing) e =
    let is = waits_for_retry c lid _ e in
    quiet-Keeps c lid _ (retrying lid) c.waiting_threads refl (λ k. absurd cc)

pub retry_handler-Keeps : (c : LockClient) (lid : ℕ) → Keeps c (retry_handler c lid)
unfolding retry_handler
retry_handler-Keeps c lid = retry_in-Keeps c lid _ refl

retry_reply_in-Keeps :
    (c : LockClient) (lid : ℕ) (r : Status) (st : LockState)
    → (at_lock c lid).state ≡ st
    → Keeps c (retry_reply_in c lid r st)
retry_reply_in-Keeps c lid r acquiring e =
    quiet-Keeps c lid _ idle c.waiting_threads refl (λ k. absurd cc)
retry_reply_in-Keeps c lid r none_here e = retry_handler-Keeps c lid
retry_reply_in-Keeps c lid r free e = retry_handler-Keeps c lid
retry_reply_in-Keeps c lid r locked e = retry_handler-Keeps c lid
retry_reply_in-Keeps c lid r releasing e = retry_handler-Keeps c lid

pub acquire_reply-Keeps : (c : LockClient) (lid : ℕ) (r : Status) → Keeps c (acquire_reply c lid r)
unfolding acquire_reply
acquire_reply-Keeps c lid r = acquire_reply_in-Keeps c lid r _ refl

pub release_reply-Keeps : (c : LockClient) (lid : ℕ) → Keeps c (release_reply c lid)
unfolding release_reply
release_reply-Keeps c lid = release_reply_in-Keeps c lid _ refl

pub send_reply-Keeps : (c : LockClient) (lid : ℕ) (r : Status) → Keeps c (send_reply c lid r)
unfolding send_reply
send_reply-Keeps c lid r = send_reply_in-Keeps c lid r _ refl

pub revoke_handler-Keeps : (c : LockClient) (lid : ℕ) → Keeps c (revoke_handler c lid)
unfolding revoke_handler
revoke_handler-Keeps c lid = revoke_in-Keeps c lid _ refl

pub revoke_reply-Keeps : (c : LockClient) (lid : ℕ) → Keeps c (revoke_reply c lid)
unfolding revoke_reply
revoke_reply-Keeps c lid = revoke_reply_in-Keeps c lid _ refl

pub retry_reply-Keeps : (c : LockClient) (lid : ℕ) (r : Status) → Keeps c (retry_reply c lid r)
unfolding retry_reply
retry_reply-Keeps c lid r = retry_reply_in-Keeps c lid r _ refl
