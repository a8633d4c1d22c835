-- ===== src/Client/LockCache/Threads.antt =====
-- Threads of a client of src/client/lock_client_cache.cc, in any order and with any replies.
use ctgfs.Prelude.{ℕ, ◌≡◌, ◌==◌, if◌then◌else◌}
use ctgfs.Master.LockCache.{Status}
use ctgfs.Client.LockCache.{
  LockClient, lock_client, Phase, idle, failed, asked, waiting, holding, releasing, sending,
  revoking, retrying, Moved, acquire, wake, acquire_reply, release, release_reply, send_reply,
  revoke_handler, revoke_reply, retry_handler, retry_reply,
}

pub record System : Type 0 where
  pub client : LockClient
  pub threads : ℕ → Phase

abbrev pub no_threads : System
no_threads = record { client = lock_client; threads = λ i. idle }

abbrev pub moves : System → ℕ → Moved → System
moves s i m = record { client = m.1; threads = λ j. if j == i then m.0 else s.threads j }

-- A wait may end without a signal. `lost` is a remote call that fails; `leaves` a thread that comes back for more.
pub data Step : System → System → Type 0 where
  acquires :
      {s : System} (i lid : ℕ) → s.threads i ≡ idle → Step s (moves s i (acquire s.client lid))
  wakes :
      {s : System} (i lid : ℕ) → s.threads i ≡ waiting lid → Step s (moves s i (wake s.client lid))
  acquire_answered :
      {s : System} (i lid : ℕ) (r : Status)
      → s.threads i ≡ asked lid
      → Step s (moves s i (acquire_reply s.client lid r))
  releases :
      {s : System} (i lid : ℕ)
      → s.threads i ≡ holding lid
      → Step s (moves s i (release s.client lid))
  release_answered :
      {s : System} (i lid : ℕ)
      → s.threads i ≡ releasing lid
      → Step s (moves s i (release_reply s.client lid))
  send_answered :
      {s : System} (i lid : ℕ) (r : Status)
      → s.threads i ≡ sending lid
      → Step s (moves s i (send_reply s.client lid r))
  revokes :
      {s : System} (i lid : ℕ)
      → s.threads i ≡ idle
      → Step s (moves s i (revoke_handler s.client lid))
  revoke_answered :
      {s : System} (i lid : ℕ)
      → s.threads i ≡ revoking lid
      → Step s (moves s i (revoke_reply s.client lid))
  retries :
      {s : System} (i lid : ℕ)
      → s.threads i ≡ idle
      → Step s (moves s i (retry_handler s.client lid))
  retry_answered :
      {s : System} (i lid : ℕ) (r : Status)
      → s.threads i ≡ retrying lid
      → Step s (moves s i (retry_reply s.client lid r))
  lost_acquire :
      {s : System} (i lid : ℕ) → s.threads i ≡ asked lid → Step s (moves s i (failed, s.client))
  lost_release :
      {s : System} (i lid : ℕ) → s.threads i ≡ releasing lid → Step s (moves s i (failed, s.client))
  lost_send :
      {s : System} (i lid : ℕ) → s.threads i ≡ sending lid → Step s (moves s i (failed, s.client))
  lost_revoke :
      {s : System} (i lid : ℕ) → s.threads i ≡ revoking lid → Step s (moves s i (failed, s.client))
  lost_retry :
      {s : System} (i lid : ℕ) → s.threads i ≡ retrying lid → Step s (moves s i (failed, s.client))
  leaves : {s : System} (i : ℕ) → s.threads i ≡ failed → Step s (moves s i (idle, s.client))

pub data Reach (s : System) : System → Type 0 where
  here : Reach s s
  later : {t u : System} → Reach s t → Step t u → Reach s u
