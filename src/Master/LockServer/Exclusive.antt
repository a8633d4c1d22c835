-- ===== src/Master/LockServer/Exclusive.antt =====
-- Mutual exclusion of src/master/lock_server.cc.
use ctgfs.Prelude.{ℕ, ◌≡◌, ◌≢◌, true, false, some, List, [], ◌∷◌, arith, All}
use ctgfs.Master.LockServer.{LockMap, acquire_round, release, Event, tries, releases, step, run}

abbrev pub NotReleases : ℕ → Event → Type 0
NotReleases lid e = e ≢ releases lid

locked_after : (m : LockMap) (lid : ℕ) → (acquire_round m lid).1 lid ≡ some true
unfolding acquire_round
locked_after m lid = ground arith

step-locked :
    (m : LockMap) (lid : ℕ) (e : Event)
    → NotReleases lid e
    → m lid ≡ some true
    → step m e lid ≡ some true
unfolding step acquire_round release
step-locked m lid (tries other) n h = ground arith
step-locked m lid (releases other) n h = ground arith

run-locked :
    (m : LockMap) (lid : ℕ) (es : List Event)
    → All (NotReleases lid) es
    → m lid ≡ some true
    → run m es lid ≡ some true
unfolding run
run-locked m lid [] n h = h
run-locked m lid (e ∷ es) (n, ns) h = run-locked (step m e) lid es ns (step-locked m lid e n h)

-- Mutual exclusion and progress: after a round of `acquire` the lock is held, and until it is released,
-- whatever other rounds and releases of other locks come in between, no round returns; the release then
-- signals a waiting thread, and the next round returns.
pub held_until_released :
    (m : LockMap) (lid : ℕ) (es : List Event)
    → All (NotReleases lid) es
    → ((acquire_round (run (acquire_round m lid).1 es) lid).0 ≡ false)
      × ((release (run (acquire_round m lid).1 es) lid).0 ≡ true)
      × ((acquire_round (release (run (acquire_round m lid).1 es) lid).1 lid).0 ≡ true)
unfolding acquire_round release
held_until_released m lid es n =
    let now = run (acquire_round m lid).1 es in
    let held : now lid ≡ some true =
      run-locked (acquire_round m lid).1 lid es n (locked_after m lid) in
    ground arith
