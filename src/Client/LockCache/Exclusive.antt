-- ===== src/Client/LockCache/Exclusive.antt =====
-- The threads of a client of src/client/lock_client_cache.cc that hold a lock.
use ctgfs.Prelude.{
  ℕ, ◌≡◌, ◌≢◌, refl, sym, ◌∙◌, ap, inl, inr, Bool, true, false, arith, ◌==◌, Bool-cases,
}
use ctgfs.Client.LockCache.{
  locked, LockCache, LockClient, at_lock, set_cache, idle, failed, aborted, holding, Moved,
  release_locked, release,
}
use ctgfs.Client.LockCache.Threads.{
  System, no_threads, moves, Step, Reach, here, later, acquires, wakes, acquire_answered, releases,
  release_answered, send_answered, revokes, revoke_answered, retries, retry_answered, lost_acquire,
  lost_release, lost_send, lost_revoke, lost_retry, leaves,
}
use ctgfs.Client.LockCache.Keeps.{Keeps, holding-no, set_locked, still-Keeps}
use ctgfs.Client.LockCache.Moves.{
  acquire-Keeps, wake-Keeps, acquire_reply-Keeps, release_reply-Keeps, send_reply-Keeps,
  revoke_handler-Keeps, revoke_reply-Keeps, retry_handler-Keeps, retry_reply-Keeps,
}

-- Who holds a lock holds it alone, and it is locked.
record IsExclusive (s : System) : Type 0 where
  held : (i lid : ℕ) → s.threads i ≡ holding lid → (at_lock s.client lid).state ≡ locked
  alone : (i j lid : ℕ) → s.threads i ≡ holding lid → s.threads j ≡ holding lid → i ≡ j

moves-new : (s : System) (i : ℕ) (m : Moved) → (moves s i m).threads i ≡ m.0
moves-new s i m = ground arith

moves-old : (s : System) (i j : ℕ) (m : Moved) → j ≢ i → (moves s i m).threads j ≡ s.threads j
moves-old s i j m ne = ground arith

-- What others hold stays locked, and what the thread gets is free.
record Fits (s : System) (i : ℕ) (m : Moved) : Type 0 where
  stays : (j lid : ℕ) → j ≢ i → s.threads j ≡ holding lid → (at_lock m.1 lid).state ≡ locked
  gets :
      (lid : ℕ)
      → m.0 ≡ holding lid
      → ((at_lock s.client lid).state ≢ locked) × ((at_lock m.1 lid).state ≡ locked)

Keeps-Fits : (s : System) (i : ℕ) (m : Moved) → IsExclusive s → Keeps s.client m → Fits s i m
Keeps-Fits s i m h k = record { stays = λ j lid ne e. k.locks lid (h.held j lid e); gets = k.takes }

moves-IsExclusive :
    (s : System) (i : ℕ) (m : Moved) → IsExclusive s → Fits s i m → IsExclusive (moves s i m)
moves-IsExclusive s i m h k =
    let mine : (j lid : ℕ)
        → (j == i) ≡ true
        → (moves s i m).threads j ≡ holding lid
        → m.0 ≡ holding lid =
      λ j lid x e.
        let same : j ≡ i = ground arith in
        sym (moves-new s i m) ∙ ap (λ b. (moves s i m).threads b) (sym same) ∙ e in
    let theirs : (j lid : ℕ)
        → (j == i) ≡ false
        → (moves s i m).threads j ≡ holding lid
        → s.threads j ≡ holding lid =
      λ j lid x e. sym (moves-old s i j m (ground arith)) ∙ e in
    let clash : (j lid : ℕ) → m.0 ≡ holding lid → s.threads j ≡ holding lid → ⊥ =
      λ j lid e f. let (was, _) = k.gets lid e in was (h.held j lid f) in
    record {
      held = λ j lid e. elim (Bool-cases (j == i)) [
        | inl x ↦ let (_, is) = k.gets lid (mine j lid x e) in is
        | inr x ↦ k.stays j lid (ground arith) (theirs j lid x e)
      ];
      alone = λ j l lid e f. elim (Bool-cases (j == i)) [
        | inl x ↦ elim (Bool-cases (l == i)) [
          | inl y ↦ ground arith
          | inr y ↦ absurd (clash l lid (mine j lid x e) (theirs l lid y f))
        ]
        | inr x ↦ elim (Bool-cases (l == i)) [
          | inl y ↦ absurd (clash j lid (mine l lid y f) (theirs j lid x e))
          | inr y ↦ h.alone j l lid (theirs j lid x e) (theirs l lid y f)
        ]
      ];
    }

others_stay :
    (s : System) (i lid : ℕ) (x : LockCache)
    → IsExclusive s
    → s.threads i ≡ holding lid
    → (j l : ℕ) → j ≢ i
    → s.threads j ≡ holding l
    → (at_lock (set_cache s.client lid x) l).state ≡ locked
others_stay s i lid x h e j l ne f =
    set_locked s.client lid x l
      (λ same. absurd (ne (h.alone j i l f (e ∙ ap (λ b. holding b) (sym same)))))
      (λ differs. h.held j l f)

not_aborted : (c : LockClient) (lid : ℕ) (b : Bool) → (release_locked c lid b).0 ≢ aborted
not_aborted c lid true e = absurd cc
not_aborted c lid false e = absurd cc

-- A release where the lock is locked: another lock stays as it is.
release_locked-Fits :
    (s : System) (i lid : ℕ) (b : Bool)
    → IsExclusive s
    → s.threads i ≡ holding lid
    → Fits s i (release_locked s.client lid b)
release_locked-Fits s i lid true h e = record {
  stays = others_stay s i lid _ h e;
  gets = λ l f. absurd (holding-no _ l refl f);
}
release_locked-Fits s i lid false h e = record {
  stays = others_stay s i lid _ h e;
  gets = λ l f. absurd (holding-no _ l refl f);
}

release-Fits :
    (s : System) (i lid : ℕ)
    → IsExclusive s
    → s.threads i ≡ holding lid
    → Fits s i (release s.client lid) × ((release s.client lid).0 ≢ aborted)
unfolding release
release-Fits s i lid h e =
    let is = h.held i lid e in rw is (release_locked-Fits s i lid _ h e, not_aborted s.client lid _)

by_Keeps :
    (s : System) (i : ℕ) (m : Moved) → IsExclusive s → Keeps s.client m → IsExclusive (moves s i m)
by_Keeps s i m h k = moves-IsExclusive s i m h (Keeps-Fits s i m h k)

step-IsExclusive : (s t : System) → IsExclusive s → Step s t → IsExclusive t
step-IsExclusive s _ h (acquires i lid e) = by_Keeps s i _ h (acquire-Keeps s.client lid)
step-IsExclusive s _ h (wakes i lid e) = by_Keeps s i _ h (wake-Keeps s.client lid)
step-IsExclusive s _ h (acquire_answered i lid r e) =
    by_Keeps s i _ h (acquire_reply-Keeps s.client lid r)
step-IsExclusive s _ h (releases i lid e) =
    let (fits, _) = release-Fits s i lid h e in moves-IsExclusive s i _ h fits
step-IsExclusive s _ h (release_answered i lid e) =
    by_Keeps s i _ h (release_reply-Keeps s.client lid)
step-IsExclusive s _ h (send_answered i lid r e) =
    by_Keeps s i _ h (send_reply-Keeps s.client lid r)
step-IsExclusive s _ h (revokes i lid e) = by_Keeps s i _ h (revoke_handler-Keeps s.client lid)
step-IsExclusive s _ h (revoke_answered i lid e) =
    by_Keeps s i _ h (revoke_reply-Keeps s.client lid)
step-IsExclusive s _ h (retries i lid e) = by_Keeps s i _ h (retry_handler-Keeps s.client lid)
step-IsExclusive s _ h (retry_answered i lid r e) =
    by_Keeps s i _ h (retry_reply-Keeps s.client lid r)
step-IsExclusive s _ h (lost_acquire i lid e) = by_Keeps s i _ h (still-Keeps s.client failed refl)
step-IsExclusive s _ h (lost_release i lid e) = by_Keeps s i _ h (still-Keeps s.client failed refl)
step-IsExclusive s _ h (lost_send i lid e) = by_Keeps s i _ h (still-Keeps s.client failed refl)
step-IsExclusive s _ h (lost_revoke i lid e) = by_Keeps s i _ h (still-Keeps s.client failed refl)
step-IsExclusive s _ h (lost_retry i lid e) = by_Keeps s i _ h (still-Keeps s.client failed refl)
step-IsExclusive s _ h (leaves i e) = by_Keeps s i _ h (still-Keeps s.client idle refl)

reach-IsExclusive : (s : System) → Reach no_threads s → IsExclusive s
reach-IsExclusive s here = record {
  held = λ i lid e. absurd (holding-no idle lid refl e);
  alone = λ i j lid e f. absurd (holding-no idle lid refl e);
}
reach-IsExclusive s (later {t} r st) = step-IsExclusive t s (reach-IsExclusive t r) st

-- However the threads of a client take turns, wake up, and get any replies or none from the lock server: at
-- most one thread holds a lock at a time, and when it releases the lock no assertion fails.
pub one_holder :
    (s : System) (i j lid : ℕ)
    → Reach no_threads s
    → s.threads i ≡ holding lid
    → s.threads j ≡ holding lid
    → (i ≡ j) × ((release s.client lid).0 ≢ aborted)
one_holder s i j lid r e f =
    let h = reach-IsExclusive s r in
    let (_, goes_well) = release-Fits s i lid h e in (h.alone i j lid e f, goes_well)
