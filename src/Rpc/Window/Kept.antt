-- ===== src/Rpc/Window/Kept.antt =====
-- What becomes of a reply in the windows of src/rpc/rpc.cc.
use ctgfs.Prelude.{
  ℕ, ◌<◌, ◌≤◌, ◌≡◌, ◌≢◌, inl, inr, true, false, Option, none, some, List, [], ◌∷◌, arith, refl, ◌∙◌,
  ltb, ◌==◌, if◌then◌else◌, Bool-cases, All,
}
use ctgfs.Prelude.Bytes.{Bytes}
use ctgfs.Rpc.Window.{
  Reply, new, inprogress, done, Scan, inserted, found, behind, is_held, gc, reply_t, scan,
  after_scan, check_window, fill, Windows, Event, check, reply, checkduplicate_and_update,
  add_reply, step, run,
}
use ctgfs.Rpc.Window.Order.{Above, IsRising, AllRising, step-AllRising, run-AllRising}

-- The entry of a request.
abbrev pub find : ℕ → List Reply → Option Reply
find x [] = none
find x (r ∷ rest) = if x == r.xid then some r else find x rest

gc-find : (x rep : ℕ) (w : List Reply) → rep ≤ x → find x (gc rep w) ≡ find x w
unfolding gc
gc-find x rep [] h = refl
gc-find x rep (r ∷ []) h = refl
gc-find x rep (r ∷ s ∷ rest) h = ground (arith, gc-find x rep (s ∷ rest) h)

find-is_held :
    (x : ℕ) (w : List Reply) (e : Reply)
    → find x w ≡ some e
    → (e.xid ≡ x) × (is_held e.xid w ≡ true)
unfolding is_held
find-is_held x [] e p = cc
find-is_held x (r ∷ rest) e p = ground (arith, find-is_held x rest e)

find-Above : (x n : ℕ) (w : List Reply) (e : Reply) → Above n w → find x w ≡ some e → n < x
find-Above x n [] e h p = cc
find-Above x n (r ∷ rest) e h p = ground (arith, find-Above x r.xid rest e h.1)

scan-of-found :
    (x n : ℕ) (w : List Reply) (e : Reply) → Above n w → find x w ≡ some e → scan x w ≡ found e
unfolding scan
scan-of-found x n [] e h p = cc
scan-of-found x n (r ∷ rest) e h p =
    ground (arith, scan-of-found x r.xid rest e h.1, find-Above x r.xid rest e h.1)

scan-of-find :
    (x : ℕ) (w : List Reply) (e : Reply) → IsRising w → find x w ≡ some e → scan x w ≡ found e
unfolding scan
scan-of-find x [] e h p = cc
scan-of-find x (r ∷ rest) e h p =
    ground (arith, scan-of-found x r.xid rest e h, find-Above x r.xid rest e h)

abbrev ScanKeeps : ℕ → List Reply → Scan → Type 0
ScanKeeps x w (inserted v) = find x v ≡ find x w
ScanKeeps x w (found r) = Unit {0}

behind-keeps :
    (x : ℕ) (r : Reply) (w : List Reply) (sc : Scan)
    → ScanKeeps x w sc
    → ScanKeeps x (r ∷ w) (behind r sc)
behind-keeps x r w (inserted v) h = ground arith
behind-keeps x r w (found e) h = tt

scan-keeps : (x y : ℕ) (w : List Reply) → x ≢ y → ScanKeeps x w (scan y w)
unfolding scan
scan-keeps x y [] h = ground arith
scan-keeps x y (r ∷ rest) h =
    ground (arith, behind-keeps x r rest (scan y rest) (scan-keeps x y rest h))

after_scan-keeps :
    (x rep : ℕ) (w : List Reply) (sc : Scan)
    → rep ≤ x
    → ScanKeeps x w sc
    → find x (after_scan rep w sc).1 ≡ find x w
after_scan-keeps x rep w (inserted v) h k = gc-find x rep v h ∙ k
after_scan-keeps x rep w (found r) h k = gc-find x rep w h

-- A check that acknowledges nothing past `x` leaves the entry of `x` as it is.
check-find :
    (x y rep : ℕ) (w : List Reply) (e : Reply)
    → IsRising w
    → rep ≤ x
    → find x w ≡ some e
    → find x (check_window y rep w).1 ≡ some e
unfolding check_window
check-find x y rep [] e h le p = cc
check-find x y rep (r ∷ rest) e h le p = elim (Bool-cases (ltb y r.xid)) [
  | inl old ↦ rw old (gc-find x rep (r ∷ rest) le ∙ p)
  | inr next ↦ rw next (after_scan-keeps x rep (r ∷ rest) (scan y (r ∷ rest)) le (kept next) ∙ p)
]
  where
    kept : ltb y r.xid ≡ false → ScanKeeps x (r ∷ rest) (scan y (r ∷ rest))
    kept next = elim (Bool-cases (x == y)) [
      | inl same ↦ ground (arith, scan-of-find y (r ∷ rest) e h)
      | inr other ↦ scan-keeps x y (r ∷ rest) (ground arith)
    ]

-- A check of a held request answers from its entry.
check-of-find :
    (x rep : ℕ) (w : List Reply) (e : Reply)
    → IsRising w
    → rep ≤ x
    → find x w ≡ some e
    → (check_window x rep w).0 ≡ (if e.cb_present then done e.buf else inprogress)
unfolding check_window
check-of-find x rep [] e h le p = cc
check-of-find x rep (r ∷ rest) e h le p = ground (
  arith,
  scan-of-find x (r ∷ rest) e h p,
  find-Above x r.xid rest e h,
  find-is_held x (gc rep (r ∷ rest)) e (gc-find x rep (r ∷ rest) le ∙ p),
)

fill-find_ne : (x y : ℕ) (b : Bytes) (w : List Reply) → x ≢ y → find x (fill y b w) ≡ find x w
unfolding fill
fill-find_ne x y b [] h = refl
fill-find_ne x y b (r ∷ rest) h = ground (arith, fill-find_ne x y b rest h)

fill-find :
    (x : ℕ) (b : Bytes) (w : List Reply) (e : Reply)
    → find x w ≡ some e
    → find x (fill x b w) ≡ some (record e { cb_present = true; buf = b })
unfolding fill
fill-find x b [] e p = cc
fill-find x b (r ∷ rest) e p = ground (arith, fill-find x b rest e)

-- Nothing in these events acknowledges a number above `x` of the client or gives it another reply.
abbrev pub IsQuiet : ℕ → ℕ → Event → Type 0
IsQuiet clt x (check c y rep) = c ≡ clt → rep ≤ x
IsQuiet clt x (reply c y b) = c ≡ clt → x ≢ y

step-find :
    (clt x : ℕ) (ws : Windows) (v : Event) (e : Reply)
    → AllRising ws
    → IsQuiet clt x v
    → find x (ws clt) ≡ some e
    → find x (step ws v clt) ≡ some e
unfolding step checkduplicate_and_update add_reply
step-find clt x ws (check c y rep) e h q p = elim (Bool-cases (c == clt)) [
  | inl same ↦
      let same' : c ≡ clt = ground arith in
      rw (same, same') (check-find x y rep (ws clt) e (h clt) (q same') p)
  | inr other ↦ rw other p
]
step-find clt x ws (reply c y b) e h q p = elim (Bool-cases (c == clt)) [
  | inl same ↦
      let same' : c ≡ clt = ground arith in
      rw (same, same', fill-find_ne x y b (ws clt) (q same')) p
  | inr other ↦ rw other p
]

run-find :
    (clt x : ℕ) (ws : Windows) (es : List Event) (e : Reply)
    → AllRising ws
    → All (IsQuiet clt x) es
    → find x (ws clt) ≡ some e
    → find x (run ws es clt) ≡ some e
unfolding run
run-find clt x ws [] e h q p = p
run-find clt x ws (v ∷ es) e h q p =
    run-find clt x (step ws v) es e (step-AllRising ws v h) q.1 (step-find clt x ws v e h q.0 p)

abbrev ScanGives : ℕ → Scan → Type 0
ScanGives x (inserted v) = find x v ≡ some (reply_t x)
ScanGives x (found r) = Unit {0}

behind-gives :
    (x : ℕ) (r : Reply) (sc : Scan) → r.xid < x → ScanGives x sc → ScanGives x (behind r sc)
behind-gives x r (inserted v) lt h = ground arith
behind-gives x r (found e) lt h = tt

scan-gives : (x : ℕ) (w : List Reply) → ScanGives x (scan x w)
unfolding scan
scan-gives x [] = ground arith
scan-gives x (r ∷ rest) = ground (arith, behind-gives x r (scan x rest), scan-gives x rest)

after_scan-gives :
    (x rep : ℕ) (w : List Reply) (sc : Scan)
    → rep ≤ x
    → ScanGives x sc
    → (after_scan rep w sc).0 ≡ new
    → find x (after_scan rep w sc).1 ≡ some (reply_t x)
after_scan-gives x rep w (inserted v) le g p = gc-find x rep v le ∙ g
after_scan-gives x rep w (found r) le g p = absurd (ground arith)

-- A request that a check answered NEW is in the window after it.
check-new-find :
    (x rep : ℕ) (w : List Reply)
    → rep ≤ x
    → (check_window x rep w).0 ≡ new
    → find x (check_window x rep w).1 ≡ some (reply_t x)
unfolding check_window
check-new-find x rep [] le p = ground arith
check-new-find x rep (r ∷ rest) le p = elim (Bool-cases (ltb x r.xid)) [
  | inl old ↦ absurd (ground arith)
  | inr next ↦ rw next (
      after_scan-gives x rep (r ∷ rest) (scan x (r ∷ rest)) le (scan-gives x (r ∷ rest))
        (ground arith))
]

-- A request that was new and that acknowledged no number above its own is in progress until the server
-- gives its reply, and from then on a repeated request is answered with this very reply, in a buffer that
-- has not been deleted, for as long as the client acknowledges no number above the request's, in the repeated
-- request itself included. The request's own number may be acknowledged. `between` comes before the reply,
-- `after` after it, and `rep'` is the acknowledgement of the repeated request.
pub reply_kept :
    (ws : Windows) (clt x rep : ℕ) (between after : List Event) (b : Bytes) (rep' : ℕ)
    → AllRising ws
    → (checkduplicate_and_update ws clt x rep).0 ≡ new
    → rep ≤ x
    → rep' ≤ x
    → All (IsQuiet clt x) between
    → All (IsQuiet clt x) after
    → let started = run (step ws (check clt x rep)) between in
      let answered = run (step started (reply clt x b)) after in
      ((checkduplicate_and_update started clt x rep').0 ≡ inprogress)
      × ((checkduplicate_and_update answered clt x rep').0 ≡ done b)
unfolding step checkduplicate_and_update add_reply
reply_kept ws clt x rep between after b rep' h p le le' q q' = (
  ground (arith, check-of-find x rep' (started clt) (reply_t x) (started-rising clt) le' begun),
  ground (arith, check-of-find x rep' (answered clt) _ (answered-rising clt) le' filled),
)
  where
    checked-rising : AllRising (step ws (check clt x rep))
    checked-rising = step-AllRising ws (check clt x rep) h

    started : Windows
    started = run (step ws (check clt x rep)) between

    started-rising : AllRising started
    started-rising = run-AllRising (step ws (check clt x rep)) between checked-rising

    begun : find x (started clt) ≡ some (reply_t x)
    begun =
        run-find clt x (step ws (check clt x rep)) between (reply_t x) checked-rising q
          (ground (arith, check-new-find x rep (ws clt) le))

    answered : Windows
    answered = run (step started (reply clt x b)) after

    replied-rising : AllRising (step started (reply clt x b))
    replied-rising = step-AllRising started (reply clt x b) started-rising

    answered-rising : AllRising answered
    answered-rising = run-AllRising (step started (reply clt x b)) after replied-rising

    filled : find x (answered clt) ≡ some (record { xid = x; cb_present = true; buf = b })
    filled =
        run-find clt x (step started (reply clt x b)) after _ replied-rising q'
          (ground (arith, fill-find x b (started clt) (reply_t x) begun))
