-- ===== src/Rpc/Window/Once.antt =====
-- Repeated checks of one request in src/rpc/rpc.cc.
use ctgfs.Prelude.{
  ℕ, ◌<◌, ◌≤◌, ◌≡◌, ◌≢◌, ◌↔◌, ◌⊎◌, inl, inr, false, List, [], ◌∷◌, arith, refl, ltb, Bool-cases,
}
use ctgfs.Prelude.Bytes.{Bytes}
use ctgfs.Rpc.Window.{
  Reply, new, Scan, inserted, found, behind, gc, reply_t, scan, after_scan, check_window, fill,
  Windows, Event, check, reply, checkduplicate_and_update, add_reply, step, run, no_windows,
}
use ctgfs.Rpc.Window.Order.{
  Above, ScanOk, scan-ScanOk, IsRising, AllRising, step-AllRising, run-AllRising,
}

abbrev pub Has : ℕ → List Reply → Type 0
Has x [] = ⊥
Has x (r ∷ rest) = (x ≡ r.xid) ⊎ Has x rest

-- The window tells that `x` has come: it holds `x`, or begins above it.
abbrev pub Seen : ℕ → List Reply → Type 0
Seen x [] = ⊥
Seen x (r ∷ rest) = (x < r.xid) ⊎ Has x (r ∷ rest)

pub Has-Seen : (x : ℕ) (w : List Reply) → Has x w → Seen x w
Has-Seen x [] h = h
Has-Seen x (r ∷ rest) h = inr h

pub Above-Has : (x n : ℕ) (w : List Reply) → Above n w → Has x w → n < x
Above-Has x n [] a h = absurd h
Above-Has x n (r ∷ rest) a (inl here) = omega arith
Above-Has x n (r ∷ rest) a (inr later) = omega (arith, Above-Has x r.xid rest a.1 later)

gc-Seen : (x rep : ℕ) (w : List Reply) → IsRising w → Seen x w → Seen x (gc rep w)
unfolding gc
gc-Seen x rep [] h s = s
gc-Seen x rep (r ∷ []) h s = s
gc-Seen x rep (r ∷ t ∷ rest) h s = ground (arith, gc-Seen x rep (t ∷ rest) h.1)

-- What a scan for `y` leaves: all that was there, and `y`.
abbrev pub ScanHas : ℕ → ℕ → List Reply → Scan → Type 0
ScanHas x y w (inserted v) = Has y v × (Has x w → Has x v)
ScanHas x y w (found r) = Has y w

behind-ScanHas :
    (x y : ℕ) (r : Reply) (w : List Reply) (sc : Scan)
    → ScanHas x y w sc
    → ScanHas x y (r ∷ w) (behind r sc)
behind-ScanHas x y r w (inserted v) h =
    (inr h.0, λ k. elim k [ inl e ↦ inl e | inr m ↦ inr (h.1 m) ])
behind-ScanHas x y r w (found e) h = inr h

pub scan-ScanHas : (x y : ℕ) (w : List Reply) → ScanHas x y w (scan y w)
unfolding scan
scan-ScanHas x y [] = (inl refl, λ k. absurd k)
scan-ScanHas x y (r ∷ rest) =
    ground (arith, behind-ScanHas x y r rest (scan y rest) (scan-ScanHas x y rest))

scan-found-of-Has :
    (x n : ℕ) (w : List Reply) → Above n w → Has x w → (e : Reply) × (scan x w ≡ found e)
unfolding scan
scan-found-of-Has x n [] a h = absurd h
scan-found-of-Has x n (r ∷ rest) a (inl here) = (r, ground arith)
scan-found-of-Has x n (r ∷ rest) a (inr later) =
    let (e, p) = scan-found-of-Has x r.xid rest a.1 later in
    (e, ground (arith, Above-Has x r.xid rest a.1 later))

after_scan-Seen :
    (x y rep : ℕ) (w : List Reply) (sc : Scan)
    → IsRising w
    → ScanOk sc
    → ScanHas x y w sc
    → Seen y (after_scan rep w sc).1
after_scan-Seen x y rep w (inserted v) h ok k = gc-Seen y rep v ok (Has-Seen y v k.0)
after_scan-Seen x y rep w (found r) h ok k = gc-Seen y rep w h (Has-Seen y w k)

after_scan-keeps :
    (x y rep : ℕ) (w : List Reply) (sc : Scan)
    → IsRising w
    → ScanOk sc
    → ScanHas x y w sc
    → Has x w
    → Seen x (after_scan rep w sc).1
after_scan-keeps x y rep w (inserted v) h ok k m = gc-Seen x rep v ok (Has-Seen x v (k.1 m))
after_scan-keeps x y rep w (found r) h ok k m = gc-Seen x rep w h (Has-Seen x w m)

pub check-Seen : (y rep : ℕ) (w : List Reply) → IsRising w → Seen y (check_window y rep w).1
unfolding check_window
check-Seen y rep [] h = inr (inl refl)
check-Seen y rep (r ∷ rest) h = elim (Bool-cases (ltb y r.xid)) [
  | inl old ↦ rw old (gc-Seen y rep (r ∷ rest) h (inl (ground arith)))
  | inr next ↦ rw next (
      after_scan-Seen y y rep (r ∷ rest) _ h (scan-ScanOk y r rest h next)
        (scan-ScanHas y y (r ∷ rest)))
]

abbrev pub FrontFrom : ℕ → List Reply → Type 0
FrontFrom n [] = ⊥
FrontFrom n (r ∷ rest) = n ≤ r.xid

abbrev pub ScanFront : ℕ → Scan → Type 0
ScanFront n (inserted w) = FrontFrom n w
ScanFront n (found r) = Unit {0}

below-Seen : (x n : ℕ) (w : List Reply) → x < n → FrontFrom n w → Seen x w
below-Seen x n [] lt f = f
below-Seen x n (r ∷ rest) lt f = inl (omega arith)

pub scan-front :
    (y : ℕ) (r : Reply) (rest : List Reply)
    → ltb y r.xid ≡ false
    → ScanFront r.xid (scan y (r ∷ rest))
unfolding scan
scan-front y r rest next = ground arith

-- A scan past the front leaves the front where it is.
after_scan-below :
    (x y rep : ℕ) (r : Reply) (rest : List Reply)
    → IsRising (r ∷ rest)
    → x < r.xid
    → ltb y r.xid ≡ false
    → Seen x (after_scan rep (r ∷ rest) (scan y (r ∷ rest))).1
after_scan-below x y rep r rest h lt next =
    front (scan y (r ∷ rest)) (scan-ScanOk y r rest h next) (scan-front y r rest next)
  where
    front : (sc : Scan) → ScanOk sc → ScanFront r.xid sc → Seen x (after_scan rep (r ∷ rest) sc).1
    front (inserted v) ok f = gc-Seen x rep v ok (below-Seen x r.xid v lt f)
    front (found e) ok f = gc-Seen x rep (r ∷ rest) h (inl lt)

pub check-keeps-Seen :
    (x y rep : ℕ) (w : List Reply) → IsRising w → Seen x w → Seen x (check_window y rep w).1
unfolding check_window
check-keeps-Seen x y rep [] h s = absurd s
check-keeps-Seen x y rep (r ∷ rest) h (inr m) = elim (Bool-cases (ltb y r.xid)) [
  | inl old ↦ rw old (gc-Seen x rep (r ∷ rest) h (inr m))
  | inr next ↦ rw next (
      after_scan-keeps x y rep (r ∷ rest) _ h (scan-ScanOk y r rest h next)
        (scan-ScanHas x y (r ∷ rest)) m)
]
check-keeps-Seen x y rep (r ∷ rest) h (inl lt) = elim (Bool-cases (ltb y r.xid)) [
  | inl old ↦ rw old (gc-Seen x rep (r ∷ rest) h (inl lt))
  | inr next ↦ rw next (after_scan-below x y rep r rest h lt next)
]

check-of-Seen :
    (x rep : ℕ) (w : List Reply) → IsRising w → Seen x w → (check_window x rep w).0 ≢ new
unfolding check_window scan
check-of-Seen x rep [] h s = absurd s
check-of-Seen x rep (r ∷ rest) h (inl lt) = ground arith
check-of-Seen x rep (r ∷ rest) h (inr (inl e)) = ground arith
check-of-Seen x rep (r ∷ rest) h (inr (inr m)) =
    let (e, p) = scan-found-of-Has x r.xid rest h m in ground (arith, p, Above-Has x r.xid rest h m)

scan-of-unseen : (x : ℕ) (w : List Reply) → ¬ Has x w → (v : List Reply) × (scan x w ≡ inserted v)
unfolding scan
scan-of-unseen x [] h = (reply_t x ∷ [], refl)
scan-of-unseen x (r ∷ rest) h = elim (Bool-cases (ltb x r.xid)) [
  | inl lt ↦ (reply_t x ∷ r ∷ rest, rw lt)
  | inr ge ↦
      let (v, e) = scan-of-unseen x rest (λ m. h (inr m)) in
      let other : x ≢ r.xid = λ q. h (inl q) in (r ∷ v, ground (arith, e, other))
]

check-of-unseen : (x rep : ℕ) (w : List Reply) → ¬ Seen x w → (check_window x rep w).0 ≡ new
unfolding check_window
check-of-unseen x rep [] s = refl
check-of-unseen x rep (r ∷ rest) s =
    let (v, e) = scan-of-unseen x (r ∷ rest) (λ m. s (inr m)) in
    let front : ¬ (x < r.xid) = λ lt. s (inl lt) in ground (arith, e, front)

fill-Has : (x y : ℕ) (b : Bytes) (w : List Reply) → Has x w → Has x (fill y b w)
unfolding fill
fill-Has x y b [] h = h
fill-Has x y b (r ∷ rest) (inl e) = ground arith
fill-Has x y b (r ∷ rest) (inr m) = inr (fill-Has x y b rest m)

pub fill-Seen : (x y : ℕ) (b : Bytes) (w : List Reply) → Seen x w → Seen x (fill y b w)
unfolding fill
fill-Seen x y b [] h = h
fill-Seen x y b (r ∷ rest) (inl lt) = ground arith
fill-Seen x y b (r ∷ rest) (inr m) = inr (fill-Has x y b (r ∷ rest) m)

pub step-Seen :
    (clt x : ℕ) (ws : Windows) (e : Event) → AllRising ws → Seen x (ws clt) → Seen x (step ws e clt)
unfolding step checkduplicate_and_update add_reply
step-Seen clt x ws (check c y rep) h s = ground (arith, check-keeps-Seen x y rep (ws c) (h c))
step-Seen clt x ws (reply c y b) h s = ground (arith, fill-Seen x y b (ws c))

run-Seen :
    (clt x : ℕ) (ws : Windows) (es : List Event)
    → AllRising ws
    → Seen x (ws clt)
    → Seen x (run ws es clt)
unfolding run
run-Seen clt x ws [] h s = s
run-Seen clt x ws (e ∷ es) h s =
    run-Seen clt x (step ws e) es (step-AllRising ws e h) (step-Seen clt x ws e h s)

-- Whatever came before a check of request `x` of client `clt`, and whatever comes after it, a later
-- check of the same request does not answer NEW.
pub at_most_once :
    (before after : List Event) (clt x rep rep' : ℕ)
    → let ws = step (run no_windows before) (check clt x rep) in
      (checkduplicate_and_update (run ws after) clt x rep').0 ≢ new
unfolding step checkduplicate_and_update
at_most_once before after clt x rep rep' =
    check-of-Seen x rep' (run ws after clt) (run-AllRising ws after rising clt)
      (run-Seen clt x ws after rising seen)
  where
    old : AllRising (run no_windows before)
    old = run-AllRising no_windows before (λ c. tt)

    ws : Windows
    ws = step (run no_windows before) (check clt x rep)

    rising : AllRising ws
    rising = step-AllRising (run no_windows before) (check clt x rep) old

    seen : Seen x (ws clt)
    seen = ground (arith, check-Seen x rep (run no_windows before clt) (old clt))

-- On windows whose requests rise, a check answers NEW exactly if the client's window neither holds
-- the request nor begins above it.
pub new_iff_unseen :
    (ws : Windows) (clt x rep : ℕ)
    → AllRising ws
    → ((checkduplicate_and_update ws clt x rep).0 ≡ new) ↔ (¬ Seen x (ws clt))
unfolding checkduplicate_and_update
new_iff_unseen ws clt x rep h =
    (λ e s. check-of-Seen x rep (ws clt) (h clt) s e, λ u. check-of-unseen x rep (ws clt) u)
