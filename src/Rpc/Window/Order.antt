-- ===== src/Rpc/Window/Order.antt =====
-- The order of the entries in the windows of src/rpc/rpc.cc.
use ctgfs.Prelude.{ℕ, ◌<◌, ◌≡◌, inl, inr, false, List, [], ◌∷◌, arith, ltb, Bool-cases}
use ctgfs.Prelude.Bytes.{Bytes}
use ctgfs.Rpc.Window.{
  Reply, Scan, inserted, found, gc, scan, after_scan, check_window, fill, Windows, Event, check,
  reply, checkduplicate_and_update, add_reply, step, run,
}

-- Strictly rising xids, all above the bound.
abbrev pub Above : ℕ → List Reply → Type 0
Above n [] = Unit {0}
Above n (r ∷ rest) = (n < r.xid) × Above r.xid rest

abbrev pub IsRising : List Reply → Type 0
IsRising [] = Unit {0}
IsRising (r ∷ rest) = Above r.xid rest

pub Above-IsRising : (n : ℕ) (w : List Reply) → Above n w → IsRising w
Above-IsRising n [] h = tt
Above-IsRising n (r ∷ rest) h = h.1

pub gc-IsRising : (rep : ℕ) (w : List Reply) → IsRising w → IsRising (gc rep w)
unfolding gc
gc-IsRising rep [] h = tt
gc-IsRising rep (r ∷ []) h = h
gc-IsRising rep (r ∷ s ∷ rest) h = ground (arith, gc-IsRising rep (s ∷ rest) h.1)

abbrev ScanRising : ℕ → Scan → Type 0
ScanRising n (inserted w) = Above n w
ScanRising n (found r) = Unit {0}

scan-Above : (n x : ℕ) (w : List Reply) → n < x → Above n w → ScanRising n (scan x w)
unfolding scan
scan-Above n x [] lt h = (lt, tt)
scan-Above n x (r ∷ rest) lt h = ground (arith, scan-Above r.xid x rest)

abbrev pub ScanOk : Scan → Type 0
ScanOk (inserted w) = IsRising w
ScanOk (found r) = Unit {0}

after_scan-IsRising :
    (rep : ℕ) (w : List Reply) (sc : Scan)
    → IsRising w
    → ScanOk sc
    → IsRising (after_scan rep w sc).1
after_scan-IsRising rep w (inserted v) h k = gc-IsRising rep v k
after_scan-IsRising rep w (found r) h k = gc-IsRising rep w h

pub scan-ScanOk :
    (x : ℕ) (r : Reply) (rest : List Reply)
    → Above r.xid rest
    → ltb x r.xid ≡ false
    → ScanOk (scan x (r ∷ rest))
unfolding scan
scan-ScanOk x r rest h ge = ground (arith, scan-Above r.xid x rest)

pub check-IsRising : (x rep : ℕ) (w : List Reply) → IsRising w → IsRising (check_window x rep w).1
unfolding check_window
check-IsRising x rep [] h = tt
check-IsRising x rep (r ∷ rest) h = elim (Bool-cases (ltb x r.xid)) [
  | inl old ↦ rw old (gc-IsRising rep (r ∷ rest) h)
  | inr next ↦
      rw next
        (after_scan-IsRising rep (r ∷ rest) (scan x (r ∷ rest)) h (scan-ScanOk x r rest h next))
]

pub fill-Above : (x : ℕ) (b : Bytes) (n : ℕ) (w : List Reply) → Above n w → Above n (fill x b w)
unfolding fill
fill-Above x b n [] h = tt
fill-Above x b n (r ∷ rest) h = ground (arith, fill-Above x b r.xid rest h.1)

pub fill-IsRising : (x : ℕ) (b : Bytes) (w : List Reply) → IsRising w → IsRising (fill x b w)
unfolding fill
fill-IsRising x b [] h = tt
fill-IsRising x b (r ∷ rest) h = ground (arith, fill-Above x b r.xid rest h)

-- Every client's window is in order.
abbrev pub AllRising : Windows → Type 0
AllRising ws = (clt : ℕ) → IsRising (ws clt)

pub step-AllRising : (ws : Windows) (e : Event) → AllRising ws → AllRising (step ws e)
unfolding step checkduplicate_and_update add_reply
step-AllRising ws (check clt x rep) h c = ground (arith, h c, check-IsRising x rep (ws clt) (h clt))
step-AllRising ws (reply clt x b) h c = ground (arith, h c, fill-IsRising x b (ws clt) (h clt))

pub run-AllRising : (ws : Windows) (es : List Event) → AllRising ws → AllRising (run ws es)
unfolding run
run-AllRising ws [] h = h
run-AllRising ws (e ∷ es) h = run-AllRising (step ws e) es (step-AllRising ws e h)
