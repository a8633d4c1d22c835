-- ===== src/Rpc/Client/Acked/Before.antt =====
-- Where the reply windows of src/rpc/rpc.cc begin after the operations on them.
use ctgfs.Prelude.{ℕ, ◌≤◌, ◌<◌, ◌≡◌, ◌⊎◌, inl, inr, List, [], ◌∷◌, arith, false, ltb, Bool-cases}
use ctgfs.Prelude.Bytes.{Bytes}
use ctgfs.Rpc.Window.{Reply, Scan, inserted, found, gc, scan, after_scan, check_window, fill}
use ctgfs.Rpc.Window.Order.{IsRising, ScanOk, scan-ScanOk}
use ctgfs.Rpc.Window.Once.{Has, Seen, Above-Has, ScanHas, scan-ScanHas}

-- `y` lies before the window.
abbrev pub Before : ℕ → List Reply → Type 0
Before y [] = ⊥
Before y (r ∷ w) = y < r.xid

-- What the collection drops lies before the acknowledgement.
gc-Before :
    (y rep : ℕ) (w : List Reply)
    → IsRising w
    → (1 ≤ rep → Seen rep w)
    → Before y (gc rep w)
    → Before y w ⊎ (y < rep)
unfolding gc
gc-Before y rep [] r s b = inl b
gc-Before y rep (t ∷ []) r s b = inl b
gc-Before y rep (t ∷ u ∷ w) r s b = elim (Bool-cases (ltb t.xid rep)) [
  | inr stop ↦ inl (rw stop at b)
  | inl on ↦
      let lt : t.xid < rep = ground arith in
      let rest : Has rep (u ∷ w) = elim (s (omega arith)) [
        | inl low ↦ absurd (omega arith)
        | inr (inl e) ↦ absurd (omega arith)
        | inr (inr h) ↦ h
      ] in
      elim (gc-Before y rep (u ∷ w) r.1 (λ pos. inr rest) (rw on at b)) [
        | inl low ↦ inr (at_most rest low)
        | inr low ↦ inr low
      ]
]
  where
    at_most : Has rep (u ∷ w) → y < u.xid → y < rep
    at_most (inl e) low = omega arith
    at_most (inr h) low = omega (arith, Above-Has rep u.xid w r.1 h)

-- The window that a scan makes begins as the window it is made of.
abbrev ScanHead : Reply → Scan → Type 0
ScanHead t (inserted []) = ⊥
ScanHead t (inserted (u ∷ v)) = u ≡ t
ScanHead t (found r) = Unit {0}

scan-ScanHead :
    (x : ℕ) (t : Reply) (w : List Reply) → ltb x t.xid ≡ false → ScanHead t (scan x (t ∷ w))
unfolding scan
scan-ScanHead x t w h = ground (arith, scan x w)

Seen-head :
    (x : ℕ) (t u : Reply) (w v : List Reply)
    → u ≡ t
    → (Has x (t ∷ w) → Has x (u ∷ v))
    → Seen x (t ∷ w)
    → Seen x (u ∷ v)
Seen-head x t u w v e f (inl lt) = inl (rw e lt)
Seen-head x t u w v e f (inr h) = inr (f h)

after_scan-Before :
    (y x rep : ℕ) (t : Reply) (w : List Reply) (sc : Scan)
    → IsRising (t ∷ w)
    → (1 ≤ rep → Seen rep (t ∷ w))
    → ScanOk sc
    → ScanHas rep x (t ∷ w) sc
    → ScanHead t sc
    → Before y (after_scan rep (t ∷ w) sc).1
    → (y < t.xid) ⊎ (y < rep)
after_scan-Before y x rep t w (found e) r s ok has head b = gc-Before y rep (t ∷ w) r s b
after_scan-Before y x rep t w (inserted []) r s ok has head b = absurd head
after_scan-Before y x rep t w (inserted (u ∷ v)) r s ok has head b =
    elim (gc-Before y rep (u ∷ v) ok (λ pos. Seen-head rep t u w v head has.1 (s pos)) b) [
      | inl low ↦ inl (rw head at low)
      | inr low ↦ inr low
    ]

-- A check moves the beginning of a window at most to the acknowledgement.
pub check-Before :
    (y x rep : ℕ) (t : Reply) (w : List Reply)
    → IsRising (t ∷ w)
    → (1 ≤ rep → Seen rep (t ∷ w))
    → Before y (check_window x rep (t ∷ w)).1
    → (y < t.xid) ⊎ (y < rep)
unfolding check_window
check-Before y x rep t w r s b = elim (Bool-cases (ltb x t.xid)) [
  | inl old ↦ gc-Before y rep (t ∷ w) r s (rw old at b)
  | inr next ↦
      after_scan-Before y x rep t w (scan x (t ∷ w)) r s (scan-ScanOk x t w r next)
        (scan-ScanHas rep x (t ∷ w)) (scan-ScanHead x t w next) (rw next at b)
]

pub fill-Before : (y x : ℕ) (b : Bytes) (w : List Reply) → Before y (fill x b w) → Before y w
unfolding fill
fill-Before y x b [] h = h
fill-Before y x b (r ∷ w) h = ground arith
