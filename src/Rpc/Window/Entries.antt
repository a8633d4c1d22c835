-- ===== src/Rpc/Window/Entries.antt =====
-- What holds of every entry of a reply window of src/rpc/rpc.cc.
use ctgfs.Prelude.{
  ℕ, ◌≤◌, ◌≡◌, ◌≢◌, refl, inl, inr, true, List, [], ◌∷◌, arith, ltb, ◌==◌, All, Bool-cases,
}
use ctgfs.Prelude.Bytes.{Bytes}
use ctgfs.Rpc.Window.{
  Reply, reply_t, done, done_freed, is_held, gc, Scan, inserted, found, behind, scan, after_scan,
  check_window, fill,
}

pub All-map :
    {P Q : Reply → Type 0} (w : List Reply) → ((r : Reply) → P r → Q r) → All P w → All Q w
All-map [] f h = tt
All-map (r ∷ w) f (p, h) = (f r p, All-map w f h)

pub fill-All :
    (P Q : Reply → Type 0) (x : ℕ) (b : Bytes) (w : List Reply)
    → ((r : Reply) → r.xid ≢ x → P r → Q r)
    → ((r : Reply) → r.xid ≡ x → Q (record r { cb_present = true; buf = b }))
    → All P w
    → All Q (fill x b w)
unfolding fill
fill-All P Q x b [] f g h = tt
fill-All P Q x b (r ∷ w) f g (p, h) = elim (Bool-cases (r.xid == x)) [
  | inl e ↦ rw e (g r (ground arith), fill-All P Q x b w f g h)
  | inr e ↦ rw e (f r (ground arith) p, fill-All P Q x b w f g h)
]

gc-is_held : (x rep : ℕ) (w : List Reply) → rep ≤ x → is_held x (gc rep w) ≡ is_held x w
unfolding gc is_held
gc-is_held x rep [] h = refl
gc-is_held x rep (r ∷ []) h = refl
gc-is_held x rep (r ∷ t ∷ rest) h = ground (arith, gc-is_held x rep (t ∷ rest) h)

-- The entry that a scan finds is one of the window.
abbrev ScanHeld : ℕ → List Reply → Scan → Type 0
ScanHeld x w (inserted v) = Unit {0}
ScanHeld x w (found r) = (r.xid ≡ x) × (is_held x w ≡ true)

behind-ScanHeld :
    (x : ℕ) (r : Reply) (w : List Reply) (sc : Scan)
    → ScanHeld x w sc
    → ScanHeld x (r ∷ w) (behind r sc)
unfolding is_held
behind-ScanHeld x r w (inserted v) h = tt
behind-ScanHeld x r w (found e) h = ground arith

scan-ScanHeld : (x : ℕ) (w : List Reply) → ScanHeld x w (scan x w)
unfolding scan is_held
scan-ScanHeld x [] = tt
scan-ScanHeld x (r ∷ rest) =
    ground (arith, behind-ScanHeld x r rest (scan x rest) (scan-ScanHeld x rest))

after_scan-keeps_buf :
    (x rep : ℕ) (w : List Reply) (sc : Scan)
    → rep ≤ x
    → ScanHeld x w sc
    → (after_scan rep w sc).0 ≢ done_freed
after_scan-keeps_buf x rep w (inserted v) le h = λ e. cc
after_scan-keeps_buf x rep w (found r) le h = ground (arith, gc-is_held x rep w le)

-- The buffer in an answer has been deleted only where the request acknowledges itself.
pub check-keeps_buf : (x rep : ℕ) (w : List Reply) → rep ≤ x → (check_window x rep w).0 ≢ done_freed
unfolding check_window
check-keeps_buf x rep [] le = λ e. cc
check-keeps_buf x rep (r ∷ rest) le = ground (
  arith,
  after_scan-keeps_buf x rep (r ∷ rest) (scan x (r ∷ rest)) le (scan-ScanHeld x (r ∷ rest)),
)

-- What holds of all entries of a window, and of a new one, holds after a check.
module _ (P : Reply → Type 0) where
  gc-All : (rep : ℕ) (w : List Reply) → All P w → All P (gc rep w)
  unfolding gc
  gc-All rep [] h = h
  gc-All rep (r ∷ []) h = h
  gc-All rep (r ∷ t ∷ rest) (p, h) = elim (Bool-cases (ltb r.xid rep)) [
    | inl e ↦ rw e (gc-All rep (t ∷ rest) h)
    | inr e ↦ rw e (p, h)
  ]

  abbrev ScanAll : ℕ → Scan → Type 0
  ScanAll x (inserted v) = All P v
  ScanAll x (found r) = P r × (r.xid ≡ x)

  behind-All : (x : ℕ) (r : Reply) (sc : Scan) → P r → ScanAll x sc → ScanAll x (behind r sc)
  behind-All x r (inserted v) p h = (p, h)
  behind-All x r (found e) p h = h

  scan-All : (x : ℕ) (w : List Reply) → P (reply_t x) → All P w → ScanAll x (scan x w)
  unfolding scan
  scan-All x [] n h = (n, tt)
  scan-All x (r ∷ rest) n (p, h) = elim (Bool-cases (ltb x r.xid)) [
    | inl e ↦ rw e (n, (p, h))
    | inr e ↦ elim (Bool-cases (ltb r.xid x)) [
      | inl f ↦ rw (e, f) (behind-All x r (scan x rest) p (scan-All x rest n h))
      | inr f ↦ rw (e, f) (p, ground arith)
    ]
  ]

  after_scan-All :
      (x rep : ℕ) (w : List Reply) (sc : Scan)
      → All P w
      → ScanAll x sc
      → All P (after_scan rep w sc).1
  after_scan-All x rep w (inserted v) h a = gc-All rep v a
  after_scan-All x rep w (found r) h a = gc-All rep w h

  after_scan-done :
      (x rep : ℕ) (w : List Reply) (sc : Scan) (b : Bytes)
      → ScanAll x sc
      → (after_scan rep w sc).0 ≡ done b
      → (r : Reply) × P r × (r.xid ≡ x) × (r.cb_present ≡ true) × (r.buf ≡ b)
  after_scan-done x rep w (inserted v) b a e = cc
  after_scan-done x rep w (found r) b (p, same) e = (r, p, same, ground arith, ground arith)

  pub check-All :
      (x rep : ℕ) (w : List Reply) → P (reply_t x) → All P w → All P (check_window x rep w).1
  unfolding check_window
  check-All x rep [] n h = (n, tt)
  check-All x rep (r ∷ rest) n h = elim (Bool-cases (ltb x r.xid)) [
    | inl e ↦ rw e (gc-All rep (r ∷ rest) h)
    | inr e ↦
        rw e (after_scan-All x rep (r ∷ rest) (scan x (r ∷ rest)) h (scan-All x (r ∷ rest) n h))
  ]

  pub check-done :
      (x rep : ℕ) (w : List Reply) (b : Bytes)
      → P (reply_t x)
      → All P w
      → (check_window x rep w).0 ≡ done b
      → (r : Reply) × P r × (r.xid ≡ x) × (r.cb_present ≡ true) × (r.buf ≡ b)
  unfolding check_window
  check-done x rep [] b n h e = cc
  check-done x rep (r ∷ rest) b n h e = elim (Bool-cases (ltb x r.xid)) [
    | inl old ↦ absurd (ground arith)
    | inr next ↦
        after_scan-done x rep (r ∷ rest) (scan x (r ∷ rest)) b (scan-All x (r ∷ rest) n h)
          (ground arith)
  ]
