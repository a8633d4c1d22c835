-- ===== src/Mvcc/Search.antt =====
-- The binary search of src/mvcc/mvcc.cc.
use ctgfs.Prelude.{ℕ, zero, suc, ◌≤◌, ◌<◌, ◌≡◌, Option, none, some, [], ◌∷◌, get_elem?, All}
use ctgfs.Mvcc.{Versions}

-- Each timestamp is at most all that follow.
abbrev pub IsSorted : Versions → Type 0
IsSorted [] = Unit {0}
IsSorted (v ∷ vec) = All (λ w. v.0 ≤ w.0) vec × IsSorted vec

abbrev InOrder : Versions → Type 0
InOrder vec =
    (i j : ℕ) (a b : ℕ × ℕ)
    → i ≤ j
    → get_elem? vec i ≡ some a
    → get_elem? vec j ≡ some b
    → a.0 ≤ b.0

-- The versions before index `n` are not after `key`, and those from there on are.
pub record IsSplit (vec : Versions) (key lb hi : ℕ) : Type 0 where
  pub below : (j : ℕ) (v : ℕ × ℕ) → j < lb → get_elem? vec j ≡ some v → v.0 ≤ key
  pub above : (j : ℕ) (v : ℕ × ℕ) → hi ≤ j → get_elem? vec j ≡ some v → key < v.0

abbrev pub last_before : ℕ → Option ℕ
last_before zero = none
last_before (suc n) = some n
