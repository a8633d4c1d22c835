-- ===== src/Prelude/Bytes.antt =====
-- `std::string` and `char *` as lists of bytes: equality and the order of `std::string::compare`.
use ctgfs.Prelude.Tests.{ltb, ◌==◌, if◌then◌else◌}
use Prim.Native.Nat.{ℕ}
use mathlib.Core.Path.{◌≡◌, refl}
use mathlib.Core.Logic.{◌⊎◌, inl, inr}
use mathlib.Core.Bool.{Bool, true, false, ◌&&◌}
use mathlib.Core.List.{List, [], ◌∷◌}
use native.Mathlib.Omega.{arith}

abbrev pub Bytes : Type 0
Bytes = List ℕ

unfoldable pub bytes_eq : Bytes → Bytes → Bool
bytes_eq [] [] = true
bytes_eq (a ∷ s) (b ∷ t) = (a == b) && bytes_eq s t
bytes_eq _ _ = false

-- `s < t`, byte by byte, a proper prefix being smaller.
unfoldable pub bytes_lt : Bytes → Bytes → Bool
bytes_lt [] [] = false
bytes_lt [] (b ∷ t) = true
bytes_lt (a ∷ s) [] = false
bytes_lt (a ∷ s) (b ∷ t) = if ltb a b then true else if ltb b a then false else bytes_lt s t

pub bytes_eq_refl : (s : Bytes) → bytes_eq s s ≡ true
unfolding bytes_eq
bytes_eq_refl [] = refl
bytes_eq_refl (a ∷ s) = ground (arith, bytes_eq_refl s)

pub bytes_eq-eq : (s t : Bytes) → bytes_eq s t ≡ true → s ≡ t
unfolding bytes_eq
bytes_eq-eq [] [] h = refl
bytes_eq-eq (a ∷ s) [] h = cc
bytes_eq-eq [] (b ∷ t) h = cc
bytes_eq-eq (a ∷ s) (b ∷ t) h = ground (arith, bytes_eq-eq s t)

pub bytes_lt_irrefl : (s : Bytes) → bytes_lt s s ≡ false
unfolding bytes_lt
bytes_lt_irrefl [] = refl
bytes_lt_irrefl (a ∷ s) = ground (arith, bytes_lt_irrefl s)

pub bytes_lt_trans :
    (s t u : Bytes) → bytes_lt s t ≡ true → bytes_lt t u ≡ true → bytes_lt s u ≡ true
unfolding bytes_lt
bytes_lt_trans [] [] u h k = cc
bytes_lt_trans [] (b ∷ t) [] h k = cc
bytes_lt_trans [] (b ∷ t) (c ∷ u) h k = refl
bytes_lt_trans (a ∷ s) [] u h k = cc
bytes_lt_trans (a ∷ s) (b ∷ t) [] h k = cc
bytes_lt_trans (a ∷ s) (b ∷ t) (c ∷ u) h k = ground (arith, bytes_lt_trans s t u)

-- Exactly one of the three holds: the first two exclude each other by the laws above.
pub bytes_lt-total : (s t : Bytes) → (bytes_lt s t ≡ true) ⊎ (bytes_lt t s ≡ true) ⊎ (s ≡ t)
unfolding bytes_lt
bytes_lt-total [] [] = inr (inr refl)
bytes_lt-total [] (b ∷ t) = inl refl
bytes_lt-total (a ∷ s) [] = inr (inl refl)
bytes_lt-total (a ∷ s) (b ∷ t) = ground (arith, bytes_lt-total s t)
