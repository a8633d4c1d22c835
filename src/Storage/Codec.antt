-- ===== src/Storage/Codec.antt =====
-- Integers as the bytes of the host's memory, which is little-endian: `uint64_to_str`, `int_to_str`
-- and `str_to_uint64` of src/storage/log.cc and src/storage/sstable/sst_meta.cc.
use native.Mathlib.Nat.{pow-suc}
use ctgfs.Prelude.{
  ℕ, zero, suc, ◌+◌, ◌*◌, ◌/◌, ◌%◌, ◌^◌, ◌≤◌, ◌<◌, ◌≡◌, refl, ap, sym, ◌∙◌, Option, none, some, [],
  ◌∷◌, ◌++◌, arith, length, drop, drop-append,
}
use ctgfs.Prelude.Bytes.{Bytes}

-- The `n` bytes of `x`, lowest first.
unfoldable pub le_bytes : ℕ → ℕ → Bytes
le_bytes zero x = []
le_bytes (suc n) x = (x % 256) ∷ le_bytes n (x / 256)

abbrev pub push_byte : ℕ → Option ℕ → Option ℕ
push_byte c none = none
push_byte c (some r) = some (c + 256 * r)

-- The number in the first `n` bytes. `none`: there are fewer, and the cast reads past the end.
unfoldable pub le_read : ℕ → Bytes → Option ℕ
le_read zero s = some 0
le_read (suc n) [] = none
le_read (suc n) (c ∷ s) = push_byte c (le_read n s)

unfoldable pub uint64_to_str : ℕ → Bytes
uint64_to_str x = le_bytes 8 x

unfoldable pub int_to_str : ℕ → Bytes
int_to_str x = le_bytes 4 x

-- `str_to_uint64(s + i)`
unfoldable pub str_to_uint64 : Bytes → ℕ → Option ℕ
str_to_uint64 s i = le_read 8 (drop i s)

pub length-le_bytes : (n x : ℕ) → length (le_bytes n x) ≡ n
unfolding le_bytes
length-le_bytes zero x = refl
length-le_bytes (suc n) x = ap suc (length-le_bytes n (x / 256))

-- One byte less.
rest_small : (n x : ℕ) → x < 256 ^ suc n → x / 256 < 256 ^ n
rest_small n x h = omega (arith, pow-suc 256 n)

pub le_read-le_bytes : (n x : ℕ) (t : Bytes) → x < 256 ^ n → le_read n (le_bytes n x ++ t) ≡ some x
unfolding le_read le_bytes
le_read-le_bytes zero x t h = ground arith
le_read-le_bytes (suc n) x t h = ground (arith, le_read-le_bytes n (x / 256) t (rest_small n x h))

-- A read that begins in a number of `m` bytes and goes on into what follows.
pub le_read-across :
    (m n x : ℕ) (t : Bytes) (r : ℕ)
    → x < 256 ^ m
    → le_read n t ≡ some r
    → le_read (m + n) (le_bytes m x ++ t) ≡ some (x + 256 ^ m * r)
unfolding le_read le_bytes
le_read-across zero n x t r h e = let z : 0 + n ≡ n = omega arith in rw z (ground (arith, e))
le_read-across (suc m) n x t r h e =
    let z : suc m + n ≡ suc (m + n) = omega arith in
    let p : x % 256 + 256 * (x / 256 + 256 ^ m * r) ≡ x + 256 ^ suc m * r =
      omega (arith, ap (λ (t : ℕ). t * r) (pow-suc 256 m)) in
    rw (z, le_read-across m n (x / 256) t r (rest_small m x h) e) (ap some p)

pub drop-nil : (i : ℕ) → drop {A = ℕ} i [] ≡ []
drop-nil zero = refl
drop-nil (suc i) = refl

drop-add : (i j : ℕ) (b : Bytes) → drop (i + j) b ≡ drop j (drop i b)
drop-add zero j b = let z : 0 + j ≡ j = omega arith in rw z
drop-add (suc i) j [] = simp drop-nil
drop-add (suc i) j (x ∷ b) = let z : suc i + j ≡ suc (i + j) = omega arith in rw z (drop-add i j b)

-- What follows a part, by its position.
pub drop-step : (i j : ℕ) (b s t : Bytes) → drop i b ≡ s ++ t → i + length s ≡ j → drop j b ≡ t
drop-step i j b s t e q =
    ap (λ k. drop k b) (sym q)
    ∙ (drop-add i (length s) b ∙ (ap (drop (length s)) e ∙ drop-append s t (length s) refl))

pub le_read-total : (n : ℕ) (s : Bytes) → n ≤ length s → (r : ℕ) × (le_read n s ≡ some r)
unfolding le_read
le_read-total zero s h = (0, refl)
le_read-total (suc n) [] h = absurd (omega arith)
le_read-total (suc n) (c ∷ s) h =
    let (r, e) = le_read-total n s (omega arith) in (c + 256 * r, ap (push_byte c) e)
