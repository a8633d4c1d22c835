-- ===== src/Client/Yfs/Dir.antt =====
-- The content of a directory: `parse_dir` and `encode_dir` of src/client/yfs_client.cc, for contents of
-- less than 2^32 bytes, where the `unsigned int` index of `parse_dir` does not wrap.
use ctgfs.Prelude.{
  ℕ, zero, suc, ◌+◌, ◌^◌, ◌≤◌, ◌<◌, ◌≡◌, refl, ap, sym, false, Option, none, some, List, [], ◌∷◌,
  ◌++◌, arith, length, take, drop, ltb, leb, if◌then◌else◌, All, length-append, take-append,
  drop-append,
}
use ctgfs.Prelude.Bytes.{Bytes}
use ctgfs.Storage.Codec.{le_read, int_to_str, uint64_to_str, length-le_bytes, le_read-le_bytes}
use ctgfs.Storage.Log.{◌>>=◌}
use mathlib.Core.List.{append_assoc}

-- `yfs_client::dirent`
pub record Dirent : Type 0 where
  pub name : Bytes
  pub inum : ℕ

-- A round of the loop of `parse_dir` on the bytes from `i` on: the entry, and the bytes behind it. The test
-- on the size takes it as an `unsigned int`, and `substr` as an `int`: one that is below zero is the rest.
abbrev checked : ℕ → Bytes → Option Bytes
checked n s = if ltb (length s) n then none else some s

unfoldable pub parse_entry : Bytes → Option (Dirent × Bytes)
parse_entry s0 = do
  s ← checked 4 s0
  size ← le_read 4 s
  s1 ← checked size (drop 4 s)
  s2 ← checked 8 (drop size s1)
  id ← le_read 8 s2
  some (record { name = if leb (2 ^ 31) size then s1 else take size s1; inum = id }, drop 8 s2)

-- On fuel, one for each entry. `none` is the result -1.
unfoldable pub parse_from : ℕ → Bytes → Option (List Dirent)
parse_from zero s = none
parse_from (suc fuel) [] = some []
parse_from (suc fuel) (c ∷ s) = do
  (entry, rest) ← parse_entry (c ∷ s)
  vec ← parse_from fuel rest
  some (entry ∷ vec)

unfoldable pub parse_dir : Bytes → Option (List Dirent)
parse_dir dir_content = parse_from (suc (length dir_content)) dir_content

abbrev pub encode_entry : Dirent → Bytes
encode_entry e = int_to_str (length e.name) ++ (e.name ++ uint64_to_str e.inum)

unfoldable pub encode_dir : List Dirent → Bytes
encode_dir [] = []
encode_dir (e ∷ vec) = encode_entry e ++ encode_dir vec

-- Sizes that an `int` and an `inum` can carry.
abbrev pub IsEncodable : Dirent → Type 0
IsEncodable e = (length e.name < 2 ^ 31) × (e.inum < 2 ^ 64)

length-int : (x : ℕ) → length (int_to_str x) ≡ 4
unfolding int_to_str
length-int x = length-le_bytes 4 x

length-inum : (x : ℕ) → length (uint64_to_str x) ≡ 8
unfolding uint64_to_str
length-inum x = length-le_bytes 8 x

checked_ok : (n : ℕ) (s : Bytes) → n ≤ length s → checked n s ≡ some s
checked_ok n s h = ground arith

entry-append :
    (e : Dirent) (t : Bytes)
    → encode_entry e ++ t ≡ int_to_str (length e.name) ++ (e.name ++ (uint64_to_str e.inum ++ t))
entry-append e t = simp append_assoc

module _ (e : Dirent) (t : Bytes) (h : IsEncodable e) where
  abbrev id_part : Bytes
  id_part = uint64_to_str e.inum ++ t

  abbrev name_part : Bytes
  name_part = e.name ++ id_part

  abbrev all : Bytes
  all = int_to_str (length e.name) ++ name_part

  whole : checked 4 all ≡ some all
  whole = checked_ok 4 all (
      omega
        (arith, length-append (int_to_str (length e.name)) name_part, length-int (length e.name)))

  size_read : le_read 4 all ≡ some (length e.name)
  unfolding int_to_str
  size_read = le_read-le_bytes 4 (length e.name) name_part (omega arith)

  not_negative : leb (2 ^ 31) (length e.name) ≡ false
  not_negative = ground (arith, h.0)

  size_dropped : drop 4 all ≡ name_part
  size_dropped =
      drop-append (int_to_str (length e.name)) name_part 4 (sym (length-int (length e.name)))

  name_there : checked (length e.name) name_part ≡ some name_part
  name_there = checked_ok (length e.name) name_part (omega (arith, length-append e.name id_part))

  id_there : checked 8 id_part ≡ some id_part
  id_there =
      checked_ok 8 id_part
        (omega (arith, length-append (uint64_to_str e.inum) t, length-inum e.inum))

  id_read : le_read 8 id_part ≡ some e.inum
  unfolding uint64_to_str
  id_read = le_read-le_bytes 8 e.inum t (omega arith)

  parse_entry-encode : parse_entry (encode_entry e ++ t) ≡ some (e, t)
  unfolding parse_entry
  parse_entry-encode =
      rw
        (
          entry-append e t,
          whole,
          size_read,
          not_negative,
          size_dropped,
          name_there,
          drop-append e.name id_part (length e.name) refl,
          take-append e.name id_part (length e.name) refl,
          id_there,
          id_read,
          drop-append (uint64_to_str e.inum) t 8 (sym (length-inum e.inum)),
        )
        refl

entry_nonempty : (e : Dirent) (t : Bytes) → 12 + length t ≤ length (encode_entry e ++ t)
entry_nonempty e t = omega (
  arith,
  ap length (entry-append e t),
  length-append (int_to_str (length e.name)) (e.name ++ (uint64_to_str e.inum ++ t)),
  length-append e.name (uint64_to_str e.inum ++ t),
  length-append (uint64_to_str e.inum) t,
  length-int (length e.name),
  length-inum e.inum,
)

parse_from_step :
    (fuel : ℕ) (s rest : Bytes) (e : Dirent) (vec : List Dirent)
    → 0 < length s
    → parse_entry s ≡ some (e, rest)
    → parse_from fuel rest ≡ some vec
    → parse_from (suc fuel) s ≡ some (e ∷ vec)
unfolding parse_from
parse_from_step fuel [] rest e vec h p q = absurd (omega arith)
parse_from_step fuel (c ∷ s) rest e vec h p q = rw (p, q) refl

parse_from-encode :
    (vec : List Dirent) (fuel : ℕ)
    → All IsEncodable vec
    → length (encode_dir vec) < fuel
    → parse_from fuel (encode_dir vec) ≡ some vec
unfolding parse_from encode_dir
parse_from-encode vec zero h k = absurd (omega arith)
parse_from-encode [] (suc fuel) h k = refl
parse_from-encode (e ∷ vec) (suc fuel) (g, h) k =
    let long = entry_nonempty e (encode_dir vec) in
    parse_from_step fuel (encode_entry e ++ encode_dir vec) (encode_dir vec) e vec (omega arith)
      (parse_entry-encode e (encode_dir vec) g) (parse_from-encode vec fuel h (omega arith))

-- The text of a directory, of any length.
pub parse_encoded :
    (vec : List Dirent) → All IsEncodable vec → parse_dir (encode_dir vec) ≡ some vec
unfolding parse_dir
parse_encoded vec h = parse_from-encode vec (suc (length (encode_dir vec))) h (omega arith)

-- The entries of a directory whose names and numbers fit their fields, and whose text is shorter than 2^32
-- bytes, so that no index into it wraps, are what `parse_dir` reads in what `encode_dir` writes for
-- them.
pub parse_dir-encode_dir :
    (vec : List Dirent)
    → All IsEncodable vec
    → length (encode_dir vec) < 2 ^ 32
    → parse_dir (encode_dir vec) ≡ some vec
parse_dir-encode_dir vec h short = parse_encoded vec h
