-- ===== src/Rpc/Marshall/Buffer.antt =====
-- What the `operator<<` of src/rpc/rpc.cc append, and the capacity of the buffer.
use mathlib.Core.List.{append_assoc, append-nil}
use ctgfs.Prelude.{
  ℕ, ◌/◌, ◌%◌, ◌^◌, ◌≤◌, ◌<◌, ◌≡◌, List, [], ◌∷◌, ◌++◌, arith, length, length-append,
}
use ctgfs.Prelude.Bytes.{Bytes}
use ctgfs.Rpc.Marshall.{
  Marshall, m_ind, put_rawbyte, put_rawbytes, put_u16, put_u32, put_u64, put_string, put_items,
  put_vector, be32, Value, half, word, wide, text, words, put_value,
}

abbrev pub be16 : ℕ → Bytes
be16 x = (x / 2 ^ 8 % 256) ∷ (x % 256) ∷ []

abbrev pub be64 : ℕ → Bytes
be64 x = be32 (x / 2 ^ 32 % 2 ^ 32) ++ be32 (x % 2 ^ 32)

abbrev pub flat64 : List ℕ → Bytes
flat64 [] = []
flat64 (x ∷ xs) = be64 x ++ flat64 xs

-- The bytes of a value on the wire.
abbrev pub wire : Value → Bytes
wire (half x) = be16 x
wire (word x) = be32 x
wire (wide x) = be64 x
wire (text s) = be32 (length s % 2 ^ 32) ++ s
wire (words xs) = be32 (length xs % 2 ^ 32) ++ flat64 xs

body-put_u32 : (m : Marshall) (x : ℕ) → (put_u32 m x).body ≡ m.body ++ be32 x
unfolding put_u32 put_rawbyte
body-put_u32 m x = simp append_assoc

body-put_u64 : (m : Marshall) (x : ℕ) → (put_u64 m x).body ≡ m.body ++ be64 x
unfolding put_u64
body-put_u64 m x = simp (body-put_u32, append_assoc)

body-put_items : (m : Marshall) (xs : List ℕ) → (put_items put_u64 m xs).body ≡ m.body ++ flat64 xs
unfolding put_items
body-put_items m [] = simp append-nil
body-put_items m (x ∷ xs) = simp (body-put_items (put_u64 m x) xs, body-put_u64, append_assoc)

pub body-put_value : (m : Marshall) (v : Value) → (put_value m v).body ≡ m.body ++ wire v
unfolding put_value put_u16 put_rawbyte put_string put_rawbytes put_vector
body-put_value m (half x) = simp append_assoc
body-put_value m (word x) = body-put_u32 m x
body-put_value m (wide x) = body-put_u64 m x
body-put_value m (text s) = simp (body-put_u32, append_assoc)
body-put_value m (words xs) = simp (body-put_items, body-put_u32, append_assoc)

-- Every byte of the message lies within the allocated buffer, and its size is an `int` that is not below zero.
abbrev pub IsRoomy : Marshall → Type 0
IsRoomy m = (m_ind m ≤ m.capa) × (m.capa < 2 ^ 31)

-- The message is so short that twice its size is an `int`.
abbrev pub IsShort : Marshall → Type 0
IsShort m = m_ind m < 2 ^ 30

-- An operation appends bytes, and where the result is short, the buffer stays roomy.
abbrev Grows : Marshall → Marshall → Type 0
Grows m m' = (m_ind m ≤ m_ind m') × (IsShort m' → IsRoomy m → IsRoomy m')

Grows-trans : (a b c : Marshall) → Grows a b → Grows b c → Grows a c
Grows-trans a b c (le, f) (le', g) = (omega arith, λ short h. g short (f (omega arith) h))

rawbyte-Grows : (m : Marshall) (x : ℕ) → Grows m (put_rawbyte m x)
unfolding put_rawbyte
rawbyte-Grows m x =
    let long = length-append m.body ((x % 256) ∷ []) in
    (omega arith, λ short h. ground (arith, long))

rawbytes-Grows : (m : Marshall) (s : Bytes) → Grows m (put_rawbytes m s)
unfolding put_rawbytes
rawbytes-Grows m s =
    let long = length-append m.body s in (omega arith, λ short h. ground (arith, long))

u16-Grows : (m : Marshall) (x : ℕ) → Grows m (put_u16 m x)
unfolding put_u16
u16-Grows m x =
    let m1 = put_rawbyte m (x / 2 ^ 8) in
    Grows-trans m m1 (put_rawbyte m1 x) (rawbyte-Grows m (x / 2 ^ 8)) (rawbyte-Grows m1 x)

u32-Grows : (m : Marshall) (x : ℕ) → Grows m (put_u32 m x)
unfolding put_u32
u32-Grows m x =
    let m1 = put_rawbyte m (x / 2 ^ 24) in
    let m2 = put_rawbyte m1 (x / 2 ^ 16) in
    let m3 = put_rawbyte m2 (x / 2 ^ 8) in
    Grows-trans m m1 (put_rawbyte m3 x) (rawbyte-Grows m (x / 2 ^ 24)) (
      Grows-trans m1 m2 (put_rawbyte m3 x) (rawbyte-Grows m1 (x / 2 ^ 16))
        (Grows-trans m2 m3 (put_rawbyte m3 x) (rawbyte-Grows m2 (x / 2 ^ 8)) (rawbyte-Grows m3 x)))

u64-Grows : (m : Marshall) (x : ℕ) → Grows m (put_u64 m x)
unfolding put_u64
u64-Grows m x =
    let m1 = put_u32 m (x / 2 ^ 32 % 2 ^ 32) in
    Grows-trans m m1 (put_u32 m1 (x % 2 ^ 32)) (u32-Grows m (x / 2 ^ 32 % 2 ^ 32))
      (u32-Grows m1 (x % 2 ^ 32))

items-Grows : (m : Marshall) (xs : List ℕ) → Grows m (put_items put_u64 m xs)
unfolding put_items
items-Grows m [] = (omega arith, λ short h. h)
items-Grows m (x ∷ xs) =
    Grows-trans m (put_u64 m x) (put_items put_u64 (put_u64 m x) xs) (u64-Grows m x)
      (items-Grows (put_u64 m x) xs)

value-Grows : (m : Marshall) (v : Value) → Grows m (put_value m v)
unfolding put_value put_string put_vector
value-Grows m (half x) = u16-Grows m x
value-Grows m (word x) = u32-Grows m x
value-Grows m (wide x) = u64-Grows m x
value-Grows m (text s) =
    let m1 = put_u32 m (length s % 2 ^ 32) in
    Grows-trans m m1 (put_rawbytes m1 s) (u32-Grows m (length s % 2 ^ 32)) (rawbytes-Grows m1 s)
value-Grows m (words xs) =
    let m1 = put_u32 m (length xs % 2 ^ 32) in
    Grows-trans m m1 (put_items put_u64 m1 xs) (u32-Grows m (length xs % 2 ^ 32))
      (items-Grows m1 xs)

-- Where the write position is within the capacity, and the capacity is an `int` that is not below zero, both
-- hold after any value is appended with which the message is shorter than 2^30 bytes: the capacity grows
-- where it must, and does not overflow.
pub put_value-IsRoomy :
    (m : Marshall) (v : Value) → IsRoomy m → IsShort (put_value m v) → IsRoomy (put_value m v)
put_value-IsRoomy m v h short = (value-Grows m v).1 short h
