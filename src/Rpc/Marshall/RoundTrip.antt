-- ===== src/Rpc/Marshall/RoundTrip.antt =====
-- Reading back what was written.
use ctgfs.Prelude.{
  ℕ, zero, suc, ◌+◌, ◌/◌, ◌%◌, ◌^◌, ◌≤◌, ◌<◌, ◌≡◌, refl, true, some, List, [], ◌∷◌, ◌++◌, arith,
  All, length, get_elem?, take, drop, length-append,
}
use mathlib.Core.Path.{subst}
use mathlib.Core.List.{append-nil}
use ctgfs.Prelude.Bytes.{Bytes}
use ctgfs.Rpc.Marshall.{
  Unmarshall, Kind, Value, half, word, wide, text, words, get_rawbyte, get_u16, get_u32, get_u64,
  get_rawbytes, get_string, get_items, get_vector, get_value, be32,
}
use ctgfs.Rpc.Marshall.Buffer.{be16, be64, flat64, wire}

-- From position `i` on, the buffer holds the bytes `s`.
abbrev pub Ahead : Bytes → ℕ → Bytes → Type 0
Ahead buf i [] = Unit {0}
Ahead buf i (c ∷ s) = (get_elem? buf i ≡ some c) × Ahead buf (i + 1) s

Ahead-shift : (c : ℕ) (buf : Bytes) (i : ℕ) (s : Bytes) → Ahead buf i s → Ahead (c ∷ buf) (i + 1) s
Ahead-shift c buf i [] h = tt
Ahead-shift c buf i (x ∷ s) h = (ground arith, Ahead-shift c buf (i + 1) s h.1)

Ahead-zero : (s post : Bytes) → Ahead (s ++ post) 0 s
Ahead-zero [] post = tt
Ahead-zero (c ∷ s) post = (refl, Ahead-shift c (s ++ post) 0 s (Ahead-zero s post))

pub Ahead-pre : (pre s post : Bytes) (i : ℕ) → i ≡ length pre → Ahead (pre ++ (s ++ post)) i s
Ahead-pre [] s post i e = rw e (Ahead-zero s post)
Ahead-pre (c ∷ pre) s post i e =
    let e' : i ≡ length pre + 1 = omega arith in
    rw e'
      (Ahead-shift c (pre ++ (s ++ post)) (length pre) s (Ahead-pre pre s post (length pre) refl))

pub Ahead-end : (pre s : Bytes) (i : ℕ) → i ≡ length pre → Ahead (pre ++ s) i s
Ahead-end pre s i e = subst (λ t. Ahead (pre ++ t) i s) (append-nil s) (Ahead-pre pre s [] i e)

pub Ahead-append :
    (buf : Bytes) (i : ℕ) (s t : Bytes)
    → Ahead buf i (s ++ t)
    → Ahead buf i s × Ahead buf (i + length s) t
Ahead-append buf i [] t h = let e : i + 0 ≡ i = omega arith in (tt, rw e h)
Ahead-append buf i (c ∷ s) t h =
    let e : i + suc (length s) ≡ i + 1 + length s = omega arith in
    let (a, b) = Ahead-append buf (i + 1) s t h.1 in ((h.0, a), rw e b)

get_elem?-lt : (buf : Bytes) (i c : ℕ) → get_elem? buf i ≡ some c → i < length buf
get_elem?-lt [] i c h = ground arith
get_elem?-lt (b ∷ buf) zero c h = omega arith
get_elem?-lt (b ∷ buf) (suc i) c h = omega (arith, get_elem?-lt buf i c h)

read_u16 :
    (u : Unmarshall) (x : ℕ)
    → length u.buf < 2 ^ 31
    → x < 2 ^ 16
    → Ahead u.buf u.ind (be16 x)
    → get_u16 u ≡ (x, record u { ind = u.ind + 2 })
unfolding get_u16 get_rawbyte
read_u16 u x small lt (a, (b, e)) = ground (arith, get_elem?-lt u.buf (u.ind + 1) (x % 256) b)

pub read_u32 :
    (u : Unmarshall) (x : ℕ)
    → length u.buf < 2 ^ 31
    → x < 2 ^ 32
    → Ahead u.buf u.ind (be32 x)
    → get_u32 u ≡ (x, record u { ind = u.ind + 4 })
unfolding get_u32 get_rawbyte
read_u32 u x small lt (a, (b, (c, (d, e)))) =
    ground (arith, get_elem?-lt u.buf (u.ind + 1 + 1 + 1) (x % 256) d)

read_u64 :
    (u : Unmarshall) (x : ℕ)
    → length u.buf < 2 ^ 31
    → x < 2 ^ 64
    → Ahead u.buf u.ind (be64 x)
    → get_u64 u ≡ (x, record u { ind = u.ind + 8 })
unfolding get_u64
read_u64 u x small lt h = ground (arith, high, low)
  where
    parts :
        Ahead u.buf u.ind (be32 (x / 2 ^ 32 % 2 ^ 32)) × Ahead u.buf (u.ind + 4) (be32 (x % 2 ^ 32))
    parts = Ahead-append u.buf u.ind (be32 (x / 2 ^ 32 % 2 ^ 32)) (be32 (x % 2 ^ 32)) h

    high : get_u32 u ≡ (x / 2 ^ 32, record u { ind = u.ind + 4 })
    high = ground (arith, read_u32 u (x / 2 ^ 32 % 2 ^ 32) small (omega arith) parts.0)

    low : get_u32 (record u { ind = u.ind + 4 }) ≡ (x % 2 ^ 32, record u { ind = u.ind + 4 + 4 })
    low = read_u32 (record u { ind = u.ind + 4 }) (x % 2 ^ 32) small (omega arith) parts.1

Ahead-unshift :
    (b : ℕ) (buf : Bytes) (i : ℕ) (s : Bytes) → Ahead (b ∷ buf) (suc i) s → Ahead buf i s
Ahead-unshift b buf i [] h = tt
Ahead-unshift b buf i (c ∷ s) h =
    let e : suc i + 1 ≡ suc (i + 1) = omega arith in
    (h.0, Ahead-unshift b buf (i + 1) s (rw e at (h.1)))

pub Ahead-take :
    (buf : Bytes) (i : ℕ) (s : Bytes)
    → Ahead buf i s
    → (take (length s) (drop i buf) ≡ s) × (i ≤ length buf → i + length s ≤ length buf)
Ahead-take buf i [] h = (refl, λ le. omega arith)
Ahead-take [] i (c ∷ s) h = absurd (ground arith)
Ahead-take (b ∷ buf) zero (c ∷ s) h =
    let (e, le) = Ahead-take buf 0 s (Ahead-unshift b buf 0 s h.1) in
    (ground (arith, e), λ _. omega (arith, le (omega arith)))
Ahead-take (b ∷ buf) (suc i) (c ∷ s) h =
    let (e, le) = Ahead-take buf i (c ∷ s) (Ahead-unshift b buf i (c ∷ s) h) in
    (e, λ q. omega (arith, le (omega arith)))

read_string :
    (u : Unmarshall) (s ss : Bytes)
    → u.good ≡ true
    → length u.buf < 2 ^ 31
    → u.ind ≤ length u.buf
    → Ahead u.buf u.ind (wire (text s))
    → get_string u ss ≡ some (s, record u { ind = u.ind + (4 + length s) })
unfolding get_string get_rawbytes
read_string u s ss ok small fits h = ground (arith, count, got.0, in_range)
  where
    parts : Ahead u.buf u.ind (be32 (length s % 2 ^ 32)) × Ahead u.buf (u.ind + 4) s
    parts = Ahead-append u.buf u.ind (be32 (length s % 2 ^ 32)) s h

    head :
        Ahead u.buf u.ind (be32 (length s % 2 ^ 32))
        → u.ind ≤ length u.buf
        → u.ind + 4 ≤ length u.buf
    head a = (Ahead-take u.buf u.ind (be32 (length s % 2 ^ 32)) a).1

    got :
        (take (length s) (drop (u.ind + 4) u.buf) ≡ s)
        × (u.ind + 4 ≤ length u.buf → u.ind + 4 + length s ≤ length u.buf)
    got = Ahead-take u.buf (u.ind + 4) s parts.1

    in_range : u.ind + 4 + length s ≤ length u.buf
    in_range = got.1 (head parts.0 fits)

    count : get_u32 u ≡ (length s, record u { ind = u.ind + 4 })
    count = ground (arith, in_range, read_u32 u (length s % 2 ^ 32) small (omega arith) parts.0)

read_items :
    (u : Unmarshall) (xs : List ℕ)
    → length u.buf < 2 ^ 31
    → All (λ x. x < 2 ^ 64) xs
    → Ahead u.buf u.ind (flat64 xs)
    → get_items get_u64 (length xs) u ≡ (xs, record u { ind = u.ind + length (flat64 xs) })
unfolding get_items
read_items u [] small lt h = ground arith
read_items u (x ∷ xs) small lt h =
    let (a, b) = Ahead-append u.buf u.ind (be64 x) (flat64 xs) h in
    ground (
      arith,
      read_u64 u x small lt.0 a,
      read_items (record u { ind = u.ind + 8 }) xs small lt.1 b,
      length-append (be64 x) (flat64 xs),
    )

-- The values that the wire format can carry.
abbrev pub InRange : Value → Type 0
InRange (half x) = x < 2 ^ 16
InRange (word x) = x < 2 ^ 32
InRange (wide x) = x < 2 ^ 64
InRange (text s) = length s < 2 ^ 32
InRange (words xs) = (length xs < 2 ^ 32) × All (λ x. x < 2 ^ 64) xs

abbrev pub kind : Value → Kind
kind (half x) = Kind.half
kind (word x) = Kind.word
kind (wide x) = Kind.wide
kind (text s) = Kind.text
kind (words xs) = Kind.words

pub read_value :
    (u : Unmarshall) (v : Value)
    → u.good ≡ true
    → length u.buf < 2 ^ 31
    → u.ind ≤ length u.buf
    → InRange v
    → Ahead u.buf u.ind (wire v)
    → get_value (kind v) u ≡ some (v, record u { ind = u.ind + length (wire v) })
unfolding get_value get_vector
read_value u (half x) ok small fits lt h = ground (arith, read_u16 u x small lt h)
read_value u (word x) ok small fits lt h = ground (arith, read_u32 u x small lt h)
read_value u (wide x) ok small fits lt h = ground (arith, read_u64 u x small lt h)
read_value u (text s) ok small fits lt h = ground (arith, read_string u s [] ok small fits h)
read_value u (words xs) ok small fits lt h =
    let (a, b) = Ahead-append u.buf u.ind (be32 (length xs % 2 ^ 32)) (flat64 xs) h in
    ground (
      arith,
      read_u32 u (length xs % 2 ^ 32) small (omega arith) a,
      read_items (record u { ind = u.ind + 4 }) xs small lt.1 b,
    )
