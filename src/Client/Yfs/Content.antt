-- ===== src/Client/Yfs/Content.antt =====
-- What `write` and `read` of src/client/yfs_client.cc make of the content of a file.
use ctgfs.Prelude.{
  ℕ, zero, suc, ◌+◌, ◌-◌, ◌^◌, ◌≤◌, ◌<◌, ◌≡◌, refl, ap, sym, ◌∙◌, inl, inr, some, [], ◌∷◌, ◌++◌,
  arith, length, take, drop, ltb, if◌then◌else◌, length-append, length-drop, le_or_lt,
}
use ctgfs.Prelude.Bytes.{Bytes}
use ctgfs.Client.Yfs.Ops.{holes, read_content, write_content}

-- The byte at a position, 0 past the end.
abbrev pub byte_at : Bytes → ℕ → ℕ
byte_at [] i = 0
byte_at (c ∷ s) zero = c
byte_at (c ∷ s) (suc i) = byte_at s i

length-holes : (n : ℕ) → length (holes n) ≡ n
unfolding holes
length-holes zero = refl
length-holes (suc n) = ap suc (length-holes n)

byte_at-holes : (n i : ℕ) → byte_at (holes n) i ≡ 0
unfolding holes
byte_at-holes zero i = refl
byte_at-holes (suc n) zero = refl
byte_at-holes (suc n) (suc i) = byte_at-holes n i

byte_at_past : (s : Bytes) (i : ℕ) → length s ≤ i → byte_at s i ≡ 0
byte_at_past [] i h = refl
byte_at_past (c ∷ s) zero h = absurd (omega arith)
byte_at_past (c ∷ s) (suc i) h = byte_at_past s i (omega arith)

byte_at-append :
    (s t : Bytes) (i : ℕ)
    → byte_at (s ++ t) i ≡ (if ltb i (length s) then byte_at s i else byte_at t (i - length s))
byte_at-append [] t i = ground arith
byte_at-append (c ∷ s) t zero = ground arith
byte_at-append (c ∷ s) t (suc i) = ground (arith, byte_at-append s t i)

byte_at-take : (n : ℕ) (s : Bytes) (i : ℕ) → i < n → byte_at (take n s) i ≡ byte_at s i
byte_at-take zero s i h = absurd (omega arith)
byte_at-take (suc n) [] i h = refl
byte_at-take (suc n) (c ∷ s) zero h = refl
byte_at-take (suc n) (c ∷ s) (suc i) h = byte_at-take n s i (omega arith)

byte_at-drop : (n : ℕ) (s : Bytes) (i : ℕ) → byte_at (drop n s) i ≡ byte_at s (n + i)
byte_at-drop zero s i = let z : 0 + i ≡ i = omega arith in rw z refl
byte_at-drop (suc n) [] i = refl
byte_at-drop (suc n) (c ∷ s) i =
    let z : suc n + i ≡ suc (n + i) = omega arith in rw z (byte_at-drop n s i)

length-take_short : (n : ℕ) (s : Bytes) → n ≤ length s → length (take n s) ≡ n
length-take_short zero s h = refl
length-take_short (suc n) [] h = absurd (omega arith)
length-take_short (suc n) (c ∷ s) h = ap suc (length-take_short n s (omega arith))

-- What the file should have at a position: the bytes of `buf` from `off` on, and what was there elsewhere.
abbrev pub written_at : Bytes → ℕ → Bytes → ℕ → ℕ
written_at origin off buf i =
    if ltb i off
    then byte_at origin i
    else if ltb i (off + length buf)
    then byte_at buf (i - off)
    else byte_at origin i

module _ (origin buf : Bytes) (off : ℕ) (small : length origin < 2 ^ 32)
    (fits : off + length buf < 2 ^ 32) where
  past_end :
      length origin ≤ off
      → write_content origin (length buf) off buf
        ≡ some ((origin ++ holes (off - length origin)) ++ buf)
  unfolding write_content
  past_end h = ground arith

  abbrev need_append : Bytes
  need_append =
      if ltb (length buf) (length origin - off) then drop (off + length buf) origin else []

  within :
      off < length origin
      → write_content origin (length buf) off buf ≡ some ((take off origin ++ buf) ++ need_append)
  unfolding write_content
  within h = ground arith

  abbrev hole : Bytes
  hole = holes (off - length origin)

  byte_past :
      length origin ≤ off
      → (i : ℕ) → byte_at ((origin ++ hole) ++ buf) i ≡ written_at origin off buf i
  byte_past h i =
      let e : length origin + (off - length origin) ≡ off = omega arith in
      rw
        (
          byte_at-append (origin ++ hole) buf i,
          length-append origin hole,
          length-holes (off - length origin),
          byte_at-append origin hole i,
          byte_at-holes (off - length origin) (i - length origin),
          e,
        )
        (ground (arith, byte_at_past origin i, byte_at_past buf (i - off)))

  front_length : off < length origin → length (take off origin) ≡ off
  front_length h = length-take_short off origin (omega arith)

  byte_need_append :
      off < length origin → (k : ℕ) → byte_at need_append k ≡ byte_at origin (off + length buf + k)
  byte_need_append h k =
      ground (
        arith,
        byte_at-drop (off + length buf) origin k,
        byte_at_past origin (off + length buf + k),
      )

  length-need_append : off < length origin → length need_append ≡ length origin - (off + length buf)
  length-need_append h = ground (arith, length-drop (off + length buf) origin)

  byte_within :
      off < length origin
      → (i : ℕ) → byte_at ((take off origin ++ buf) ++ need_append) i ≡ written_at origin off buf i
  byte_within h i =
      rw
        (
          byte_at-append (take off origin ++ buf) need_append i,
          length-append (take off origin) buf,
          front_length h,
          byte_at-append (take off origin) buf i,
          front_length h,
          byte_need_append h (i - (off + length buf)),
        )
        (ground (arith, byte_at-take off origin i))

  -- The size of the file after the write.
  abbrev pub new_length : ℕ
  new_length = if ltb (length origin) (off + length buf) then off + length buf else length origin

  length_past : length origin ≤ off → length ((origin ++ hole) ++ buf) ≡ new_length
  length_past h =
      rw
        (
          length-append (origin ++ hole) buf,
          length-append origin hole,
          length-holes (off - length origin),
        )
        (ground arith)

  length_within :
      off < length origin → length ((take off origin ++ buf) ++ need_append) ≡ new_length
  length_within h =
      rw
        (
          length-append (take off origin ++ buf) need_append,
          length-append (take off origin) buf,
          front_length h,
          length-need_append h,
        )
        (ground arith)

  -- `write` is defined, and has these bytes.
  pub write_content-bytes :
      (c : Bytes) × (write_content origin (length buf) off buf ≡ some c)
      × (length c ≡ new_length)
      × ((i : ℕ) → byte_at c i ≡ written_at origin off buf i)
  write_content-bytes = elim (le_or_lt (length origin) off) [
    | inl h ↦ (_, past_end h, length_past h, byte_past h)
    | inr h ↦ (_, within h, length_within h, byte_within h)
  ]

abbrev pub part_size : Bytes → ℕ → ℕ → ℕ
part_size buf size off = if ltb (length buf - off) size then length buf - off else size

-- A read is defined, and has the bytes of the file from `off` on.
pub read_content-bytes :
    (buf : Bytes) (size off : ℕ)
    → length buf < 2 ^ 32
    → off < 2 ^ 32
    → (part : Bytes) × (read_content buf size off ≡ some part)
      × (length part ≡ part_size buf size off)
      × ((i : ℕ) → i < length part → byte_at part i ≡ byte_at buf (off + i))
unfolding read_content
read_content-bytes buf size off small fits = elim (le_or_lt (length buf) off) [
  | inl h ↦ ([], ground arith, ground arith, λ i lt. absurd (omega arith))
  | inr h ↦
      let long : length (take (part_size buf size off) (drop off buf)) ≡ part_size buf size off =
        length-take_short (part_size buf size off) (drop off buf)
          (rw (length-drop off buf) (ground arith)) in
      (
        take (part_size buf size off) (drop off buf),
        ground arith,
        long,
        λ i lt.
            byte_at-take (part_size buf size off) (drop off buf) i (rw (sym long) lt)
            ∙ byte_at-drop off buf i,
      )
]
