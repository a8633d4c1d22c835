-- ===== src/Storage/Log/Decode.antt =====
-- What `Log::Decode` and `Log::Read` get back from what `Encode` and `Write` made.
use mathlib.Core.List.{append_assoc, append-nil}
use ctgfs.Prelude.{
  ℕ, ◌+◌, ◌*◌, ◌^◌, ◌≤◌, ◌<◌, ◌≡◌, refl, ap, sym, ◌∙◌, some, [], ◌++◌, arith, length, take, drop,
  length-append, take-append, drop-append,
}
use ctgfs.Prelude.Bytes.{Bytes}
use ctgfs.Storage.Codec.{
  le_read, uint64_to_str, int_to_str, str_to_uint64, length-le_bytes, le_read-le_bytes,
  le_read-across, le_read-total, drop-step,
}
use ctgfs.Storage.Log.{Log, encode, decode, write, read}

-- The fields are in the range of their types, and `size` is that of the encoding.
pub record IsSound (l : Log) : Type 0 where
  pub lsn_small : l.lsn < 2 ^ 64
  pub op_small : l.op < 2 ^ 32
  pub key_small : length l.key < 2 ^ 64
  pub value_small : length l.value < 2 ^ 64
  pub sized : l.size ≡ 28 + length l.key + length l.value

module _ (l : Log) (t : Bytes) where
  abbrev from_value : Bytes
  from_value = l.value ++ t

  abbrev from_size2 : Bytes
  from_size2 = uint64_to_str (length l.value) ++ from_value

  abbrev from_key : Bytes
  from_key = l.key ++ from_size2

  abbrev from_size1 : Bytes
  from_size1 = uint64_to_str (length l.key) ++ from_key

  abbrev from_op : Bytes
  from_op = int_to_str l.op ++ from_size1

pub encode-append : (l : Log) (t : Bytes) → encode l ++ t ≡ uint64_to_str l.lsn ++ from_op l t
unfolding encode
encode-append l t = simp append_assoc

pub length-uint64 : (x : ℕ) → length (uint64_to_str x) ≡ 8
unfolding uint64_to_str
length-uint64 x = length-le_bytes 8 x

length-int : (x : ℕ) → length (int_to_str x) ≡ 4
unfolding int_to_str
length-int x = length-le_bytes 4 x

pub length-encode : (l : Log) → length (encode l) ≡ 28 + length l.key + length l.value
unfolding encode
length-encode l = simp (length-append, length-uint64, length-int) (omega arith)

pub uint64_at :
    (b : Bytes) (i x : ℕ) (t : Bytes)
    → x < 2 ^ 64
    → drop i b ≡ uint64_to_str x ++ t
    → str_to_uint64 b i ≡ some x
unfolding str_to_uint64 uint64_to_str
uint64_at b i x t h e = rw e (le_read-le_bytes 8 x t h)

module _ (l : Log) (t : Bytes) (s : IsSound l) where
  abbrev bytes : Bytes
  bytes = encode l ++ t

  at_op : drop 8 bytes ≡ from_op l t
  at_op =
      rw (encode-append l t)
        (drop-append (uint64_to_str l.lsn) (from_op l t) 8 (sym (length-uint64 l.lsn)))

  at_size1 : drop 12 bytes ≡ from_size1 l t
  at_size1 = drop-step 8 12 bytes (int_to_str l.op) _ at_op (omega (arith, length-int l.op))

  at_key : drop 20 bytes ≡ from_key l t
  at_key =
      drop-step 12 20 bytes (uint64_to_str (length l.key)) _ at_size1
        (omega (arith, length-uint64 (length l.key)))

  at_size2 : drop (20 + length l.key) bytes ≡ from_size2 l t
  at_size2 = drop-step 20 (20 + length l.key) bytes l.key _ at_key refl

  at_value : drop (28 + length l.key) bytes ≡ from_value l t
  at_value =
      drop-step (20 + length l.key) (28 + length l.key) bytes (uint64_to_str (length l.value)) _
        at_size2 (omega (arith, length-uint64 (length l.value)))

  -- The eight bytes at the operation hold the operation and half of the key's length.
  read_op : (r : ℕ) × (str_to_uint64 bytes 8 ≡ some (l.op + 2 ^ 32 * r))
  unfolding str_to_uint64 int_to_str
  read_op =
      let (r, e) = le_read-total 4 (from_size1 l t) enough in
      (r, ap (le_read 8) at_op ∙ le_read-across 4 4 l.op (from_size1 l t) r s.op_small e)
    where
      enough : 4 ≤ length (from_size1 l t)
      enough = omega (
        arith,
        length-append (uint64_to_str (length l.key)) (from_key l t),
        length-uint64 (length l.key),
      )

  -- Decoding an encoded record gives the record, whatever bytes follow it.
  pub decode-encode : decode (encode l ++ t) ≡ some l
  unfolding decode
  decode-encode =
      let (r, op) = read_op in
      ground (
        arith,
        s.op_small,
        s.sized,
        uint64_at bytes 0 l.lsn (from_op l t) s.lsn_small (encode-append l t),
        op,
        uint64_at bytes 12 (length l.key) (from_key l t) s.key_small at_size1,
        uint64_at bytes (20 + length l.key) (length l.value) (from_value l t) s.value_small
            at_size2,
        ap (take (length l.key)) at_key ∙ take-append l.key (from_size2 l t) (length l.key) refl,
        ap (take (length l.value)) at_value ∙ take-append l.value t (length l.value) refl,
      )

decode-encode_whole : (l : Log) → IsSound l → decode (encode l) ≡ some l
decode-encode_whole l s = ap decode (sym (append-nil (encode l))) ∙ decode-encode l [] s

length-encode_size : (l : Log) → IsSound l → l.size ≡ length (encode l)
length-encode_size l s = omega (arith, length-encode l, s.sized)

pub write-append :
    (l : Log) (t : Bytes) → IsSound l → write l ++ t ≡ uint64_to_str (l.size + 8) ++ (encode l ++ t)
unfolding write
write-append l t s = simp append_assoc (ap (λ e. uint64_to_str (l.size + 8) ++ (e ++ t)) whole)
  where
    whole : take l.size (encode l) ≡ encode l
    whole =
        ap (take l.size) (sym (append-nil (encode l)))
        ∙ take-append (encode l) [] l.size (length-encode_size l s)

-- Reading a written record gives the record and the number of its bytes, and leaves the rest of
-- the file, where its numbers fit their fields and its size is that of its texts.
pub read-write :
    (l : Log) (t : Bytes)
    → IsSound l
    → l.size + 8 < 2 ^ 64
    → read (write l ++ t) ≡ some (l, l.size + 8, t)
unfolding read
read-write l t s small = rw (write-append l t s) (
    ground (
      arith,
      uint64_at file 0 (l.size + 8) (encode l ++ t) small refl,
      at_body,
      take-append (encode l) t l.size (length-encode_size l s),
      drop-append (encode l) t l.size (length-encode_size l s),
      length-append (encode l) t,
      length-encode_size l s,
      decode-encode_whole l s,
    ))
  where
    file : Bytes
    file = uint64_to_str (l.size + 8) ++ (encode l ++ t)

    at_body : drop 8 file ≡ encode l ++ t
    at_body =
        drop-append (uint64_to_str (l.size + 8)) (encode l ++ t) 8
          (sym (length-uint64 (l.size + 8)))
