-- ===== src/Storage/Sst/Meta.antt =====
-- The head of a table's file.
use mathlib.Core.List.{append_assoc, append-nil}
use ctgfs.Prelude.{
  ◌+◌, ◌^◌, ◌<◌, ◌≡◌, refl, sym, ◌∙◌, some, [], ◌++◌, arith, length, drop, length-append,
  take-append, drop-append,
}
use ctgfs.Prelude.Bytes.{Bytes}
use ctgfs.Storage.Codec.{uint64_to_str, drop-step}
use ctgfs.Storage.Log.{encode}
use ctgfs.Storage.Log.Decode.{IsSound, length-uint64, length-encode, uint64_at, decode-encode}
use ctgfs.Storage.Sst.{
  SstMeta, meta_size, meta_bytes, encode_meta, decode_meta, write_meta, read_meta,
}

pub record MetaIsSound (m : SstMeta) : Type 0 where
  pub last_sound : IsSound m.last_log
  pub offset_small : m.data_offset < 2 ^ 64
  pub size_small : m.data_size < 2 ^ 64
  pub head_small : meta_size m + 8 < 2 ^ 64

pub length-meta : (m : SstMeta) → IsSound m.last_log → length (meta_bytes m) ≡ meta_size m
length-meta m s = simp (length-append, length-uint64, length-encode) (omega (arith, s.sized))

-- A table's head can always be encoded: the size test of `SSTMeta::Encode` does not fail.
pub write_meta-total :
    (m : SstMeta)
    → IsSound m.last_log
    → write_meta m ≡ some (uint64_to_str (meta_size m + 8) ++ meta_bytes m)
unfolding write_meta encode_meta
write_meta-total m s = ground (
  arith,
  length-meta m s,
  take-append (meta_bytes m) [] (meta_size m) (sym (length-meta m s)),
  append-nil (meta_bytes m),
)

decode_meta-bytes : (m : SstMeta) → MetaIsSound m → decode_meta (meta_bytes m) ≡ some m
unfolding decode_meta
decode_meta-bytes m s = ground (
  arith,
  decode-encode m.last_log tail s.last_sound,
  uint64_at (meta_bytes m) m.last_log.size m.data_offset (uint64_to_str m.data_size) s.offset_small
      at_offset,
  uint64_at (meta_bytes m) (m.last_log.size + 8) m.data_size [] s.size_small
      (at_size ∙ sym (append-nil (uint64_to_str m.data_size))),
)
  where
    tail : Bytes
    tail = uint64_to_str m.data_offset ++ uint64_to_str m.data_size

    at_offset : drop m.last_log.size (meta_bytes m) ≡ tail
    at_offset =
        drop-append (encode m.last_log) tail m.last_log.size
          (omega (arith, length-encode m.last_log, s.last_sound.sized))

    at_size : drop (m.last_log.size + 8) (meta_bytes m) ≡ uint64_to_str m.data_size
    at_size =
        drop-step m.last_log.size (m.last_log.size + 8) (meta_bytes m) (uint64_to_str m.data_offset)
          (uint64_to_str m.data_size) at_offset (omega (arith, length-uint64 m.data_offset))

pub read-head :
    (m : SstMeta) (t : Bytes)
    → MetaIsSound m
    → read_meta ((uint64_to_str (meta_size m + 8) ++ meta_bytes m) ++ t) ≡ some m
unfolding read_meta
read-head m t s = rw append_assoc (
    ground (
      arith,
      uint64_at file 0 (meta_size m + 8) (meta_bytes m ++ t) s.head_small refl,
      drop-append (uint64_to_str (meta_size m + 8)) (meta_bytes m ++ t) 8
          (sym (length-uint64 (meta_size m + 8))),
      take-append (meta_bytes m) t (meta_size m) (sym (length-meta m s.last_sound)),
      length-append (meta_bytes m) t,
      length-meta m s.last_sound,
      decode_meta-bytes m s,
    ))
  where
    file : Bytes
    file = uint64_to_str (meta_size m + 8) ++ (meta_bytes m ++ t)
