-- ===== src/Storage/Log.antt =====
-- `storage::Log`: src/include/storage/log.h and src/storage/log.cc. A string is the list of its bytes.
-- A file is the list of its bytes; reads and writes of a file succeed.
pub mod Order
pub mod Decode
mod Examples
use ctgfs.Prelude.{
  ℕ, ◌+◌, ◌-◌, ◌%◌, ◌^◌, ◌≡◌, Bool, true, false, Option, none, some, List, [], ◌∷◌, ◌++◌, length,
  take, drop, ltb, leb, ◌==◌, if◌then◌else◌, not, ◌&&◌,
}
use ctgfs.Prelude.Bytes.{Bytes, bytes_lt}
use ctgfs.Storage.Codec.{uint64_to_str, int_to_str, str_to_uint64}

-- `op` is the value of the enumeration: PUT is 0 and DEL is 1.
pub record Log : Type 0 where
  pub lsn : ℕ
  pub size : ℕ
  pub key : Bytes
  pub value : Bytes
  pub op : ℕ

abbrev pub put_op : ℕ
put_op = 0

abbrev pub del_op : ℕ
del_op = 1

abbrev pub invalid_lsn : ℕ
invalid_lsn = 2 ^ 64 - 1

-- The constructor with four arguments.
abbrev pub log : ℕ → ℕ → Bytes → Bytes → Log
log l o k v = record { lsn = l; size = 28 + length k + length v; key = k; value = v; op = o }

-- The default constructor leaves `op` as it is in memory: `junk`.
abbrev pub default_log : ℕ → Log
default_log junk = record { lsn = invalid_lsn; size = 0; key = []; value = []; op = junk }

abbrev pub is_valid : Log → Bool
is_valid l = not (l.lsn == invalid_lsn)

abbrev pub reset : Log → Log
reset l = record l { lsn = invalid_lsn }

unfoldable pub encode : Log → Bytes
encode l =
    uint64_to_str l.lsn
    ++ (int_to_str l.op
        ++ (uint64_to_str (length l.key) ++ (l.key ++ (uint64_to_str (length l.value) ++ l.value))))

infixl 5 ◌>>=◌
abbrev pub ◌>>=◌ : {A B : Type 0} → Option A → (A → Option B) → Option B
none >>= f = none
some a >>= f = f a

-- `none`: a read past the end of the text, or the exception of `substr`. The eight bytes that are
-- read for the operation are cut to the four of the enumeration.
unfoldable pub decode : Bytes → Option Log
decode bytes = do
  lsn ← str_to_uint64 bytes 0
  op ← str_to_uint64 bytes 8
  size1 ← str_to_uint64 bytes 12
  size2 ← str_to_uint64 bytes (20 + size1)
  some (record {
    lsn = lsn;
    size = size1 + size2 + 4 + 24;
    key = take size1 (drop 20 bytes);
    value = take size2 (drop (28 + size1) bytes);
    op = op % 2 ^ 32;
  })

-- `Write(fd)` appends this to the file.
unfoldable pub write : Log → Bytes
write l = uint64_to_str (l.size + 8) ++ take l.size (encode l)

-- The buffer of `Read(fd, readed)`: `none` where `readed` is below 8, so that the size of the buffer
-- wraps, and where the file ends before the buffer is full.
abbrev pub read_buf : Bytes → ℕ → Option Bytes
read_buf rest readed =
    if ltb readed 8
    then none
    else if ltb (length rest) (readed - 8)
    then none
    else some (take (readed - 8) rest)

abbrev pub assert_size : Log → ℕ → Bytes → Option (Log × ℕ × Bytes)
assert_size l readed rest =
    if l.size == readed - 8 then some (l, readed, drop (readed - 8) rest) else none

-- `Read(fd, readed)`: the record, the bytes that it took, and the file from there on.
unfoldable pub read : Bytes → Option (Log × ℕ × Bytes)
read file = do
  readed ← str_to_uint64 file 0
  buf ← read_buf (drop 8 file) readed
  l ← decode buf
  assert_size l readed (drop 8 file)

-- `operator<`: by key, and for one key the newest first.
unfoldable pub log_lt : Log → Log → Bool
log_lt left right =
    if bytes_lt left.key right.key
    then true
    else if bytes_lt right.key left.key
    then false
    else ltb right.lsn left.lsn
