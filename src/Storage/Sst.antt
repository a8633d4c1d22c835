-- ===== src/Storage/Sst.antt =====
-- Sorted string tables: `SSTMeta`, `SStable` and `SSTIterator` of src/storage/sstable.
-- The directory is a function from file names to contents. Calls of the operating system succeed,
-- but for opening a file that is not there.
pub mod Meta
pub mod Scan
mod Examples
use ctgfs.Prelude.{
  ℕ, zero, suc, ◌+◌, ◌-◌, ◌%◌, ◌^◌, ◌≡◌, Bool, true, false, Option, none, some, List, [], ◌∷◌, ◌++◌,
  length, take, drop, ltb, leb, ◌==◌, if◌then◌else◌,
}
use ctgfs.Prelude.Bytes.{Bytes, bytes_eq}
use ctgfs.Storage.Codec.{uint64_to_str, str_to_uint64}
use ctgfs.Storage.Log.{Log, encode, decode, read_buf, ◌>>=◌}
use ctgfs.Storage.Log as Log

pub record SstMeta : Type 0 where
  pub last_log : Log
  pub data_offset : ℕ
  pub data_size : ℕ

abbrev pub meta_size : SstMeta → ℕ
meta_size m = m.last_log.size + 16

abbrev pub meta_bytes : SstMeta → Bytes
meta_bytes m = encode m.last_log ++ (uint64_to_str m.data_offset ++ uint64_to_str m.data_size)

-- `SSTMeta::Encode`; `none` is the status Corruption.
unfoldable pub encode_meta : SstMeta → Option Bytes
encode_meta m = let b = meta_bytes m in if length b == meta_size m then some b else none

unfoldable pub decode_meta : Bytes → Option SstMeta
decode_meta meta = do
  l ← decode meta
  offset ← str_to_uint64 meta l.size
  size ← str_to_uint64 meta (l.size + 8)
  some (record { last_log = l; data_offset = offset; data_size = size })

-- `SSTMeta::Write`
unfoldable pub write_meta : SstMeta → Option Bytes
write_meta m = do b ← encode_meta m; some (uint64_to_str (meta_size m + 8) ++ take (meta_size m) b)

abbrev pub assert_meta_size : SstMeta → ℕ → Option SstMeta
assert_meta_size m readed = if meta_size m == readed - 8 then some m else none

-- `SSTMeta::Read`, with the buffer of `Log::Read`.
unfoldable pub read_meta : Bytes → Option SstMeta
read_meta file = do
  readed ← str_to_uint64 file 0
  buf ← read_buf (drop 8 file) readed
  m ← decode_meta buf
  assert_meta_size m readed

pub record Sst : Type 0 where
  pub filename : Bytes
  pub meta : SstMeta
  pub buf : Bytes

-- `SStable::Init` of a new table, whose `data_size_` the constructor has set to 0.
unfoldable pub init : Bytes → Log → Sst
init name last = record {
  filename = name;
  meta = record { last_log = last; data_offset = (last.size + 16 + 8) % 2 ^ 64; data_size = 0 };
  buf = [];
}

unfoldable pub append : Sst → Log → Sst
append s l =
    let tmp = encode l in
    record s {
      meta = record s.meta { data_size = (s.meta.data_size + length tmp) % 2 ^ 64 };
      buf = s.buf ++ (uint64_to_str (length tmp + 8) ++ tmp);
    }

unfoldable pub append_all : Sst → List Log → Sst
append_all s [] = s
append_all s (l ∷ ls) = append_all (append s l) ls

abbrev pub Files : Type 0
Files = Bytes → Option Bytes

abbrev pub contents : Option Bytes → Bytes
contents none = []
contents (some b) = b

-- Writing from the start of a file that is opened without O_TRUNC: what the new bytes do not reach
-- stays.
abbrev pub overwrite : Bytes → Bytes → Bytes
overwrite old b = b ++ drop (length b) old

abbrev pub store : Files → Bytes → Bytes → Files
store fs name b other =
    if bytes_eq name other then some (overwrite (contents (fs name)) b) else fs other

-- `SStable::Flush`; `none` is the status Corruption.
unfoldable pub flush : Files → Sst → Option Files
flush fs s = do m ← write_meta s.meta; some (store fs s.filename (m ++ s.buf))

-- `SStable::Recover`
unfoldable pub recover : Files → Bytes → Option Sst
recover fs name = do
  file ← fs name
  m ← read_meta file
  some (record { filename = name; meta = m; buf = [] })

-- The file behind `fd_` is `file`; `pos_` is also the position of `fd_`.
pub record Iter : Type 0 where
  pub file : Bytes
  pub pos : ℕ
  pub size : ℕ

-- `SStable::CreateIterator` with `SSTIterator::Init`
unfoldable pub create_iterator : Files → Sst → Option Iter
create_iterator fs s = do
  file ← fs s.filename
  some (record { file = file; pos = s.meta.data_offset; size = length file })

unfoldable pub has_next : Iter → Bool
has_next it = if leb it.size it.pos then false else true

abbrev pub advance : Iter → Log × ℕ × Bytes → Log × Iter
advance it (l, readed, rest) = (l, record it { pos = it.pos + readed })

abbrev pub read_next : Iter → Option (Log × ℕ × Bytes) → Option (Log × Iter)
read_next it none = none
read_next it (some r) = some (advance it r)

-- `SSTIterator::Next`
unfoldable pub next : Iter → Option (Log × Iter)
unfolding has_next
next it = if has_next it then read_next it (Log.read (drop it.pos it.file)) else none

abbrev pub cons_result : Log → Option (List Log) → Option (List Log)
cons_result l none = none
cons_result l (some ls) = some (l ∷ ls)

-- `while (iter.HasNext()) iter.Next(log)`, on fuel.
unfoldable pub drain : ℕ → Iter → Option (List Log)
drain zero it = none
drain (suc fuel) it = elim (has_next it) [
  | false ↦ some []
  | true ↦ elim (next it) [ none ↦ none | some (l, it') ↦ cons_result l (drain fuel it') ]
]
