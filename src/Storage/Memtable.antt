-- ===== src/Storage/Memtable.antt =====
-- The memtable and the table manager: src/storage/memtable/memtable.cc, src/storage/sstable/sst_mgr.cc
-- and src/storage/sstable/flusher.cc. Each operation holds the object's mutex, so it is one step.
-- A `std::set<Log>` is the list of its elements in their order.
pub mod Add
pub mod Restart
mod Examples
use ctgfs.Prelude.{
  ℕ, zero, suc, ◌+◌, ◌/◌, ◌%◌, ◌^◌, Bool, true, false, Option, none, some, List, [], ◌∷◌, ◌++◌,
  length, ltb, if◌then◌else◌,
}
use ctgfs.Prelude.Bytes.{Bytes}
use ctgfs.Storage.Log.{Log, log_lt, ◌>>=◌}
use ctgfs.Storage.Sst.{Files, Sst, init, append_all, flush, recover}

-- `std::set<Log>::insert`: an element that is equivalent to one of the set is not inserted.
unfoldable pub insert : Log → List Log → List Log
insert l [] = l ∷ []
insert l (x ∷ xs) =
    if log_lt l x then l ∷ x ∷ xs else if log_lt x l then x ∷ insert l xs else x ∷ xs

abbrev pub last? : List Log → Option Log
last? [] = none
last? (x ∷ []) = some x
last? (x ∷ y ∷ ys) = last? (y ∷ ys)

pub record SstMgr : Type 0 where
  pub id : ℕ
  pub ssts : List Sst

abbrev hex_digit : ℕ → ℕ
hex_digit d = if ltb d 10 then 48 + d else 87 + d

-- `%lx`, on fuel: 16 digits are enough for 64 bits.
hex : ℕ → ℕ → Bytes → Bytes
hex zero x acc = acc
hex (suc fuel) x acc =
    let rest = hex fuel (x / 16) (hex_digit (x % 16) ∷ acc) in
    if ltb x 16 then hex_digit x ∷ acc else rest

-- "CtgSST.0x" and the number: the name that `nextFileName` gives for `id_`.
unfoldable pub file_name : ℕ → Bytes
unfolding hex
file_name id = 67 ∷ 116 ∷ 103 ∷ 83 ∷ 83 ∷ 84 ∷ 46 ∷ 48 ∷ 120 ∷ hex 16 id []

-- `SSTMgr::Flush` with `SSTFlusher::Flush`, whose loop appends what the iterator yields.
abbrev pub record_flush : Files → SstMgr → Sst → Option Files → Bool × Files × SstMgr
record_flush fs mgr sst none = (false, fs, mgr)
record_flush fs mgr sst (some fs') = (true, fs', record mgr { ssts = mgr.ssts ++ sst ∷ [] })

unfoldable pub mgr_flush : Files → SstMgr → List Log → Log → Bool × Files × SstMgr
mgr_flush fs mgr logs last_log =
    let id = (mgr.id + 1) % 2 ^ 64 in
    let sst = append_all (init (file_name id) last_log) logs in
    record_flush fs (record mgr { id = id }) sst (flush fs sst)

abbrev pub cons_sst : Sst → Option (List Sst) → Option (List Sst)
cons_sst s none = none
cons_sst s (some ss) = some (s ∷ ss)

unfoldable pub recover_all : Files → List Bytes → Option (List Sst)
recover_all fs [] = some []
recover_all fs (f ∷ names) = do s ← recover fs f; cons_sst s (recover_all fs names)

-- `SSTMgr::Init`, for the names that the directory lists. `none` is the status Corruption.
unfoldable pub mgr_init : Files → List Bytes → Option SstMgr
mgr_init fs names = do ssts ← recover_all fs names; some (record { id = 0; ssts = ssts })

pub record Memtable : Type 0 where
  pub data_size : ℕ
  pub max_size : ℕ
  pub mem_map : List Log
  pub i_mem_map : Option (List Log)
  pub sst_mgr : SstMgr

abbrev freeze_done : Memtable → List Log → Bool × Files × SstMgr → Bool × Files × Memtable
freeze_done m frozen (true, fs, mgr) = (true, fs, record m { i_mem_map = none; sst_mgr = mgr })
freeze_done m frozen (false, fs, mgr) =
    (false, fs, record m { i_mem_map = some frozen; sst_mgr = mgr })

-- `none`: the last element of an empty set is read.
unfoldable pub minor_freeze : Files → Memtable → Option (Bool × Files × Memtable)
minor_freeze fs m = do
  last_log ← last? m.mem_map
  some (
      freeze_done (record m { mem_map = []; data_size = 0 }) m.mem_map
        (mgr_flush fs m.sst_mgr m.mem_map last_log))

abbrev with_log : Memtable → Log → Memtable
with_log m l = record m {
  mem_map = insert l m.mem_map;
  data_size = (m.data_size + l.size) % 2 ^ 64;
}

unfoldable pub add : Files → Memtable → Log → Option (Bool × Files × Memtable)
add fs m l =
    if ltb m.max_size m.data_size
    then minor_freeze fs m
    else if ltb m.max_size ((m.data_size + l.size) % 2 ^ 64)
    then minor_freeze fs (with_log m l)
    else some (true, fs, with_log m l)
