-- ===== src/Storage/Memtable/Examples.antt =====
-- A memtable of one record, with room for a second and without, and a restart over one table.
use ctgfs.Prelude.{ℕ, ◌≡◌, sym, ◌⊎◌, refl, true, none, some, [], ◌∷◌, ◌++◌, arith}
use mathlib.Core.Option.{some-injective}
use ctgfs.Prelude.Bytes.{bytes_lt, bytes_eq}
use ctgfs.Storage.Log.{Log, log, put_op, encode, decode, log_lt}
use ctgfs.Storage.Codec.{le_bytes, le_read, uint64_to_str, int_to_str, str_to_uint64}
use ctgfs.Storage.Sst.{
  Files, Sst, SstMeta, init, append, append_all, recover, store, meta_bytes, read_meta, decode_meta,
}
use ctgfs.Storage.Sst.Scan.{built}
use ctgfs.Storage.Memtable.{SstMgr, Memtable, insert, hex, file_name, mgr_init, mgr_flush, add}
use ctgfs.Storage.Memtable.Add.{IsReady, Kept, Frozen, add_keeps}
use ctgfs.Storage.Memtable.Restart.{flush_after_restart}

abbrev first : Log
first = log 7 put_op (107 ∷ 121 ∷ []) (97 ∷ [])

abbrev second : Log
second = log 10 put_op (107 ∷ 101 ∷ []) (118 ∷ [])

abbrev nothing : Files
nothing name = none

abbrev with_first : ℕ → Memtable
with_first max = record {
  data_size = 31;
  max_size = max;
  mem_map = first ∷ [];
  i_mem_map = none;
  sst_mgr = record { id = 0; ssts = [] };
}

first_name : file_name 1 ≡ 67 ∷ 116 ∷ 103 ∷ 83 ∷ 83 ∷ 84 ∷ 46 ∷ 48 ∷ 120 ∷ 49 ∷ []
unfolding file_name hex
first_name = refl

add_keeps_example :
    (fs' : Files) × (m' : Memtable) × (add nothing (with_first 40) second ≡ some (true, fs', m'))
    × IsReady m'
    × (Kept nothing fs' (with_first 40) m' second ⊎ Frozen fs' (with_first 40) m' second)
unfolding insert log_lt bytes_lt init append_all append encode uint64_to_str int_to_str le_bytes
add_keeps_example =
    add_keeps nothing (with_first 40) second (record { within = omega arith; sorted = tt })
      (record {
        is_new = (λ h. absurd (ground arith), tt);
        no_wrap = omega arith;
        name_free = refl;
        records_fit = omega arith;
        head_fits = λ e h. rw (sym (some-injective _ _ h)) (omega arith);
      })

abbrev table : Sst
table = built (file_name 1) first (first ∷ [])

abbrev one_table : Files
one_table = store nothing (file_name 1) (uint64_to_str 55 ++ (meta_bytes table.meta ++ table.buf))

abbrev recovered : SstMeta → Sst
recovered m = record { filename = file_name 1; meta = m; buf = [] }

flush_after_restart_example :
    (mgr mgr' : SstMgr) × (fs' : Files) × (mgr_init one_table (file_name 1 ∷ []) ≡ some mgr)
    × (mgr_flush one_table mgr (second ∷ []) second ≡ (true, fs', mgr'))
    × (mgr'.ssts ≡ recovered table.meta ∷ built (file_name 1) second (second ∷ []) ∷ [])
    × (recover fs' (file_name 1) ≡ some (recovered (built (file_name 1) second (second ∷ [])).meta))
unfolding recover read_meta decode_meta decode init append_all append encode uint64_to_str
    int_to_str le_bytes str_to_uint64 le_read bytes_eq file_name
flush_after_restart_example =
    flush_after_restart one_table table.meta second (second ∷ []) refl (omega arith)
