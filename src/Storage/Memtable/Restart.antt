-- ===== src/Storage/Memtable/Restart.antt =====
-- The file names that the table manager gives after a restart: `SSTMgr::Init` of
-- src/storage/sstable/sst_mgr.cc.
use ctgfs.Prelude.{◌+◌, ◌≡◌, refl, ap, true, some, List, [], ◌∷◌, ◌++◌, arith, length, drop}
use mathlib.Core.List.{append_assoc}
use ctgfs.Prelude.Bytes.{Bytes, bytes_eq_refl}
use ctgfs.Storage.Codec.{uint64_to_str}
use ctgfs.Storage.Log.{Log}
use ctgfs.Storage.Sst.{Files, SstMeta, meta_size, meta_bytes, contents, store, init, flush, recover}
use ctgfs.Storage.Sst.Meta.{MetaIsSound, write_meta-total, read-head}
use ctgfs.Storage.Sst.Scan.{built, region, filename-append_all, buf-append_all}
use ctgfs.Storage.Memtable.{SstMgr, file_name, mgr_flush, recover_all, mgr_init}

-- Flushing a table over whatever the file has: recovery finds the head of the new table.
flush_over :
    (fs : Files) (name : Bytes) (last : Log) (ls : List Log)
    → MetaIsSound (built name last ls).meta
    → (fs' : Files) × (flush fs (built name last ls) ≡ some fs')
      × (recover fs' name
          ≡ some (record { filename = name; meta = (built name last ls).meta; buf = [] }))
unfolding flush recover init
flush_over fs name last ls sound = (
  store fs name file,
  ground (arith, written, named, write_meta-total m sound.last_sound),
  ground (arith, found, read-head m (region ls ++ rest) sound),
)
  where
    m : SstMeta
    m = (built name last ls).meta

    head : Bytes
    head = uint64_to_str (meta_size m + 8) ++ meta_bytes m

    file : Bytes
    file = head ++ region ls

    rest : Bytes
    rest = drop (length file) (contents (fs name))

    named : (built name last ls).filename ≡ name
    named = filename-append_all (init name last) ls

    written : (built name last ls).buf ≡ region ls
    written = buf-append_all (init name last) ls

    found : store fs name file name ≡ some (head ++ (region ls ++ rest))
    found = rw (bytes_eq_refl name) (ap some (append_assoc head (region ls) rest))

-- After a restart on a directory whose one file recovers as the first table, the manager numbers from the start: the next
-- flush takes the name of that table, succeeds, and writes over it, so that both entries of the
-- manager name one file, and recovery from that file finds the head of the second table, where its head is sound (its numbers
-- fit their fields).
pub flush_after_restart :
    (fs : Files) (old : SstMeta) (last : Log) (ls : List Log)
    → recover fs (file_name 1) ≡ some (record { filename = file_name 1; meta = old; buf = [] })
    → MetaIsSound (built (file_name 1) last ls).meta
    → (mgr mgr' : SstMgr) × (fs' : Files) × (mgr_init fs (file_name 1 ∷ []) ≡ some mgr)
      × (mgr_flush fs mgr ls last ≡ (true, fs', mgr'))
      × (mgr'.ssts
          ≡ record { filename = file_name 1; meta = old; buf = [] }
            ∷ built (file_name 1) last ls
            ∷ [])
      × (recover fs' (file_name 1)
          ≡ some (record {
            filename = file_name 1;
            meta = (built (file_name 1) last ls).meta;
            buf = [];
          }))
unfolding mgr_init recover_all mgr_flush
flush_after_restart fs old last ls h sound =
    let (fs', written, recovered) = flush_over fs (file_name 1) last ls sound in
    (
      record { id = 0; ssts = record { filename = file_name 1; meta = old; buf = [] } ∷ [] },
      record {
        id = 1;
        ssts =
            record { filename = file_name 1; meta = old; buf = [] }
            ∷ built (file_name 1) last ls
            ∷ [];
      },
      fs',
      rw h refl,
      rw written refl,
      refl,
      recovered,
    )
