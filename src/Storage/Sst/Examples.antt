-- ===== src/Storage/Sst/Examples.antt =====
-- A table of two records.
use ctgfs.Prelude.{◌≡◌, refl, none, some, List, [], ◌∷◌, arith}
use ctgfs.Storage.Log.{Log, log, put_op, encode}
use ctgfs.Storage.Codec.{le_bytes, uint64_to_str, int_to_str}
use ctgfs.Storage.Sst.{
  Files, Iter, init, append, append_all, flush, recover, create_iterator, drain,
}
use ctgfs.Storage.Sst.Scan.{built, flush_scan}

abbrev first : Log
first = log 7 put_op (107 ∷ 101 ∷ []) (97 ∷ [])

abbrev last : Log
last = log 10 put_op (107 ∷ 121 ∷ []) (118 ∷ [])

abbrev nothing : Files
nothing name = none

abbrev records : List Log
records = first ∷ last ∷ []

flush_scan_example :
    (fs' : Files) × (flush nothing (built (116 ∷ []) last records) ≡ some fs')
    × ((it : Iter) × (create_iterator fs' (built (116 ∷ []) last records) ≡ some it)
        × (drain 3 it ≡ some records))
    × (recover fs' (116 ∷ [])
        ≡ some
            (record { filename = 116 ∷ []; meta = (built (116 ∷ []) last records).meta; buf = [] }))
unfolding init append_all append encode uint64_to_str int_to_str le_bytes
flush_scan_example = flush_scan nothing (116 ∷ []) last records refl (omega arith) (omega arith)
