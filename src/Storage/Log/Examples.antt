-- ===== src/Storage/Log/Examples.antt =====
-- A record on disk.
use ctgfs.Prelude.{◌<◌, ◌≡◌, ◌⊎◌, ◌↔◌, refl, some, true, false, [], ◌∷◌, ◌++◌, arith}
use ctgfs.Prelude.Bytes.{bytes_lt}
use ctgfs.Storage.Codec.{le_bytes, uint64_to_str, int_to_str}
use ctgfs.Storage.Log.{Log, log, put_op, encode, write, read, log_lt}
use ctgfs.Storage.Log.Decode.{read-write}
use ctgfs.Storage.Log.Order.{log_lt-IsOrder}

abbrev entry : Log
entry = log 7 put_op (107 ∷ 101 ∷ []) (97 ∷ [])

entry_bytes :
    encode entry
    ≡ 7 ∷ 0 ∷ 0 ∷ 0 ∷ 0 ∷ 0 ∷ 0 ∷ 0 ∷ 0 ∷ 0 ∷ 0 ∷ 0 ∷ 2 ∷ 0 ∷ 0 ∷ 0 ∷ 0 ∷ 0 ∷ 0 ∷ 0 ∷ 107 ∷ 101 ∷ 1
      ∷ 0 ∷ 0 ∷ 0 ∷ 0 ∷ 0 ∷ 0 ∷ 0 ∷ 97 ∷ []
unfolding encode uint64_to_str int_to_str le_bytes
entry_bytes = refl

read-write_example : read (write entry ++ 1 ∷ 2 ∷ []) ≡ some (entry, 39, 1 ∷ 2 ∷ [])
read-write_example = read-write entry (1 ∷ 2 ∷ []) (omega arith) (omega arith)

log_lt-IsOrder_example :
    let a = log 9 put_op (1 ∷ []) [] in
    let b = log 3 put_op (1 ∷ []) [] in
    let c = log 5 put_op (2 ∷ []) [] in
    ((log_lt a b ≡ true) ↔ ((bytes_lt a.key b.key ≡ true) ⊎ ((a.key ≡ b.key) × (b.lsn < a.lsn))))
    × (log_lt a a ≡ false)
    × (log_lt a b ≡ true → log_lt b c ≡ true → log_lt a c ≡ true)
    × ((log_lt a b ≡ true) ⊎ (log_lt b a ≡ true) ⊎ ((a.key ≡ b.key) × (a.lsn ≡ b.lsn)))
log_lt-IsOrder_example =
    log_lt-IsOrder (log 9 put_op (1 ∷ []) []) (log 3 put_op (1 ∷ []) []) (log 5 put_op (2 ∷ []) [])
