-- ===== src/Storage/MultiIter/Examples.antt =====
-- Two iterators with a common key.
use ctgfs.Prelude.{ℕ, ◌≡◌, refl, some, List, [], ◌∷◌, All}
use ctgfs.Prelude.Bytes.{bytes_eq, bytes_lt}
use ctgfs.Storage.Log.{Log, log, default_log, put_op, log_lt}
use ctgfs.Storage.MultiIter.{Slot, multi_iter, has_next, pick, choose, skip, skip_all, next}
use ctgfs.Storage.MultiIter.Least.{IsHead, AllDrop, IsLeast, IsPast, IsSorted, next_in_order}

abbrev record_of : ℕ → ℕ → Log
record_of lsn k = log lsn put_op (k ∷ []) []

abbrev slots : List Slot
slots =
    record { log = record_of 2 97; iter = record_of 3 98 ∷ [] }
    ∷ record { log = record_of 9 97; iter = record_of 4 97 ∷ [] }
    ∷ []

from_iterators :
    multi_iter
      (default_log 0)
      ((record_of 2 97 ∷ record_of 3 98 ∷ []) ∷ (record_of 9 97 ∷ record_of 4 97 ∷ []) ∷ [])
    ≡ slots
unfolding multi_iter
from_iterators = refl

newest_first :
    next slots
    ≡ some (
      record_of 9 97,
      record { log = record_of 3 98; iter = [] }
          ∷ record { log = record (record_of 4 97) { lsn = 18446744073709551615 }; iter = [] }
          ∷ [],
    )
unfolding next choose pick skip_all skip bytes_eq bytes_lt log_lt
newest_first = refl

next_in_order_example :
    (c : Log) × (slots' : List Slot) × (next slots ≡ some (c, slots'))
    × IsHead c slots
    × All (IsLeast c) slots
    × All (IsPast c.key) slots'
    × All IsSorted slots'
    × AllDrop c.key slots slots'
unfolding has_next log_lt bytes_lt
next_in_order_example = next_in_order slots ((refl, tt), ((refl, tt), tt)) refl
