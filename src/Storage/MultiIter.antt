-- ===== src/Storage/MultiIter.antt =====
-- Merged iteration: src/storage/multi_iter.cc. An iterator is the list of the records that it has left,
-- and its `Next` succeeds while there are some.
pub mod Least
mod Examples
use ctgfs.Prelude.{
  ℕ, Bool, true, false, Option, none, some, List, [], ◌∷◌, map, if◌then◌else◌, ◌&&◌, ◌||◌, ltb, leb,
  ◌==◌, not,
}
use ctgfs.Prelude.Bytes.{Bytes, bytes_eq, bytes_lt}
use ctgfs.Storage.Log.{Log, is_valid, reset, log_lt}

-- `logs_[i]` and `iters_[i]`.
pub record Slot : Type 0 where
  pub log : Log
  pub iter : List Log

-- The constructor: the first record of each iterator, or one that is not valid.
abbrev first_log : Log → List Log → Slot
first_log junk [] = record { log = reset junk; iter = [] }
first_log junk (l ∷ ls) = record { log = l; iter = ls }

unfoldable pub multi_iter : Log → List (List Log) → List Slot
multi_iter junk [] = []
multi_iter junk (ls ∷ iters) = first_log junk ls ∷ multi_iter junk iters

unfoldable pub has_next : List Slot → Bool
has_next [] = false
has_next (s ∷ slots) = is_valid s.log || has_next slots

-- One round of the loop that chooses, with the record chosen so far.
unfoldable pub pick : Log → Log → Log
pick l c =
    if bytes_eq l.key c.key
    then if log_lt l c then l else c
    else if bytes_lt l.key c.key
    then l
    else c

abbrev pub better : Log → Option Log → Option Log
better l none = some l
better l (some c) = some (pick l c)

unfoldable pub choose : List Slot → Option Log → Option Log
choose [] c = c
choose (s ∷ slots) c = choose slots (if is_valid s.log then better s.log c else c)

-- The inner loop: the iterator goes on while its record has the chosen key.
unfoldable pub skip : Bytes → Log → List Log → Slot
skip key l [] =
    if is_valid l && bytes_eq l.key key
    then record { log = reset l; iter = [] }
    else record { log = l; iter = [] }
skip key l (x ∷ ls) =
    let rest = skip key x ls in
    if is_valid l && bytes_eq l.key key then rest else record { log = l; iter = x ∷ ls }

unfoldable pub skip_all : Bytes → List Slot → List Slot
skip_all key [] = []
skip_all key (s ∷ slots) = skip key s.log s.iter ∷ skip_all key slots

abbrev next_of : List Slot → Option Log → Option (Log × List Slot)
next_of slots none = none
next_of slots (some c) = some (c, skip_all c.key slots)

-- `none` is the status InvalidArgument.
unfoldable pub next : List Slot → Option (Log × List Slot)
next slots = next_of slots (choose slots none)
