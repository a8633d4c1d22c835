-- ===== src/Mvcc/Examples.antt =====
-- Three versions, and a value that is inserted and selected.
use ctgfs.Prelude.{◌≡◌, refl, arith, some, [], ◌∷◌}
use ctgfs.Prelude.Bytes.{Bytes, bytes_eq, bytes_lt}
use ctgfs.Mvcc.{
  Versions, missing, found, put, query, count, search_loop, search_version, after_first, after_last,
  str_to_ts, gather, insert, select, delete,
}
use ctgfs.Mvcc.Select.{select_inserted, select_lost}

abbrev versions : Versions
versions = (1, 0) ∷ (3, 1) ∷ (7, 2) ∷ []

searched : search_version versions 6 ≡ some 1
unfolding search_version search_loop
searched = refl

abbrev name : Bytes
name = 97 ∷ []

abbrev value : Bytes
value = 118 ∷ []

deleted_then_missing :
    (select name 3 (insert name value 2 []) ≡ found value)
    × (select name 4 (delete name 4 (insert name value 2 [])).1 ≡ missing)
    × (select name 3 (delete name 4 (insert name value 2 [])).1 ≡ found value)
unfolding select insert delete put query gather count search_version search_loop after_first
    after_last str_to_ts bytes_eq bytes_lt
deleted_then_missing = (refl, refl, refl)

-- The map orders 256 before 1, so the search does not find the later version.
byte_order : select name 256 (insert name (2 ∷ []) 256 (insert name (1 ∷ []) 1 [])) ≡ found (1 ∷ [])
unfolding select insert delete put query gather count search_version search_loop after_first
    after_last str_to_ts bytes_eq bytes_lt
byte_order = refl

select_inserted_example : select name 5 (insert name value 2 []) ≡ found value
unfolding count
select_inserted_example = select_inserted name value 2 5 refl refl (omega arith)

select_lost_example : select name 100 (insert name value 95 []) ≡ missing
unfolding count
select_lost_example = select_lost name value 95 100 refl refl (omega arith)
