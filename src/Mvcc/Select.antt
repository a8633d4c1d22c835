-- ===== src/Mvcc/Select.antt =====
-- `Insert` and then `Select` of src/mvcc/mvcc.cc.
use ctgfs.Prelude.{
  ℕ, suc, ◌+◌, ◌^◌, ◌<◌, ◌≡◌, refl, ap, ◌∙◌, true, some, [], ◌∷◌, ◌++◌, arith, length,
  length-append, get_elem?, take, take-append, leb, if◌then◌else◌,
}
use ctgfs.Prelude.Bytes.{Bytes, bytes_eq_refl}
use ctgfs.Mvcc.{
  missing, found, put, matches, query, ts_to_str, str_to_ts, search_loop, search_version, count,
  after_first, after_last, gather, insert, select,
}

get_elem?-middle : (s t : Bytes) (b : ℕ) → get_elem? (s ++ b ∷ t) (length s) ≡ some b
get_elem?-middle [] t b = refl
get_elem?-middle (x ∷ s) t b = get_elem?-middle s t b

pub count-append : (c : ℕ) (s t : Bytes) → count c (s ++ t) ≡ count c s + count c t
unfolding count
count-append c [] t = omega arith
count-append c (b ∷ s) t = ground (arith, count-append c s t)

count-middle : (c : ℕ) (s t : Bytes) → count c (s ++ c ∷ t) ≡ count c s + suc (count c t)
unfolding count
count-middle c s t = ground (arith, count-append c s (c ∷ t))

after_last-middle : (c : ℕ) (s t : Bytes) → count c t ≡ 0 → after_last c (s ++ c ∷ t) ≡ t
unfolding after_last count
after_last-middle c [] t h = ground arith
after_last-middle c (b ∷ s) t h = ground (arith, after_last-middle c s t, count-middle c s t)

after_first-middle : (c : ℕ) (s t : Bytes) → count c s ≡ 0 → after_first c (s ++ c ∷ t) ≡ t
unfolding after_first count
after_first-middle c [] t h = ground arith
after_first-middle c (b ∷ s) t h = ground (arith, after_first-middle c s t)

str_to_ts-ts_to_str : (t : ℕ) → t < 2 ^ 31 → str_to_ts (ts_to_str t) ≡ some t
unfolding str_to_ts
str_to_ts-ts_to_str t h = ap some (omega arith)

matches-key : (raw s : Bytes) → 0 < length s → matches raw (raw ++ 95 ∷ s) ≡ true
matches-key raw s h = ground (
  arith,
  take-append raw (95 ∷ s) (length raw) refl,
  bytes_eq_refl raw,
  get_elem?-middle raw s 95,
  length-append raw (95 ∷ s),
)

select-insert :
    (raw value : Bytes) (t ts : ℕ)
    → select raw ts (insert raw value t [])
      ≡ gather
          (record { timestamps = []; values = []; deleted = [] })
          ts
          ((raw ++ 95 ∷ ts_to_str t, value) ∷ [])
unfolding select insert query put
select-insert raw value t ts = rw (matches-key raw (ts_to_str t) (omega arith)) refl

-- The one version of a key, inserted into an empty map, is found from its timestamp on, and not before
-- it, where the key has no `_`, and the timestamp is below 2 ^ 31 and has no byte 95.
pub select_inserted :
    (raw value : Bytes) (t ts : ℕ)
    → count 95 raw ≡ 0
    → count 95 (ts_to_str t) ≡ 0
    → t < 2 ^ 31
    → select raw ts (insert raw value t []) ≡ (if leb t ts then found value else missing)
unfolding gather search_version search_loop
select_inserted raw value t ts h k small =
    select-insert raw value t ts
    ∙ rw (gather, once, after_last-middle 95 raw (ts_to_str t) k, str_to_ts-ts_to_str t small)
        (ground arith)
  where
    once : count 95 (raw ++ 95 ∷ ts_to_str t) ≡ 1
    once = omega (arith, count-middle 95 raw (ts_to_str t))

-- A timestamp with one byte 95 reads as a deletion: a value that is inserted at it into an empty map
-- is not found at any time, where the key has no `_` and the timestamp is below 2 ^ 31.
pub select_lost :
    (raw value : Bytes) (t ts : ℕ)
    → count 95 raw ≡ 0
    → count 95 (ts_to_str t) ≡ 1
    → t < 2 ^ 31
    → select raw ts (insert raw value t []) ≡ missing
unfolding gather search_version search_loop
select_lost raw value t ts h k small =
    select-insert raw value t ts ∙ rw (gather, twice, twice, first_four) (ground arith)
  where
    twice : count 95 (raw ++ 95 ∷ ts_to_str t) ≡ 2
    twice = omega (arith, count-middle 95 raw (ts_to_str t))

    first_four : str_to_ts (take 4 (after_first 95 (raw ++ 95 ∷ ts_to_str t))) ≡ some t
    first_four =
        ap (λ s. str_to_ts (take 4 s)) (after_first-middle 95 raw (ts_to_str t) h)
        ∙ str_to_ts-ts_to_str t small
