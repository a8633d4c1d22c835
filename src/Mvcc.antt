-- ===== src/Mvcc.antt =====
-- Versioned values over a key-value map: src/mvcc/mvcc.cc over src/kv/mock_kv.cc. A timestamp is a
-- non-negative `int`. A `std::map<std::string, std::string>` is the list of its entries in the order
-- of the keys.
pub mod Search
pub mod Select
mod Examples
use ctgfs.Prelude.{
  ℕ, zero, suc, ◌+◌, ◌-◌, ◌*◌, ◌/◌, ◌%◌, ◌^◌, Bool, true, false, Option, none, some, List, [], ◌∷◌,
  ◌++◌, length, get_elem?, take, drop, ltb, leb, ◌==◌, if◌then◌else◌, not, ◌&&◌, ◌||◌,
}
use ctgfs.Prelude.Bytes.{Bytes, bytes_eq, bytes_lt}

abbrev pub Map : Type 0
Map = List (Bytes × Bytes)

-- `kvs_[key] = value`
unfoldable pub put : Bytes → Bytes → Map → Map
put k v [] = (k, v) ∷ []
put k v ((k', v') ∷ m) =
    if bytes_eq k k'
    then (k, v) ∷ m
    else if bytes_lt k k'
    then (k, v) ∷ (k', v') ∷ m
    else (k', v') ∷ put k v m

-- `MockKV::Get`
unfoldable pub get : Bytes → Map → Option Bytes
get k [] = none
get k ((k', v') ∷ m) = if bytes_eq k k' then some v' else get k m

abbrev byte_is : Option ℕ → ℕ → Bool
byte_is none c = false
byte_is (some b) c = b == c

abbrev pub matches : Bytes → Bytes → Bool
matches key k =
    ltb (length key + 1) (length k)
    && (bytes_eq key (take (length key) k) && byte_is (get_elem? k (length key)) 95)

-- `MockKV::Query`
unfoldable pub query : Bytes → Map → Map
query key [] = []
query key ((k, v) ∷ m) = if matches key k then (k, v) ∷ query key m else query key m

-- `ts_to_str`: the four bytes of an `int`, the lowest first.
abbrev pub ts_to_str : ℕ → Bytes
ts_to_str t = t % 256 ∷ (t / 256) % 256 ∷ (t / 65536) % 256 ∷ (t / 16777216) % 256 ∷ []

abbrev str_to_ts_4 : Option ℕ → Option ℕ → Option ℕ → Option ℕ → Option ℕ
str_to_ts_4 (some a) (some b) (some c) (some d) = some (a + 256 * b + 65536 * c + 16777216 * d)
str_to_ts_4 _ _ _ _ = none

-- `none`: bytes behind the end of the string are read.
unfoldable pub str_to_ts : Bytes → Option ℕ
str_to_ts s = str_to_ts_4 (get_elem? s 0) (get_elem? s 1) (get_elem? s 2) (get_elem? s 3)

-- A timestamp and the index of its value.
abbrev pub Versions : Type 0
Versions = List (ℕ × ℕ)

-- The loop of `search_version`, on fuel: `hi` is `ub` + 1, and `none` for `ret` is -1. The sum of the indices
-- is an `int`: where it overflows, on more than 2^30 versions, the loop ends here.
unfoldable pub search_loop : ℕ → Versions → ℕ → ℕ → ℕ → Option ℕ → Option ℕ
search_loop zero vec key lb hi ret = ret
search_loop (suc fuel) vec key lb hi ret =
    let mid = (lb + (hi - 1)) / 2 in
    elim (ltb lb hi && ltb (lb + (hi - 1)) (2 ^ 31)) [
      | false ↦ ret
      | true ↦ elim (get_elem? vec mid) [
        | none ↦ ret
        | some v ↦ elim (leb v.0 key) [
          | true ↦ search_loop fuel vec key (suc mid) hi (some mid)
          | false ↦ search_loop fuel vec key lb mid ret
        ]
      ]
    ]

unfoldable pub search_version : Versions → ℕ → Option ℕ
search_version vec key = search_loop (length vec) vec key 0 (length vec) none

unfoldable pub count : ℕ → Bytes → ℕ
count c [] = 0
count c (b ∷ s) = if b == c then suc (count c s) else count c s

-- What stands behind the first byte `c`, and behind the last one.
unfoldable pub after_first : ℕ → Bytes → Bytes
after_first c [] = []
after_first c (b ∷ s) = if b == c then s else after_first c s

unfoldable pub after_last : ℕ → Bytes → Bytes
after_last c [] = []
after_last c (b ∷ s) =
    if count c s == 0 then (if b == c then s else after_last c s) else after_last c s

-- The three collections that the loop of `Select` fills.
pub record Gathered : Type 0 where
  pub timestamps : Versions
  pub values : List Bytes
  pub deleted : List ℕ

abbrev pub nothing_gathered : Gathered
nothing_gathered = record { timestamps = []; values = []; deleted = [] }

abbrev version : Gathered → ℕ → Bytes → Gathered
version g t v = record g {
  timestamps = g.timestamps ++ (t, length g.values) ∷ [];
  values = g.values ++ v ∷ [];
}

abbrev gather_version : Gathered → Option ℕ → Bytes → Option Gathered
gather_version g none v = none
gather_version g (some t) v = some (version g t v)

abbrev gather_deletion : Gathered → Option ℕ → Bytes → Option Gathered
gather_deletion g none v = none
gather_deletion g (some t) v = some (record (version g t v) { deleted = t ∷ g.deleted })

-- `undefined`: bytes behind the end of a string are read. `missing` is the answer false.
pub data Selected : Type 0 where
  undefined : Selected
  missing : Selected
  found : Bytes → Selected

abbrev is_in : ℕ → List ℕ → Bool
is_in t [] = false
is_in t (x ∷ xs) = (t == x) || is_in t xs

abbrev value_at : Option Bytes → Selected
value_at none = undefined
value_at (some v) = found v

abbrev chosen : Gathered → Option (ℕ × ℕ) → Selected
chosen g none = undefined
chosen g (some v) = if is_in v.0 g.deleted then missing else value_at (get_elem? g.values v.1)

abbrev choose : Gathered → Option ℕ → Selected
choose g none = missing
choose g (some idx) = chosen g (get_elem? g.timestamps idx)

unfoldable pub gather : Gathered → ℕ → Map → Selected
gather g ts [] = choose g (search_version g.timestamps ts)
gather g ts ((k, v) ∷ m) =
    let times = count 95 k in
    elim (times == 1) [
      | true ↦ elim (gather_version g (str_to_ts (after_last 95 k)) v) [
        | none ↦ undefined
        | some g' ↦ gather g' ts m
      ]
      | false ↦ elim (times == 2) [
        | false ↦ missing
        | true ↦ elim (gather_deletion g (str_to_ts (take 4 (after_first 95 k))) v) [
          | none ↦ undefined
          | some g' ↦ gather g' ts m
        ]
      ]
    ]

-- `SimpleMVCC::Insert`
unfoldable pub insert : Bytes → Bytes → ℕ → Map → Map
insert raw value ts kv = put (raw ++ 95 ∷ ts_to_str ts) value kv

abbrev select_in : Map → ℕ → Selected
select_in [] ts = missing
select_in (e ∷ m) ts = gather nothing_gathered ts (e ∷ m)

-- `SimpleMVCC::Select`
unfoldable pub select : Bytes → ℕ → Map → Selected
select raw ts kv = select_in (query raw kv) ts

abbrev delete_in : Map → Bytes → ℕ → Map → Bool × Map
delete_in [] raw ts kv = (false, kv)
delete_in (e ∷ m) raw ts kv = (true, put (raw ++ 95 ∷ (ts_to_str ts ++ 95 ∷ 100 ∷ [])) [] kv)

-- `SimpleMVCC::Delete`
unfoldable pub delete : Bytes → ℕ → Map → Bool × Map
delete raw ts kv = delete_in (query raw kv) raw ts kv
