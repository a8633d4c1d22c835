-- ===== src/Storage/Memtable/Add.antt =====
-- Adding a record to the memtable, with and without a freeze.
use ctgfs.Prelude.{
  suc, ◌+◌, ◌%◌, ◌^◌, ◌≤◌, ◌<◌, ◌≡◌, refl, ◌⊎◌, inl, inr, true, false, none, some, List, [], ◌∷◌,
  ◌++◌, arith, length, ltb, All, Bool-cases,
}
use ctgfs.Storage.Log.{Log, log_lt}
use ctgfs.Storage.Log.Order.{log_lt-total}
use ctgfs.Storage.Sst.{Files, Sst, Iter, create_iterator, drain}
use ctgfs.Storage.Sst.Meta.{MetaIsSound}
use ctgfs.Storage.Sst.Scan.{Fits, built, flush_scan}
use ctgfs.Storage.Memtable.{Memtable, insert, last?, file_name, mgr_flush, minor_freeze, add}

-- Strictly rising in the order of the set, from `l` on.
abbrev pub After : Log → List Log → Type 0
After l [] = Unit {0}
After l (x ∷ xs) = (log_lt l x ≡ true) × After x xs

abbrev pub IsSorted : List Log → Type 0
IsSorted [] = Unit {0}
IsSorted (x ∷ xs) = After x xs

insert-After : (a l : Log) (xs : List Log) → log_lt a l ≡ true → After a xs → After a (insert l xs)
unfolding insert
insert-After a l [] lt h = (lt, tt)
insert-After a l (x ∷ xs) lt h = ground (arith, insert-After x l xs)

pub insert-IsSorted : (l : Log) (xs : List Log) → IsSorted xs → IsSorted (insert l xs)
unfolding insert
insert-IsSorted l [] h = tt
insert-IsSorted l (x ∷ xs) h = ground (arith, insert-After x l xs)

last?-cons : (x : Log) (xs : List Log) → (e : Log) × (last? (x ∷ xs) ≡ some e)
last?-cons x [] = (x, refl)
last?-cons x (y ∷ ys) = last?-cons y ys

insert-last : (l : Log) (xs : List Log) → (e : Log) × (last? (insert l xs) ≡ some e)
unfolding insert
insert-last l [] = (l, refl)
insert-last l (x ∷ xs) = elim (Bool-cases (log_lt l x)) [
  | inl e ↦ rw e (last?-cons l (x ∷ xs))
  | inr e ↦ rw e (elim (Bool-cases (log_lt x l)) [
    | inl f ↦ rw f (last?-cons x (insert l xs))
    | inr f ↦ rw f (last?-cons x xs)
  ])
]

-- The record is an element of the set.
abbrev pub In : Log → List Log → Type 0
In l [] = ⊥
In l (x ∷ xs) = (x ≡ l) ⊎ In l xs

-- No element has the key and the number of the record: one that has keeps the record out of the set.
abbrev pub IsNew : Log → List Log → Type 0
IsNew l xs = All (λ x. ¬ ((x.key ≡ l.key) × (x.lsn ≡ l.lsn))) xs

insert-In : (l : Log) (xs : List Log) → IsNew l xs → In l (insert l xs)
unfolding insert
insert-In l [] h = inl refl
insert-In l (x ∷ xs) (ne, h) = elim (Bool-cases (log_lt l x)) [
  | inl e ↦ rw e (inl refl)
  | inr e ↦ rw e (elim (Bool-cases (log_lt x l)) [
    | inl f ↦ rw f (inr (insert-In l xs h))
    | inr f ↦ absurd (elim (log_lt-total x l) [
      | inl lt ↦ ground arith
      | inr (inl lt) ↦ ground arith
      | inr (inr same) ↦ ne same
    ])
  ])
]

insert-In_old : (l y : Log) (xs : List Log) → In y xs → In y (insert l xs)
unfolding insert
insert-In_old l y [] h = absurd h
insert-In_old l y (x ∷ xs) h = elim (Bool-cases (log_lt l x)) [
  | inl e ↦ rw e (inr h)
  | inr e ↦ rw e (elim (Bool-cases (log_lt x l)) [
    | inl f ↦ rw f (elim h [ inl here ↦ inl here | inr i ↦ inr (insert-In_old l y xs i) ])
    | inr f ↦ rw f h
  ])
]

insert-In_only : (l y : Log) (xs : List Log) → In y (insert l xs) → (l ≡ y) ⊎ In y xs
unfolding insert
insert-In_only l y [] h = h
insert-In_only l y (x ∷ xs) h = elim (Bool-cases (log_lt l x)) [
  | inl e ↦ rw e at h
  | inr e ↦ elim (Bool-cases (log_lt x l)) [
    | inl f ↦ elim (rw (e, f) at h) [
      | inl here ↦ inr (inl here)
      | inr i ↦ elim (insert-In_only l y xs i) [ inl q ↦ inl q | inr q ↦ inr (inr q) ]
    ]
    | inr f ↦ inr (rw (e, f) at h)
  ]
]

-- The records of the second list are the record and those of the first.
pub record Extends (l : Log) (old stored : List Log) : Type 0 where
  pub present : In l stored
  pub others : (y : Log) → In y old → In y stored
  pub only : (y : Log) → In y stored → (l ≡ y) ⊎ In y old

insert-Extends : (l : Log) (xs : List Log) → IsNew l xs → Extends l xs (insert l xs)
insert-Extends l xs h = record {
  present = insert-In l xs h;
  others = λ y i. insert-In_old l y xs i;
  only = λ y i. insert-In_only l y xs i;
}

-- Between two calls the memtable is within its limit and its set is in order.
pub record IsReady (m : Memtable) : Type 0 where
  pub within : m.data_size ≤ m.max_size
  pub sorted : IsSorted m.mem_map

-- The set has the record and all that it had, and nothing was written.
pub record Kept (fs fs' : Files) (m m' : Memtable) (l : Log) : Type 0 where
  pub inserted : Extends l m.mem_map m'.mem_map
  pub counted : m'.data_size ≡ m.data_size + l.size
  pub same_tables : m'.sst_mgr ≡ m.sst_mgr
  pub same_files : fs' ≡ fs

-- A new table was written, and an iterator on it yields records in their order: the record and all that the
-- set had.
pub record Frozen (fs' : Files) (m m' : Memtable) (l : Log) : Type 0 where
  pub emptied : m'.mem_map ≡ []
  pub no_copy : m'.i_mem_map ≡ none
  pub table : Sst
  pub added : m'.sst_mgr.ssts ≡ m.sst_mgr.ssts ++ table ∷ []
  pub iter : Iter
  pub opened : create_iterator fs' table ≡ some iter
  pub stored : List Log
  pub complete : drain (suc (length stored)) iter ≡ some stored
  pub rising : IsSorted stored
  pub extends : Extends l m.mem_map stored

-- What a freeze would write must fit, under a name that is free, and the record must be new.
pub record CanFreeze (fs : Files) (m : Memtable) (l : Log) : Type 0 where
  pub is_new : IsNew l m.mem_map
  pub no_wrap : m.data_size + l.size < 2 ^ 64
  pub name_free : fs (file_name ((m.sst_mgr.id + 1) % 2 ^ 64)) ≡ none
  pub records_fit : All Fits (insert l m.mem_map)
  pub head_fits :
      (e : Log)
      → last? (insert l m.mem_map) ≡ some e
      → MetaIsSound (built (file_name ((m.sst_mgr.id + 1) % 2 ^ 64)) e (insert l m.mem_map)).meta

-- From a ready memtable (within its limit, and in order) that has no record with the key and the number of
-- this one, where the sizes do not wrap, the records fit their format and the name of the next table is
-- free, `Add` succeeds and leaves the memtable ready, and no record is lost: either the set is now this one
-- with all that it had, or it is empty and just these records are what an iterator on the new table yields,
-- in order.
pub add_keeps :
    (fs : Files) (m : Memtable) (l : Log)
    → IsReady m
    → CanFreeze fs m l
    → (fs' : Files) × (m' : Memtable) × (add fs m l ≡ some (true, fs', m'))
      × IsReady m'
      × (Kept fs fs' m m' l ⊎ Frozen fs' m m' l)
unfolding add minor_freeze mgr_flush
add_keeps fs m l r c = elim (Bool-cases (ltb m.max_size ((m.data_size + l.size) % 2 ^ 64))) [
  | inl e ↦
      let id = (m.sst_mgr.id + 1) % 2 ^ 64 in
      let (last, at) = insert-last l m.mem_map in
      let table = built (file_name id) last (insert l m.mem_map) in
      let (fs', written, (it, opened, all), _) =
        flush_scan fs (file_name id) last (insert l m.mem_map) c.name_free (c.head_fits last at)
          c.records_fit in
      (
        fs',
        record m {
          data_size = 0;
          mem_map = [];
          i_mem_map = none;
          sst_mgr = record { id = id; ssts = m.sst_mgr.ssts ++ table ∷ [] };
        },
        rw (small, e, at, written) refl,
        record { within = omega arith; sorted = tt },
        inr (record {
          emptied = refl;
          no_copy = refl;
          table = table;
          added = refl;
          iter = it;
          opened = opened;
          stored = insert l m.mem_map;
          complete = all;
          rising = insert-IsSorted l m.mem_map r.sorted;
          extends = insert-Extends l m.mem_map c.is_new;
        }),
      )
  | inr e ↦ (
    fs,
    record m { mem_map = insert l m.mem_map; data_size = (m.data_size + l.size) % 2 ^ 64 },
    rw (small, e) refl,
    record { within = ground arith; sorted = insert-IsSorted l m.mem_map r.sorted },
    inl (record {
      inserted = insert-Extends l m.mem_map c.is_new;
      counted = omega (arith, c.no_wrap);
      same_tables = refl;
      same_files = refl;
    }),
  )
]
  where
    small : ltb m.max_size m.data_size ≡ false
    small = let h = r.within in ground arith
