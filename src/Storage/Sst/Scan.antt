-- ===== src/Storage/Sst/Scan.antt =====
-- What an iterator reads from a table that was built and flushed.
use mathlib.Core.List.{append_assoc, append-nil}
use ctgfs.Prelude.{
  suc, ◌+◌, ◌^◌, ◌<◌, ◌≡◌, refl, ap, none, some, List, [], ◌∷◌, ◌++◌, arith, length, drop,
  length-append, drop-append, All, true, false, length-drop, ◌==◌, if◌then◌else◌,
}
use ctgfs.Prelude.Bytes.{Bytes, bytes_eq_refl}
use ctgfs.Storage.Codec.{uint64_to_str, drop-step, drop-nil}
use ctgfs.Storage.Log.{Log, encode}
use ctgfs.Storage.Log.Decode.{IsSound, length-uint64, length-encode, write-append, read-write}
use ctgfs.Storage.Sst.{
  SstMeta, meta_size, meta_bytes, Sst, init, append, append_all, Files, store, flush, recover, Iter,
  create_iterator, has_next, next, drain,
}
use ctgfs.Storage.Sst.Meta.{MetaIsSound, write_meta-total, length-meta, read-head}

-- The data part of a file.
abbrev pub region : List Log → Bytes
region [] = []
region (l ∷ ls) = uint64_to_str (length (encode l) + 8) ++ (encode l ++ region ls)

pub buf-append_all : (s : Sst) (ls : List Log) → (append_all s ls).buf ≡ s.buf ++ region ls
unfolding append_all append
buf-append_all s [] = simp append-nil
buf-append_all s (l ∷ ls) = simp (buf-append_all (append s l) ls, append_assoc)

pub filename-append_all : (s : Sst) (ls : List Log) → (append_all s ls).filename ≡ s.filename
unfolding append_all append
filename-append_all s [] = refl
filename-append_all s (l ∷ ls) = filename-append_all (append s l) ls

head-append_all :
    (s : Sst) (ls : List Log)
    → ((append_all s ls).meta.last_log ≡ s.meta.last_log)
      × ((append_all s ls).meta.data_offset ≡ s.meta.data_offset)
unfolding append_all append
head-append_all s [] = (refl, refl)
head-append_all s (l ∷ ls) = head-append_all (append s l) ls

-- A record that a table can hold.
abbrev pub Fits : Log → Type 0
Fits l = IsSound l × (l.size + 8 < 2 ^ 64)

next-region :
    (it : Iter) (l : Log) (t : Bytes)
    → Fits l
    → drop it.pos it.file ≡ uint64_to_str (length (encode l) + 8) ++ (encode l ++ t)
    → has_next it ≡ true
    → next it ≡ some (l, record it { pos = it.pos + (l.size + 8) })
unfolding next
next-region it l t f e more = rw (more, e, same, ← write-append l t f.0, read-write l t f.0 f.1)
  where
    same : length (encode l) ≡ l.size
    same = omega (arith, length-encode l, f.0.sized)

has_next_iff :
    (it : Iter) (b : Bytes)
    → it.size ≡ length it.file
    → drop it.pos it.file ≡ b
    → has_next it ≡ (if length b == 0 then false else true)
unfolding has_next
has_next_iff it b e d = ground (arith, length-drop it.pos it.file, ap length d)

drain-region :
    (it : Iter) (ls : List Log)
    → All Fits ls
    → it.size ≡ length it.file
    → drop it.pos it.file ≡ region ls
    → drain (suc (length ls)) it ≡ some ls
unfolding drain
drain-region it [] f e d = ground (arith, has_next_iff it [] e d)
drain-region it (l ∷ ls) f e d =
    ground (arith, more, next-region it l (region ls) f.0 d more, drain-region after ls f.1 e later)
  where
    more : has_next it ≡ true
    more = ground (
      arith,
      has_next_iff it (region (l ∷ ls)) e d,
      length-append (uint64_to_str (length (encode l) + 8)) (encode l ++ region ls),
      length-uint64 (length (encode l) + 8),
    )

    after : Iter
    after = record it { pos = it.pos + (l.size + 8) }

    past_size : drop (it.pos + 8) it.file ≡ encode l ++ region ls
    past_size =
        drop-step it.pos (it.pos + 8) it.file (uint64_to_str (length (encode l) + 8)) _ d
          (omega (arith, length-uint64 (length (encode l) + 8)))

    later : drop after.pos it.file ≡ region ls
    later =
        drop-step (it.pos + 8) (it.pos + (l.size + 8)) it.file (encode l) (region ls) past_size
          (omega (arith, length-encode l, f.0.0.sized))

-- The table with its records in it, before it is written.
abbrev pub built : Bytes → Log → List Log → Sst
built name last ls = append_all (init name last) ls

built-offset :
    (name : Bytes) (last : Log) (ls : List Log)
    → meta_size (built name last ls).meta + 8 < 2 ^ 64
    → (built name last ls).meta.data_offset ≡ (built name last ls).meta.last_log.size + 24
unfolding init
built-offset name last ls small =
    let (same, off) = head-append_all (init name last) ls in
    omega (arith, off, ap (λ l. l.size) same)

store_fresh : (fs : Files) (name b : Bytes) → fs name ≡ none → store fs name b name ≡ some b
store_fresh fs name b fresh = rw (bytes_eq_refl name, fresh, drop-nil, append-nil)

head_length :
    (m : SstMeta)
    → IsSound m.last_log
    → m.data_offset ≡ m.last_log.size + 24
    → m.data_offset ≡ length (uint64_to_str (meta_size m + 8) ++ meta_bytes m)
head_length m s e = omega (
  arith,
  length-append (uint64_to_str (meta_size m + 8)) (meta_bytes m),
  length-uint64 (meta_size m + 8),
  length-meta m s,
)

-- A table that is built from records that fit, with a head whose numbers fit their fields, and flushed
-- to a file that is not there yet, is written; an iterator on it yields these records in their order and then ends, and `Recover` finds
-- the head of the table in the file.
pub flush_scan :
    (fs : Files) (name : Bytes) (last : Log) (ls : List Log)
    → fs name ≡ none
    → MetaIsSound (built name last ls).meta
    → All Fits ls
    → (fs' : Files) × (flush fs (built name last ls) ≡ some fs')
      × ((it : Iter) × (create_iterator fs' (built name last ls) ≡ some it)
          × (drain (suc (length ls)) it ≡ some ls))
      × (recover fs' name
          ≡ some (record { filename = name; meta = (built name last ls).meta; buf = [] }))
unfolding flush create_iterator recover init
flush_scan fs name last ls fresh sound fits = (
  store fs name file,
  ground (arith, written, named, write_meta-total m sound.last_sound),
  (it, ground (arith, found, named), drain-region it ls fits refl at_data),
  ground (arith, found, read-head m (region ls) sound),
)
  where
    m : SstMeta
    m = (built name last ls).meta

    head : Bytes
    head = uint64_to_str (meta_size m + 8) ++ meta_bytes m

    file : Bytes
    file = head ++ region ls

    named : (built name last ls).filename ≡ name
    named = filename-append_all (init name last) ls

    written : (built name last ls).buf ≡ region ls
    written = buf-append_all (init name last) ls

    found : store fs name file name ≡ some file
    found = store_fresh fs name file fresh

    it : Iter
    it = record { file = file; pos = m.data_offset; size = length file }

    offset : m.data_offset ≡ m.last_log.size + 24
    offset = built-offset name last ls sound.head_small

    at_data : drop m.data_offset file ≡ region ls
    at_data = drop-append head (region ls) m.data_offset (head_length m sound.last_sound offset)
