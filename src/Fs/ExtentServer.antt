-- ===== src/Fs/ExtentServer.antt =====
-- The extent server: src/fs/extent_server.cc. `now` is what `time` gives to a call. Each operation but
-- `move` holds the mutex from start to end.
use ctgfs.Prelude.{
  ℕ, zero, suc, ◌-◌, ◌%◌, ◌^◌, Bool, Option, none, some, List, [], ◌∷◌, ◌++◌, length, take, ltb,
  ◌==◌, if◌then◌else◌, not,
}
use ctgfs.Prelude.Bytes.{Bytes}

pub data Status : Type 0 where
  ok rpcerr noent ioerr : Status

pub record Attr : Type 0 where
  pub atime : ℕ
  pub mtime : ℕ
  pub ctime : ℕ
  pub size : ℕ

pub record Extent : Type 0 where
  pub atime : ℕ
  pub mtime : ℕ
  pub ctime : ℕ
  pub content : Bytes

-- `extent_map_`, and the calls of `AddDirtyData` so far: the file, its size, and the kind of change.
pub record Server : Type 0 where
  pub extents : ℕ → Option Extent
  pub dirty : List (ℕ × ℕ × ℕ)

abbrev pub set_at {ℓ} : {A : Type ℓ} → (ℕ → A) → ℕ → A → ℕ → A
set_at f id a other = if other == id then a else f other

abbrev pub stored : Server → ℕ → Option Extent → ℕ → ℕ → Server
stored s id e size kind = record {
  extents = set_at s.extents id e;
  dirty = s.dirty ++ (id, size, kind) ∷ [];
}

abbrev put_over : ℕ → Server → ℕ → Bytes → Option Extent → Status × Server
put_over now s id buf none = (
  ok,
  stored s id (some (record { atime = now; mtime = now; ctime = now; content = buf })) (length buf)
      1,
)
put_over now s id buf (some e) =
    (ok, stored s id (some (record e { mtime = now; ctime = now; content = buf })) (length buf) 2)

unfoldable pub put : ℕ → Server → ℕ → Bytes → Status × Server
put now s id buf = put_over now s id buf (s.extents id)

abbrev get_from : ℕ → Server → ℕ → Option Extent → (Status × Bytes) × Server
get_from now s id none = ((noent, []), s)
get_from now s id (some e) =
    ((ok, e.content), record s { extents = set_at s.extents id (some (record e { atime = now })) })

-- The text is [] where the caller's string stays as it is.
unfoldable pub get : ℕ → Server → ℕ → (Status × Bytes) × Server
get now s id = get_from now s id (s.extents id)

abbrev no_attr : Attr
no_attr = record { atime = 0; mtime = 0; ctime = 0; size = 0 }

abbrev attr_of : Option Extent → Status × Attr
attr_of none = (noent, no_attr)
attr_of (some e) = (
  ok,
  record { atime = e.atime; mtime = e.mtime; ctime = e.ctime; size = length e.content % 2 ^ 32 },
)

unfoldable pub getattr : Server → ℕ → Status × Attr
getattr s id = attr_of (s.extents id)

abbrev pub zeros : ℕ → Bytes
zeros zero = []
zeros (suc n) = 0 ∷ zeros n

-- A longer content is cut, a shorter one is filled up with zeros.
abbrev pub resized : Bytes → ℕ → Bytes
resized content n =
    if ltb (length content) n then content ++ zeros (n - length content) else take n content

abbrev setattr_of : ℕ → Server → ℕ → ℕ → Option Extent → Status × Server
setattr_of now s id new_size none = (noent, s)
setattr_of now s id new_size (some e) = if length e.content == new_size then (ok, s) else (
  ok,
  stored s id (some (record e { mtime = now; ctime = now; content = resized e.content new_size }))
      new_size 2,
)

unfoldable pub setattr : ℕ → Server → ℕ → Attr → Status × Server
setattr now s id a = setattr_of now s id a.size (s.extents id)

abbrev remove_of : Server → ℕ → Option Extent → Status × Server
remove_of s id none = (ok, s)
remove_of s id (some e) = (ok, stored s id none 0 0)

unfoldable pub remove : Server → ℕ → Status × Server
remove s id = remove_of s id (s.extents id)

-- `move`: `has_port` is whether the address has a colon, `bound` whether its server answers, and
-- `accepts` whether that server takes the `put` of a file. The files that it took are dropped here.
abbrev moved : (ℕ → Bool) → List ℕ → (ℕ → Option Extent) → ℕ → Option Extent
moved accepts [] f = f
moved accepts (id ∷ ids) f = moved accepts ids (if accepts id then set_at f id none else f)

unfoldable pub move : Bool → Bool → (ℕ → Bool) → Server → List ℕ → Status × Server
move has_port bound accepts s ids =
    if not has_port
    then (ioerr, s)
    else if not bound
    then (rpcerr, s)
    else (ok, record s { extents = moved accepts ids s.extents })
