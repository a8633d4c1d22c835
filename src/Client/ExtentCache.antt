-- ===== src/Client/ExtentCache.antt =====
-- The caching extent client: src/client/extent_client_cache.cc, over one extent server, which stands
-- behind every address that `retry` connects to. The operations of one client follow one another.
pub mod WriteBack
pub mod History
mod Examples
use ctgfs.Prelude.{
  ℕ, zero, suc, ◌+◌, ◌%◌, ◌^◌, Bool, true, false, Option, none, some, List, [], ◌∷◌, ◌++◌, length,
  ltb, ◌==◌, if◌then◌else◌,
}
use ctgfs.Prelude.Bytes.{Bytes}
use ctgfs.Fs.ExtentServer.{Status, ok, rpcerr, noent, ioerr, Attr, Server, set_at, resized}
use ctgfs.Fs.ExtentServer as Remote

pub record CacheExtent : Type 0 where
  pub atime : ℕ
  pub mtime : ℕ
  pub ctime : ℕ
  pub content : Bytes
  pub deleted : Bool
  pub dirty : Bool

-- `extent(a, m, c, v)`
abbrev pub extent : ℕ → ℕ → ℕ → Bytes → CacheExtent
extent a m c v = record {
  atime = a;
  mtime = m;
  ctime = c;
  content = v;
  deleted = false;
  dirty = false;
}

-- `cache_map_`, and the server.
pub record World : Type 0 where
  pub cache : ℕ → Option CacheExtent
  pub server : Server

-- Whether the calls of an operation, by their number, reach the server.
abbrev pub Net : Type 0
Net = ℕ → Bool

-- Whether a call need not be tried again.
abbrev settled : Status → Bool
settled ok = true
settled noent = true
settled _ = false

abbrev no_attr : Attr
no_attr = record { atime = 0; mtime = 0; ctime = 0; size = 0 }

abbrev get_once : Bool → ℕ → Server → ℕ → (Status × Bytes) × Server
get_once up now s id = if up then Remote.get now s id else ((rpcerr, []), s)

abbrev again_get : Bool → ℕ → ℕ → (Status × Bytes) × Server → (Status × Bytes) × Server
again_get up now id ((ok, b), s) = ((ok, b), s)
again_get up now id ((_, b), s) = get_once up now s id

abbrev call_get : Net → ℕ → ℕ → Server → ℕ → (Status × Bytes) × Server
call_get net n now s id = again_get (net (suc n)) now id (get_once (net n) now s id)

abbrev getattr_once : Bool → Server → ℕ → Status × Attr
getattr_once up s id = if up then Remote.getattr s id else (rpcerr, no_attr)

abbrev again_getattr : Bool → Server → ℕ → Status × Attr → Status × Attr
again_getattr up s id (ok, a) = (ok, a)
again_getattr up s id (_, a) = getattr_once up s id

abbrev call_getattr : Net → ℕ → Server → ℕ → Status × Attr
call_getattr net n s id = again_getattr (net (suc n)) s id (getattr_once (net n) s id)

-- `callPut`, `callSetAttr` and `callRemove`: the call, and once more where it is not settled.
abbrev call_once : Bool → (Server → Status × Server) → Server → Status × Server
call_once up call s = if up then call s else (rpcerr, s)

abbrev again : Bool → (Server → Status × Server) → Status × Server → Status × Server
again up call (st, s) = if settled st then (st, s) else call_once up call s

abbrev call_twice : Net → ℕ → (Server → Status × Server) → Server → Status × Server
call_twice net n call s = again (net (suc n)) call (call_once (net n) call s)

abbrev cached : World → ℕ → CacheExtent → World
cached w id e = record w { cache = set_at w.cache id (some e) }

abbrev put_entry : ℕ → Bytes → Option CacheExtent → CacheExtent
put_entry now buf none = record (extent now now now buf) { dirty = true }
put_entry now buf (some e) = record {
  atime = if e.deleted then now else e.atime;
  mtime = now;
  ctime = now;
  content = buf;
  deleted = false;
  dirty = true;
}

unfoldable pub put : ℕ → World → ℕ → Bytes → Status × World
put now w id buf = (ok, cached w id (put_entry now buf (w.cache id)))

abbrev fetched : World → ℕ → Server → Bytes → Status × Attr → (Status × Bytes) × World
fetched w id srv b (ok, a) =
    ((ok, b), cached (record w { server = srv }) id (extent a.atime a.mtime a.ctime b))
fetched w id srv b (st, a) = ((st, b), record w { server = srv })

abbrev get_missing : Net → World → ℕ → (Status × Bytes) × Server → (Status × Bytes) × World
get_missing net w id ((ok, b), srv) = fetched w id srv b (call_getattr net 2 srv id)
get_missing net w id ((st, b), srv) = ((st, b), record w { server = srv })

abbrev get_entry : Net → ℕ → World → ℕ → Option CacheExtent → (Status × Bytes) × World
get_entry net now w id none = get_missing net w id (call_get net 0 now w.server id)
get_entry net now w id (some e) =
    if e.deleted
    then ((noent, []), w)
    else ((ok, e.content), cached w id (record e { atime = now; dirty = true }))

unfoldable pub get : Net → ℕ → World → ℕ → (Status × Bytes) × World
get net now w id = get_entry net now w id (w.cache id)

abbrev attr_fetched : World → ℕ → Attr → (Status × Bytes) × Server → (Status × Attr) × World
attr_fetched w id a ((ok, b), srv) =
    ((ok, a), cached (record w { server = srv }) id (extent a.atime a.mtime a.ctime b))
attr_fetched w id a ((st, b), srv) = ((st, a), record w { server = srv })

abbrev getattr_missing : Net → ℕ → World → ℕ → Status × Attr → (Status × Attr) × World
getattr_missing net now w id (ok, a) = attr_fetched w id a (call_get net 2 now w.server id)
getattr_missing net now w id (st, a) = ((st, a), w)

abbrev attr_of : CacheExtent → Attr
attr_of e = record {
  atime = e.atime;
  mtime = e.mtime;
  ctime = e.ctime;
  size = length e.content % 2 ^ 32;
}

abbrev getattr_entry : Net → ℕ → World → ℕ → Option CacheExtent → (Status × Attr) × World
getattr_entry net now w id none = getattr_missing net now w id (call_getattr net 0 w.server id)
getattr_entry net now w id (some e) =
    if e.deleted then ((noent, no_attr), w) else ((ok, attr_of e), w)

unfoldable pub getattr : Net → ℕ → World → ℕ → (Status × Attr) × World
getattr net now w id = getattr_entry net now w id (w.cache id)

abbrev with_attr : CacheExtent → Attr → CacheExtent
with_attr e a = record e {
  atime = a.atime;
  ctime = a.ctime;
  mtime = a.mtime;
  dirty = true;
  content = if length e.content == a.size then e.content else resized e.content a.size;
}

abbrev setattr_missing : World → ℕ → Attr → (Status × Bytes) × Server → Status × World
setattr_missing w id a ((ok, b), srv) =
    (ok, cached (record w { server = srv }) id (with_attr (extent a.atime a.ctime a.mtime b) a))
setattr_missing w id a ((st, b), srv) = (st, record w { server = srv })

abbrev setattr_entry : Net → ℕ → World → ℕ → Attr → Option CacheExtent → Status × World
setattr_entry net now w id a none = setattr_missing w id a (call_get net 0 now w.server id)
setattr_entry net now w id a (some e) =
    if e.deleted then (noent, w) else (ok, cached w id (with_attr e a))

unfoldable pub setattr : Net → ℕ → World → ℕ → Attr → Status × World
setattr net now w id a = setattr_entry net now w id a (w.cache id)

abbrev removed_entry : Option CacheExtent → CacheExtent
removed_entry none = record (extent 0 0 0 []) { deleted = true; dirty = true }
removed_entry (some e) = record e { deleted = true; dirty = true }

unfoldable pub remove : World → ℕ → Status × World
remove w id = (ok, cached w id (removed_entry (w.cache id)))

-- The entry leaves the cache, unless a call was not settled.
abbrev flushed : World → ℕ → Status × Server → Status × World
flushed w id (st, srv) =
    if settled st
    then (st, record { cache = set_at w.cache id none; server = srv })
    else (st, record w { server = srv })

abbrev flush_attr : Net → ℕ → World → ℕ → CacheExtent → Status × Server → Status × World
flush_attr net now w id e (st, srv) =
    if settled st
    then flushed w id (call_twice net 2 (λ s. Remote.setattr now s id (attr_of e)) srv)
    else (st, record w { server = srv })

abbrev flush_entry : Net → ℕ → World → ℕ → Option CacheExtent → Status × World
flush_entry net now w id none = flushed w id (ok, w.server)
flush_entry net now w id (some e) =
    if e.dirty
    then if e.deleted
      then flushed w id (call_twice net 0 (λ s. Remote.remove s id) w.server)
      else flush_attr net now w id e
          (call_twice net 0 (λ s. Remote.put now s id e.content) w.server)
    else flushed w id (ok, w.server)

unfoldable pub flush : Net → ℕ → World → ℕ → Status × World
flush net now w id = flush_entry net now w id (w.cache id)

-- The operations of one client, each with its calls and the time.
pub data Op : Type 0 where
  puts : ℕ → ℕ → Bytes → Op
  gets : Net → ℕ → ℕ → Op
  getattrs : Net → ℕ → ℕ → Op
  setattrs : Net → ℕ → ℕ → Attr → Op
  removes : ℕ → Op
  flushes : Net → ℕ → ℕ → Op

unfoldable pub step : World → Op → World
step w (puts now id buf) = (put now w id buf).1
step w (gets net now id) = (get net now w id).1
step w (getattrs net now id) = (getattr net now w id).1
step w (setattrs net now id a) = (setattr net now w id a).1
step w (removes id) = (remove w id).1
step w (flushes net now id) = (flush net now w id).1

unfoldable pub run : World → List Op → World
run w [] = w
run w (o ∷ os) = run (step w o) os

abbrev pub no_extents : World
no_extents = record { cache = λ id. none; server = record { extents = λ id. none; dirty = [] } }
