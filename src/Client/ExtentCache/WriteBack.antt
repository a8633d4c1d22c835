-- ===== src/Client/ExtentCache/WriteBack.antt =====
-- What a client reads through the write-back cache of src/client/extent_client_cache.cc.
use ctgfs.Prelude.{
  ℕ, suc, ◌^◌, ◌<◌, ◌≡◌, refl, ap, false, Option, none, some, [], ◌∷◌, arith, length, ◌==◌, zero,
  ◌≤◌, ◌-◌, take, length-append, if◌then◌else◌,
}
use ctgfs.Prelude.Bytes.{Bytes}
use ctgfs.Fs.ExtentServer.{Status, ok, noent, Attr, Extent, Server, resized, zeros}
use ctgfs.Fs.ExtentServer as Remote
use ctgfs.Client.ExtentCache.{CacheExtent, World, Net, put, get, getattr, setattr, remove, flush}

abbrev content_of : Option Extent → Option Bytes
content_of none = none
content_of (some e) = some e.content

abbrev shown : Option CacheExtent → Option Extent → Option Bytes
shown none s = content_of s
shown (some e) s = if e.deleted then none else some e.content

-- What the client reads of a file: what its cache has, and else what the server has.
abbrev pub view : World → ℕ → Option Bytes
view w id = shown (w.cache id) (w.server.extents id)

-- An entry that is not dirty has what the server has, and all sizes are ones that an attribute can
-- carry.
abbrev Agrees : Option CacheExtent → Option Extent → Type 0
Agrees none s = Unit {0}
Agrees (some e) s =
    (e.dirty ≡ false → shown (some e) s ≡ content_of s) × (length e.content < 2 ^ 32)

abbrev Small : Option Extent → Type 0
Small none = Unit {0}
Small (some e) = length e.content < 2 ^ 32

abbrev pub IsCoherent : World → ℕ → Type 0
IsCoherent w id = Agrees (w.cache id) (w.server.extents id) × Small (w.server.extents id)

length-zeros : (n : ℕ) → length (zeros n) ≡ n
length-zeros zero = refl
length-zeros (suc n) = ap suc (length-zeros n)

length-take_short : (n : ℕ) (s : Bytes) → n ≤ length s → length (take n s) ≡ n
length-take_short zero s h = refl
length-take_short (suc n) [] h = omega arith
length-take_short (suc n) (x ∷ s) h = omega (arith, length-take_short n s)

length-resized : (s : Bytes) (n : ℕ) → length (resized s n) ≡ n
length-resized s n = ground (
  arith,
  length-append s (zeros (n - length s)),
  length-zeros (n - length s),
  length-take_short n s,
)

take-all : (s : Bytes) → take (length s) s ≡ s
take-all [] = refl
take-all (x ∷ s) = ap (λ t. x ∷ t) (take-all s)

resized_same : (s : Bytes) (n : ℕ) → length s ≡ n → resized s n ≡ s
resized_same s n h = ground (arith, take-all s)

-- The content that is read in two steps, where they succeed.
abbrev local : Option CacheExtent → Option Extent → Bytes
local none none = []
local none (some e) = e.content
local (some e) s = e.content

pub put-view :
    (now : ℕ) (w : World) (id other : ℕ) (buf : Bytes)
    → length buf < 2 ^ 32
    → IsCoherent w other
    → IsCoherent (put now w id buf).1 other
      × (view (put now w id buf).1 other ≡ (if other == id then some buf else view w other))
unfolding put
put-view now w id other buf h c = ground arith

pub remove-view :
    (w : World) (id other : ℕ)
    → IsCoherent w id
    → IsCoherent w other
    → IsCoherent (remove w id).1 other
      × (view (remove w id).1 other ≡ (if other == id then none else view w other))
unfolding remove
remove-view w id other c d = ground arith

-- Whatever part of the calls reaches the server, flushing a file does not change what the client
-- reads of any file, where the entries of both files are coherent with the server (one that is not
-- dirty has its content) and their sizes below 2 ^ 32; and they stay so.
pub flush-view :
    (net : Net) (now : ℕ) (w : World) (id other : ℕ)
    → IsCoherent w id
    → IsCoherent w other
    → IsCoherent (flush net now w id).1 other × (view (flush net now w id).1 other ≡ view w other)
unfolding flush Remote.put Remote.remove Remote.setattr
flush-view net now w id other c d = ground arith

pub get-view :
    (net : Net) (now : ℕ) (w : World) (id other : ℕ)
    → IsCoherent w id
    → IsCoherent w other
    → IsCoherent (get net now w id).1 other × (view (get net now w id).1 other ≡ view w other)
unfolding get Remote.get Remote.getattr
get-view net now w id other c d = ground arith

-- What a read answers is what the client's view has, however it is got.
pub get-answers :
    (net : Net) (now : ℕ) (w : World) (id : ℕ)
    → IsCoherent w id
    → ((get net now w id).0.0 ≡ ok → view w id ≡ some (get net now w id).0.1)
      × ((get net now w id).0.0 ≡ noent → view w id ≡ none)
unfolding get Remote.get Remote.getattr
get-answers net now w id c = ground arith

pub getattr-view :
    (net : Net) (now : ℕ) (w : World) (id other : ℕ)
    → IsCoherent w id
    → IsCoherent w other
    → IsCoherent (getattr net now w id).1 other
      × (view (getattr net now w id).1 other ≡ view w other)
unfolding getattr Remote.get Remote.getattr
getattr-view net now w id other c d = ground arith

abbrev pub if_ok : Status → Option Bytes → Option Bytes → Option Bytes
if_ok ok a b = a
if_ok _ a b = b

abbrev pub resized_view : Option Bytes → ℕ → Option Bytes
resized_view none n = none
resized_view (some s) n = some (resized s n)

pub setattr-view :
    (net : Net) (now : ℕ) (w : World) (id other : ℕ) (a : Attr)
    → a.size < 2 ^ 32
    → IsCoherent w id
    → IsCoherent w other
    → IsCoherent (setattr net now w id a).1 other
      × (view (setattr net now w id a).1 other ≡ (
          if other == id
          then if_ok (setattr net now w id a).0 (resized_view (view w other) a.size) (view w other)
          else view w other))
unfolding setattr Remote.get
setattr-view net now w id other a h c d =
    let s = local (w.cache id) (w.server.extents id) in
    ground (arith, length-resized s a.size, resized_same s a.size)
