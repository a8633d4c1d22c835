-- ===== src/Client/ExtentCache/Examples.antt =====
-- A file that is written, flushed while the server cannot be reached at first, and read.
use ctgfs.Prelude.{ℕ, ◌≡◌, refl, suc, zero, true, false, none, some, List, [], ◌∷◌, arith}
use ctgfs.Prelude.Bytes.{Bytes}
use ctgfs.Fs.ExtentServer.{ok, noent, rpcerr, Attr}
use ctgfs.Fs.ExtentServer as Remote
use ctgfs.Client.ExtentCache.{
  Net, put, get, getattr, setattr, remove, flush, Op, puts, setattrs, flushes, step, run,
  no_extents,
}
use ctgfs.Client.ExtentCache.WriteBack.{view, IsCoherent, flush-view}
use ctgfs.Client.ExtentCache.History.{contents_after, read_your_writes}

abbrev up : Net
up n = true

-- The first call of an operation fails.
abbrev late : Net
late zero = false
late (suc n) = true

abbrev down : Net
down n = false

abbrev text : Bytes
text = 104 ∷ 105 ∷ []

abbrev resize : ℕ → Attr
resize n = record { atime = 4; mtime = 4; ctime = 4; size = n }

abbrev history : List Op
history = puts 1 5 text ∷ flushes late 2 5 ∷ setattrs up 3 5 (resize 3) ∷ flushes up 4 5 ∷ []

read_back : (get late 5 (run no_extents history) 5).0 ≡ (ok, 104 ∷ 105 ∷ 0 ∷ [])
unfolding run step put get getattr setattr remove flush Remote.put Remote.get Remote.getattr
    Remote.setattr
read_back = refl

unreachable : (get down 5 (run no_extents history) 5).0.0 ≡ rpcerr
unfolding run step put get getattr setattr remove flush Remote.put Remote.get Remote.getattr
    Remote.setattr
unreachable = refl

read_your_writes_example :
    ((get late 5 (run no_extents history) 5).0.0 ≡ ok
      → contents_after no_extents history 5 none ≡ some (get late 5 (run no_extents history) 5).0.1)
    × ((get late 5 (run no_extents history) 5).0.0 ≡ noent
        → contents_after no_extents history 5 none ≡ none)
read_your_writes_example = read_your_writes history late 5 5 (omega arith)

flush-view_example :
    IsCoherent (flush late 2 (run no_extents (puts 1 5 text ∷ [])) 5).1 5
    × (view (flush late 2 (run no_extents (puts 1 5 text ∷ [])) 5).1 5
        ≡ view (run no_extents (puts 1 5 text ∷ [])) 5)
unfolding run step put
flush-view_example =
    flush-view late 2 (run no_extents (puts 1 5 text ∷ [])) 5 5 (ground arith) (ground arith)
