-- ===== src/Rpc/Window.antt =====
-- The server's at-most-once logic: the reply windows of src/rpc/rpc.cc (`rpcs`).
-- A buffer is the list of its bytes, so `buf` stands for the pair of `buf` and `sz`. It is deleted when its
-- entry leaves the window: an answer says whether its buffer is deleted already by the same check. That
-- another thread may delete it after that is not modelled. `reply_window_`, read by `operator[]`, is a
-- function with the default [].
pub mod Order
pub mod Once
pub mod Kept
pub mod Entries
mod Examples
use ctgfs.Prelude.{ℕ, ◌≡◌, Bool, true, false, List, [], ◌∷◌, ltb, ◌==◌, ◌||◌, if◌then◌else◌}
use ctgfs.Prelude.Bytes.{Bytes}

-- `rpcs::reply_t`
pub record Reply : Type 0 where
  pub xid : ℕ
  pub cb_present : Bool
  pub buf : Bytes

abbrev pub reply_t : ℕ → Reply
reply_t x = record { xid = x; cb_present = false; buf = [] }

-- `rpcs::rpcstate_t`. DONE is `done` with what the call leaves in `*b`, or `done_freed` where `*b` points to
-- a buffer that the call itself has deleted.
pub data RpcState : Type 0 where
  new inprogress forgotten done_freed : RpcState
  done : Bytes → RpcState

-- The loop of `gc_reply_window`: its test stops at the last entry. The buffers of the entries that go are
-- deleted.
unfoldable pub gc : ℕ → List Reply → List Reply
gc xid_rep [] = []
gc xid_rep (r ∷ []) = r ∷ []
gc xid_rep (r ∷ s ∷ rest) = if ltb r.xid xid_rep then gc xid_rep (s ∷ rest) else r ∷ s ∷ rest

-- The loop of `checkduplicate_and_update`: either the window with the new entry in its place, or
-- the entry that has this xid.
pub data Scan : Type 0 where
  inserted : List Reply → Scan
  found : Reply → Scan

abbrev pub behind : Reply → Scan → Scan
behind r (inserted w) = inserted (r ∷ w)
behind r (found e) = found e

unfoldable pub scan : ℕ → List Reply → Scan
scan x [] = inserted (reply_t x ∷ [])
scan x (r ∷ rest) =
    if ltb x r.xid
    then inserted (reply_t x ∷ r ∷ rest)
    else if ltb r.xid x
    then behind r (scan x rest)
    else found r

-- What is left of the window still has the entry, so its buffer has not been deleted.
unfoldable pub is_held : ℕ → List Reply → Bool
is_held x [] = false
is_held x (r ∷ rest) = (r.xid == x) || is_held x rest

-- The answer for an entry, after `gc_reply_window` has left `w`.
abbrev pub answer : Reply → List Reply → RpcState
answer r w = if r.cb_present then if is_held r.xid w then done r.buf else done_freed else inprogress

abbrev pub after_scan : ℕ → List Reply → Scan → RpcState × List Reply
after_scan rep w (inserted v) = (new, gc rep v)
after_scan rep w (found r) = (answer r (gc rep w), gc rep w)

-- `checkduplicate_and_update` on the window of its client.
unfoldable pub check_window : ℕ → ℕ → List Reply → RpcState × List Reply
check_window x rep [] = (new, reply_t x ∷ [])
check_window x rep (r ∷ rest) =
    if ltb x r.xid
    then (forgotten, gc rep (r ∷ rest))
    else after_scan rep (r ∷ rest) (scan x (r ∷ rest))

-- The loop of `add_reply`, which goes through the whole window.
unfoldable pub fill : ℕ → Bytes → List Reply → List Reply
fill x b [] = []
fill x b (r ∷ rest) =
    (if r.xid == x then record r { cb_present = true; buf = b } else r) ∷ fill x b rest

-- `reply_window_`
abbrev pub Windows : Type 0
Windows = ℕ → List Reply

abbrev pub put_window : Windows → ℕ → List Reply → Windows
put_window ws clt w c = if clt == c then w else ws c

unfoldable pub checkduplicate_and_update : Windows → ℕ → ℕ → ℕ → RpcState × Windows
checkduplicate_and_update ws clt x rep =
    let (st, w) = check_window x rep (ws clt) in (st, put_window ws clt w)

-- `VERIFY(0)` stops the server on an empty window: here the state stays as it is.
unfoldable pub add_reply : Windows → ℕ → ℕ → Bytes → Windows
add_reply ws clt x b = put_window ws clt (fill x b (ws clt))

-- What the dispatch threads do to the windows, each step under `reply_window_m_`.
pub data Event : Type 0 where
  check : ℕ → ℕ → ℕ → Event
  reply : ℕ → ℕ → Bytes → Event

unfoldable pub step : Windows → Event → Windows
step ws (check clt x rep) = (checkduplicate_and_update ws clt x rep).1
step ws (reply clt x b) = add_reply ws clt x b

unfoldable pub run : Windows → List Event → Windows
run ws [] = ws
run ws (e ∷ es) = run (step ws e) es

abbrev pub no_windows : Windows
no_windows clt = []
