-- ===== src/Rpc/Client/Acked/Kept.antt =====
-- What follows in src/rpc/rpc.cc for a request that is answered FORGOTTEN.
use ctgfs.Prelude.{ℕ, ◌≤◌, ◌≡◌, ◌≢◌, List, [], ◌∷◌, arith}
use ctgfs.Prelude.Bytes.{Bytes}
use ctgfs.Rpc.Window.{Reply, Scan, inserted, found, forgotten, scan, after_scan, check_window}
use ctgfs.Rpc.Client.{Rpcc}
use ctgfs.Rpc.Client.Squeeze.{In}
use ctgfs.Rpc.Client.Acked.{System, bound_system, Reach}
use ctgfs.Rpc.Client.Acked.Before.{Before}
use ctgfs.Rpc.Client.Acked.Sound.{Reach-IsSound}

after_scan-answer : (rep : ℕ) (w : List Reply) (sc : Scan) → (after_scan rep w sc).0 ≢ forgotten
after_scan-answer rep w (inserted v) e = cc
after_scan-answer rep w (found r) e = ground arith

forgotten-Before : (x rep : ℕ) (w : List Reply) → (check_window x rep w).0 ≡ forgotten → Before x w
unfolding check_window
forgotten-Before x rep [] e = cc
forgotten-Before x rep (t ∷ w) e = ground (arith, after_scan-answer rep (t ∷ w) (scan x (t ∷ w)))

-- However the network delays, repeats and drops messages: a request of a bound client that the server
-- answers FORGOTTEN, with an xid from 1 on, is one whose reply the client has got. Each call waits for its reply here, and no
-- xid wraps to 0.
pub forgotten_was_given :
    (c : Rpcc) (b : Bytes) (s : System) (x rep : ℕ)
    → Reach (bound_system c b) s
    → 1 ≤ x
    → (check_window x rep s.window).0 ≡ forgotten
    → In x s.given
forgotten_was_given c b s x rep r pos e =
    (Reach-IsSound c b r).before x pos (forgotten-Before x rep s.window e)
