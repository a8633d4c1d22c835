-- ===== src/Rpc/Framing/Examples.antt =====
-- Runs of read_cb of src/rpc/connection.cc.
use ctgfs.Prelude.{ℕ, ◌≡◌, refl, Bool, true, false, List, [], ◌∷◌, arith}
use ctgfs.Prelude.Bytes.{Bytes}
use ctgfs.Rpc.Framing.{
  alive, dead, broken, connection, deliver, read_body, read_size, read_cb, read_all,
}
use ctgfs.Rpc.Framing.Pieces.{stream}
use ctgfs.Rpc.Framing.RoundTrip.{AnyRefusal, Ended, frames_come_out}

abbrev two_bodies : List Bytes
two_bodies = (7 ∷ 8 ∷ 9 ∷ []) ∷ (5 ∷ []) ∷ []

-- The first PDU is refused twice and then taken, and so on; no PDU waits at the end.
abbrev callbacks : List (ℕ × Bool)
callbacks =
    (1, true)
    ∷ (2, false)
    ∷ (1, false)
    ∷ (1, true)
    ∷ (9, false)
    ∷ (1, true)
    ∷ (1, true)
    ∷ (1, true)
    ∷ (1, true)
    ∷ (1, true)
    ∷ (1, true)
    ∷ (1, true)
    ∷ (1, true)
    ∷ (1, true)
    ∷ (1, true)
    ∷ (1, true)
    ∷ []

frames_come_out_example :
    ((read_all callbacks connection (stream two_bodies)).1 ≡ [])
    × Ended (AnyRefusal callbacks) two_bodies (read_all callbacks connection (stream two_bodies)).0
frames_come_out_example =
    frames_come_out two_bodies callbacks (ground arith) (ground arith) (ground arith)

-- With no more bytes there is no more callback for a PDU that was refused.
refused_last :
    (read_all ((9, false) ∷ (9, true) ∷ []) connection (stream ((5 ∷ []) ∷ []))).0
    ≡ record { life = alive; sz = 5; buf = 0 ∷ 0 ∷ 0 ∷ 5 ∷ 5 ∷ []; got = [] }
unfolding read_all read_cb read_size read_body deliver
refused_last = refl

-- A size in two pieces, a size without a body, and a size below zero.
cut_size : (read_cb 9 true connection (0 ∷ 0 ∷ [])).0.life ≡ dead
unfolding read_cb read_size
cut_size = refl

no_body : (read_cb 9 true connection (0 ∷ 0 ∷ 0 ∷ 4 ∷ [])).0.life ≡ dead
unfolding read_cb read_size read_body deliver
no_body = refl

below_zero : (read_cb 9 true connection (255 ∷ 255 ∷ 255 ∷ 255 ∷ [])).0.life ≡ broken
unfolding read_cb read_size
below_zero = refl
