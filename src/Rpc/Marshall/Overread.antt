-- ===== src/Rpc/Marshall/Overread.antt =====
-- The bounds test of `unmarshall::rawbytes`.
use ctgfs.Prelude.{ℕ, ◌-◌, ◌^◌, ◌≤◌, ◌<◌, ◌≡◌, none, arith, length}
use ctgfs.Prelude.Bytes.{Bytes}
use ctgfs.Rpc.Marshall.{Unmarshall, get_rawbytes}

-- The test adds the position and the count modulo 2 ^ 32. So a sender who claims a length of
-- 2 ^ 32 - k, with k at least 1 and at most the reader's position, passes it on every buffer that is
-- shorter than 2 ^ 32 bytes, and the string is built from bytes past the end of the buffer.
pub overread_of_wrap :
    (u : Unmarshall) (ss : Bytes) (k : ℕ)
    → 0 < k
    → k ≤ u.ind
    → u.ind ≤ length u.buf
    → length u.buf < 2 ^ 32
    → get_rawbytes u ss (2 ^ 32 - k) ≡ none
unfolding get_rawbytes
overread_of_wrap u ss k pos le fits small = ground arith
