-- ===== src/Rpc/Framing.antt =====
-- The frames of src/rpc/connection.cc: a PDU starts with its size in four bytes, most significant first.
pub mod Pieces
pub mod Reads
pub mod RoundTrip
mod Examples
use ctgfs.Prelude.{
  ℕ, zero, suc, ◌+◌, ◌-◌, ◌*◌, ◌/◌, ◌%◌, ◌^◌, Bool, true, false, Option, none, some, List, [], ◌∷◌,
  ◌++◌, length, take, drop, ◌||◌, ◌&&◌, ltb, leb, ◌==◌, if◌then◌else◌,
}
use ctgfs.Prelude.Bytes.{Bytes}
use ctgfs.Rpc.Marshall.{be32}

abbrev pub max_pdu : ℕ
max_pdu = 10 * 2 ^ 20

abbrev pub ntohl : ℕ → ℕ → ℕ → ℕ → ℕ
ntohl a b c d = ((a * 256 + b) * 256 + c) * 256 + d

-- What `send` writes of a buffer, whose first four bytes are for the size.
abbrev pub frame : Bytes → Bytes
frame p = be32 (length p + 4) ++ p

-- `broken` is a failed assertion, or a read past the buffer.
pub data Life : Type 0 where
  alive dead broken : Life

-- `rpdu_`, and what `got_pdu` has been given; `solong` is the length of `buf`.
pub record Connection : Type 0 where
  pub life : Life
  pub sz : ℕ
  pub buf : Bytes
  pub got : List Bytes

abbrev pub connection : Connection
connection = record { life = alive; sz = 0; buf = []; got = [] }

-- Behind readpdu: a PDU that is complete is offered to `got_pdu`. `takes` is what that returns; a PDU that it
-- does not take stays.
unfoldable pub deliver : Bool → Connection → Connection
deliver takes c =
    if takes && length c.buf == c.sz
    then record c { sz = 0; buf = []; got = c.got ++ c.buf ∷ [] }
    else c

abbrev pub least : ℕ → ℕ → ℕ
least a b = if ltb a b then a else b

-- `read` gives as much as is asked for, as is there, and `k` at most; nothing at all is EAGAIN.
unfoldable pub read_body : ℕ → Bool → Connection → Bytes → Connection × Bytes
read_body k takes c s =
    if c.sz == length c.buf then (record c { life = dead; sz = 0; buf = [] }, s) else (
      deliver takes (record c { buf = c.buf ++ take (least k (c.sz - length c.buf)) s }),
      drop (least k (c.sz - length c.buf)) s,
    )

abbrev pub sized : ℕ → Bool → Connection → ℕ → Bytes → Bytes → Connection × Bytes
sized k takes c sz header s =
    if ltb sz 4 || leb (2 ^ 31) sz
    then (record c { life = broken }, s)
    else if ltb max_pdu sz
    then (record c { life = dead }, s)
    else read_body k takes (record c { sz = sz; buf = header }) s

-- The size is an `int`. A short read ends the connection, and so does a size that is too large; one below the
-- four bytes that have been read, or below zero, is not looked at.
unfoldable pub read_size : ℕ → Bool → Connection → Bytes → Connection × Bytes
read_size k takes c (x ∷ y ∷ z ∷ w ∷ s) = sized k takes c (ntohl x y z w) (x ∷ y ∷ z ∷ w ∷ []) s
read_size k takes c _ = (record c { life = dead }, [])

-- Nothing is read where a PDU is complete: it is offered again.
abbrev pub read_alive : ℕ → Bool → Connection → Bytes → Life → Connection × Bytes
read_alive k takes c s alive =
    if c.sz == 0
    then read_size k takes c s
    else if ltb (length c.buf) c.sz
    then read_body k takes c s
    else (deliver takes c, s)
read_alive k takes c s _ = (c, s)

-- A callback with the bytes of the socket. There is one only while there are any.
unfoldable pub read_cb : ℕ → Bool → Connection → Bytes → Connection × Bytes
read_cb k takes c [] = (c, [])
read_cb k takes c (x ∷ s) = read_alive k takes c (x ∷ s) c.life

-- One callback for each pair.
unfoldable pub read_all : List (ℕ × Bool) → Connection → Bytes → Connection × Bytes
read_all [] c s = (c, s)
read_all ((k, takes) ∷ cbs) c s = let (c', s') = read_cb k takes c s in read_all cbs c' s'
