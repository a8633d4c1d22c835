-- ===== src/Rpc/Marshall/Request.antt =====
-- A whole request of src/rpc/rpc.cc, with its header, as the server reads it.
use ctgfs.Prelude.{
  ℕ, ◌+◌, ◌%◌, ◌^◌, ◌≤◌, ◌<◌, ◌≡◌, refl, sym, ◌∙◌, true, some, List, [], ◌∷◌, ◌++◌, arith, All, map,
  length, take, length-append,
}
use mathlib.Core.List.{append_assoc, append-nil}
use ctgfs.Prelude.Bytes.{Bytes}
use ctgfs.Rpc.Marshall.{
  Marshall, header_sz, Unmarshall, Value, words, put_value, get_values, put_values, put_items,
  put_vector, put_string, put_rawbytes, put_u64, put_u32, put_u16, put_rawbyte, request, unmarshall,
  okdone, be32, ReqHeader, pack_req_header, unpack_req_header,
}
use ctgfs.Rpc.Marshall.RoundTrip.{
  Ahead, Ahead-pre, Ahead-end, Ahead-append, Ahead-take, InRange, kind, read_u32, read_value,
}
use ctgfs.Rpc.Marshall.Buffer.{wire, body-put_value}

abbrev pub flat : List Value → Bytes
flat [] = []
flat (v ∷ vs) = wire v ++ flat vs

body-put_values : (m : Marshall) (vs : List Value) → (put_values m vs).body ≡ m.body ++ flat vs
unfolding put_values
body-put_values m [] = simp append-nil
body-put_values m (v ∷ vs) = simp (body-put_values (put_value m v) vs, body-put_value, append_assoc)

abbrev packed : ReqHeader → Bytes
packed h = be32 h.xid ++ (be32 h.proc ++ (be32 h.clt_nonce ++ (be32 h.srv_nonce ++ be32 h.xid_rep)))

header-put_items : (m : Marshall) (xs : List ℕ) → (put_items put_u64 m xs).header ≡ m.header
unfolding put_items put_u64 put_u32 put_rawbyte
header-put_items m [] = refl
header-put_items m (x ∷ xs) = header-put_items (put_u64 m x) xs

header-put_value : (m : Marshall) (v : Value) → (put_value m v).header ≡ m.header
unfolding put_value put_vector put_string put_rawbytes put_u64 put_u32 put_u16 put_rawbyte
header-put_value m (words xs) = header-put_items (put_u32 m (length xs % 2 ^ 32)) xs
header-put_value m _ = refl

header-put_values : (m : Marshall) (vs : List Value) → (put_values m vs).header ≡ m.header
unfolding put_values
header-put_values m [] = refl
header-put_values m (v ∷ vs) = header-put_values (put_value m v) vs ∙ header-put_value m v

request-eq :
    (junk : Bytes) (h : ReqHeader) (vs : List Value)
    → request junk h vs ≡ (take 4 junk ++ packed h) ++ flat vs
unfolding request pack_req_header
request-eq junk h vs = simp (body-put_values, header-put_values)

read_values :
    (u : Unmarshall) (vs : List Value)
    → u.good ≡ true
    → length u.buf < 2 ^ 31
    → u.ind ≤ length u.buf
    → All InRange vs
    → Ahead u.buf u.ind (flat vs)
    → get_values (map kind vs) u ≡ some (vs, record u { ind = u.ind + length (flat vs) })
unfolding get_values
read_values u [] ok small fits lt h = ground arith
read_values u (v ∷ vs) ok small fits lt h =
    let (a, b) = Ahead-append u.buf u.ind (wire v) (flat vs) h in
    ground (
      arith,
      read_value u v ok small fits lt.0 a,
      read_values (record u { ind = u.ind + length (wire v) }) vs ok small
          ((Ahead-take u.buf u.ind (wire v) a).1 fits) lt.1 b,
      length-append (wire v) (flat vs),
    )

abbrev pub HeaderInRange : ReqHeader → Type 0
HeaderInRange h =
    (h.xid < 2 ^ 32)
    × (h.proc < 2 ^ 32)
    × (h.clt_nonce < 2 ^ 32)
    × (h.srv_nonce < 2 ^ 32)
    × (h.xid_rep < 2 ^ 32)

read_header :
    (buf : Bytes) (h : ReqHeader)
    → length buf < 2 ^ 31
    → HeaderInRange h
    → Ahead buf 4 (packed h)
    → unpack_req_header (unmarshall buf) ≡ (h, record { buf = buf; ind = 24; good = true })
unfolding unpack_req_header
read_header buf h small lt a = ground (
  arith,
  read_u32 (at 4) h.xid small lt.0 p0.0,
  read_u32 (at 8) h.proc small lt.1 p1.0,
  read_u32 (at 12) h.clt_nonce small lt.2 p2.0,
  read_u32 (at 16) h.srv_nonce small lt.3 p3.0,
  read_u32 (at 20) h.xid_rep small lt.4 p3.1,
)
  where
    at : ℕ → Unmarshall
    at i = record { buf = buf; ind = i; good = true }

    p0 :
        Ahead buf 4 (be32 h.xid)
        × Ahead buf 8 (be32 h.proc ++ (be32 h.clt_nonce ++ (be32 h.srv_nonce ++ be32 h.xid_rep)))
    p0 =
        Ahead-append buf 4 (be32 h.xid)
          (be32 h.proc ++ (be32 h.clt_nonce ++ (be32 h.srv_nonce ++ be32 h.xid_rep))) a

    p1 :
        Ahead buf 8 (be32 h.proc)
        × Ahead buf 12 (be32 h.clt_nonce ++ (be32 h.srv_nonce ++ be32 h.xid_rep))
    p1 =
        Ahead-append buf 8 (be32 h.proc) (be32 h.clt_nonce ++ (be32 h.srv_nonce ++ be32 h.xid_rep))
          p0.1

    p2 : Ahead buf 12 (be32 h.clt_nonce) × Ahead buf 16 (be32 h.srv_nonce ++ be32 h.xid_rep)
    p2 = Ahead-append buf 12 (be32 h.clt_nonce) (be32 h.srv_nonce ++ be32 h.xid_rep) p1.1

    p3 : Ahead buf 16 (be32 h.srv_nonce) × Ahead buf 20 (be32 h.xid_rep)
    p3 = Ahead-append buf 16 (be32 h.srv_nonce) (be32 h.xid_rep) p2.1

length-take_four : (junk : Bytes) → length junk ≡ 24 → length (take 4 junk) ≡ 4
length-take_four (a ∷ b ∷ c ∷ d ∷ junk) h = refl
length-take_four [] h = absurd (omega arith)
length-take_four (a ∷ []) h = absurd (omega arith)
length-take_four (a ∷ b ∷ []) h = absurd (omega arith)
length-take_four (a ∷ b ∷ c ∷ []) h = absurd (omega arith)

-- A request with the header `h` and the arguments `vs`, all in the range of their types and shorter than
-- 2 ^ 30 bytes, so that no size overflows an `int`, is read back by the server: the same header, then the
-- same arguments, with nothing left over, so that `okdone` holds. The bytes of the fresh buffer do not matter.
pub request_round_trip :
    (junk : Bytes) (h : ReqHeader) (vs : List Value)
    → length junk ≡ header_sz
    → HeaderInRange h
    → All InRange vs
    → length (request junk h vs) < 2 ^ 30
    → let (h', u) = unpack_req_header (unmarshall (request junk h vs)) in
      (h' ≡ h)
      × ((u' : Unmarshall) × (get_values (map kind vs) u ≡ some (vs, u')) × (okdone u' ≡ true))
unfolding okdone
request_round_trip junk h vs len hr vr small = rw hd (refl, (end, body, ground (arith, total)))
  where
    buf : Bytes
    buf = request junk h vs

    front : Bytes
    front = take 4 junk ++ packed h

    length-front : length front ≡ 24
    length-front = omega (arith, length-append (take 4 junk) (packed h), length-take_four junk len)

    shape : buf ≡ front ++ flat vs
    shape = request-eq junk h vs

    total : length buf ≡ 24 + length (flat vs)
    total = rw shape (omega (arith, length-append front (flat vs), length-front))

    hd : unpack_req_header (unmarshall buf) ≡ (h, record { buf = buf; ind = 24; good = true })
    hd = read_header buf h (omega (arith, small)) hr (
        rw (shape, append_assoc)
          (Ahead-pre (take 4 junk) (packed h) (flat vs) 4 (sym (length-take_four junk len))))

    end : Unmarshall
    end = record { buf = buf; ind = 24 + length (flat vs); good = true }

    ahead : Ahead buf 24 (flat vs)
    ahead = rw shape (Ahead-end front (flat vs) 24 (sym length-front))

    body : get_values (map kind vs) (record { buf = buf; ind = 24; good = true }) ≡ some (vs, end)
    body =
        read_values (record { buf = buf; ind = 24; good = true }) vs refl (omega (arith, small))
          (omega (arith, total)) vr ahead
