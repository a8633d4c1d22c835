-- ===== src/Rpc/Marshall/Examples.antt =====
-- A request on the wire, and the theorems about it at a concrete message.
use ctgfs.Prelude.{◌-◌, ◌^◌, ◌≡◌, refl, true, none, some, List, [], ◌∷◌, arith, map}
use ctgfs.Prelude.Bytes.{Bytes}
use ctgfs.Rpc.Marshall.{
  marshall, Unmarshall, unmarshall, ReqHeader, Value, wide, text, words, request, put_value,
  put_items, put_vector, put_string, put_rawbytes, put_u64, put_u32, put_rawbyte, unpack_req_header,
  get_values, get_rawbytes, okdone,
}
use ctgfs.Rpc.Marshall.Buffer.{IsRoomy, put_value-IsRoomy}
use ctgfs.Rpc.Marshall.RoundTrip.{kind}
use ctgfs.Rpc.Marshall.Request.{request_round_trip}
use ctgfs.Rpc.Marshall.Overread.{overread_of_wrap}

abbrev junk : Bytes
junk =
    9 ∷ 9 ∷ 9 ∷ 9 ∷ 9 ∷ 9 ∷ 9 ∷ 9 ∷ 9 ∷ 9 ∷ 9 ∷ 9 ∷ 9 ∷ 9 ∷ 9 ∷ 9 ∷ 9 ∷ 9 ∷ 9 ∷ 9 ∷ 9 ∷ 9 ∷ 9 ∷ 9
    ∷ []

abbrev header : ReqHeader
header = record { xid = 3; proc = 0x6001; clt_nonce = 77; srv_nonce = 0; xid_rep = 2 }

abbrev args : List Value
args = wide 0x1_0000_0002 ∷ text (104 ∷ 105 ∷ []) ∷ words (7 ∷ []) ∷ []

-- An id of 8 bytes, a string of 4 + 2, a vector of 4 + 8.
request_bytes :
    request junk header (wide 0x1_0000_0002 ∷ text (104 ∷ 105 ∷ []) ∷ [])
    ≡ 9 ∷ 9 ∷ 9 ∷ 9 ∷ 0 ∷ 0 ∷ 0 ∷ 3 ∷ 0 ∷ 0 ∷ 96 ∷ 1 ∷ 0 ∷ 0 ∷ 0 ∷ 77 ∷ 0 ∷ 0 ∷ 0 ∷ 0 ∷ 0 ∷ 0 ∷ 0
      ∷ 2 ∷ 0 ∷ 0 ∷ 0 ∷ 1 ∷ 0 ∷ 0 ∷ 0 ∷ 2 ∷ 0 ∷ 0 ∷ 0 ∷ 2 ∷ 104 ∷ 105 ∷ []
unfolding request put_value put_string put_rawbytes put_u64 put_u32 put_rawbyte
request_bytes = refl

request_round_trip_example :
    let (h', u) = unpack_req_header (unmarshall (request junk header args)) in
    (h' ≡ header)
    × ((u' : Unmarshall) × (get_values (map kind args) u ≡ some (args, u')) × (okdone u' ≡ true))
unfolding request put_value put_vector put_items put_string put_rawbytes put_u64 put_u32 put_rawbyte
request_round_trip_example =
    request_round_trip junk header args refl (omega arith) (omega arith) (omega arith)

put_value-IsRoomy_example : IsRoomy (put_value (marshall junk) (text (104 ∷ 105 ∷ [])))
unfolding put_value put_string put_rawbytes put_u32 put_rawbyte
put_value-IsRoomy_example =
    put_value-IsRoomy (marshall junk) (text (104 ∷ 105 ∷ [])) (omega arith) (omega arith)

overread_of_wrap_example :
    get_rawbytes (record { buf = 1 ∷ 2 ∷ []; ind = 2; good = true }) [] (2 ^ 32 - 1) ≡ none
overread_of_wrap_example =
    overread_of_wrap (record { buf = 1 ∷ 2 ∷ []; ind = 2; good = true }) [] 1 (omega arith)
      (omega arith) (omega arith) (omega arith)
