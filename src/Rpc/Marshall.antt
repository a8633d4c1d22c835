-- ===== src/Rpc/Marshall.antt =====
-- The wire format: `marshall` and `unmarshall` of src/include/rpc/marshall.h and src/rpc/rpc.cc.
-- The first 24 bytes of a buffer (RPC_HEADER_SZ, without checksumming) belong to the header.
pub mod Buffer
pub mod RoundTrip
pub mod Request
pub mod Overread
mod Examples
use ctgfs.Prelude.{
  ℕ, zero, suc, ◌+◌, ◌*◌, ◌/◌, ◌%◌, ◌^◌, Bool, true, false, Option, none, some, List, [], ◌∷◌, ◌++◌,
  ◌&&◌, ◌==◌, ltb, leb, if◌then◌else◌, length, get_elem?, take, drop,
}
use ctgfs.Prelude.Bytes.{Bytes}

abbrev pub header_sz : ℕ
header_sz = 24

-- `<` of two `int`, from their low 32 bits.
abbrev pub int_ltb : ℕ → ℕ → Bool
int_ltb a b = ltb ((a + 2 ^ 31) % 2 ^ 32) ((b + 2 ^ 31) % 2 ^ 32)

-- `_ind` is the length of `header` and `body` together. It and `_capa` are an `int`; `capa` has its 32 bits.
pub record Marshall : Type 0 where
  pub header : Bytes
  pub body : Bytes
  pub capa : ℕ

abbrev pub m_ind : Marshall → ℕ
m_ind m = header_sz + length m.body

-- The buffer starts with 1024 bytes, whose header part holds whatever `malloc` left there.
abbrev pub marshall : Bytes → Marshall
marshall junk = record { header = junk; body = []; capa = 1024 }

unfoldable pub put_rawbyte : Marshall → ℕ → Marshall
put_rawbyte m x = record m {
  body = m.body ++ (x % 256) ∷ [];
  capa = if int_ltb (m_ind m) m.capa then m.capa else m.capa * 2 % 2 ^ 32;
}

-- The number of bytes is an `int` too, so that from 2^31 bytes on it is below zero.
unfoldable pub put_rawbytes : Marshall → Bytes → Marshall
put_rawbytes m s =
    let n = length s in
    record m {
      body = m.body ++ s;
      capa =
          if int_ltb m.capa (m_ind m + n)
          then if int_ltb n m.capa then 2 * m.capa % 2 ^ 32 else (m.capa + n) % 2 ^ 32
          else m.capa;
    }

-- `operator<<`, for bool and char by their byte, for int by its bit pattern.
unfoldable pub put_u16 : Marshall → ℕ → Marshall
put_u16 m x = put_rawbyte (put_rawbyte m (x / 2 ^ 8)) x

unfoldable pub put_u32 : Marshall → ℕ → Marshall
put_u32 m x =
    put_rawbyte (put_rawbyte (put_rawbyte (put_rawbyte m (x / 2 ^ 24)) (x / 2 ^ 16)) (x / 2 ^ 8)) x

unfoldable pub put_u64 : Marshall → ℕ → Marshall
put_u64 m x = put_u32 (put_u32 m (x / 2 ^ 32 % 2 ^ 32)) (x % 2 ^ 32)

unfoldable pub put_string : Marshall → Bytes → Marshall
put_string m s = put_rawbytes (put_u32 m (length s % 2 ^ 32)) s

unfoldable pub put_items : {A : Type 0} → (Marshall → A → Marshall) → Marshall → List A → Marshall
put_items put m [] = m
put_items put m (x ∷ xs) = put_items put (put m x) xs

-- `operator<<` of a vector, over that of its elements.
unfoldable pub put_vector : {A : Type 0} → (Marshall → A → Marshall) → Marshall → List A → Marshall
put_vector put m xs = put_items put (put_u32 m (length xs % 2 ^ 32)) xs

-- `_ind` and `_sz` are an `int`; `ind` and the length of `buf` have their 32 bits.
pub record Unmarshall : Type 0 where
  pub buf : Bytes
  pub ind : ℕ
  pub good : Bool

-- `_ok` of the class is `good`. A read past the end returns 0 and clears it.
abbrev pub read_at : Unmarshall → Option ℕ → ℕ × Unmarshall
read_at u none = (0, record u { good = false })
read_at u (some c) = (c, record u { ind = u.ind + 1 })

unfoldable pub get_rawbyte : Unmarshall → ℕ × Unmarshall
get_rawbyte u = read_at u (if int_ltb u.ind (length u.buf) then get_elem? u.buf u.ind else none)

-- The shifted bytes have no bit in common, so `|` is a sum.
unfoldable pub get_u16 : Unmarshall → ℕ × Unmarshall
get_u16 u0 =
    let (a, u1) = get_rawbyte u0 in let (b, u2) = get_rawbyte u1 in (a % 256 * 2 ^ 8 + b % 256, u2)

unfoldable pub get_u32 : Unmarshall → ℕ × Unmarshall
get_u32 u0 =
    let (a, u1) = get_rawbyte u0 in
    let (b, u2) = get_rawbyte u1 in
    let (c, u3) = get_rawbyte u2 in
    let (d, u4) = get_rawbyte u3 in
    (a % 256 * 2 ^ 24 + b % 256 * 2 ^ 16 + c % 256 * 2 ^ 8 + d % 256, u4)

unfoldable pub get_u64 : Unmarshall → ℕ × Unmarshall
get_u64 u0 = let (h, u1) = get_u32 u0 in let (l, u2) = get_u32 u1 in (l + h * 2 ^ 32, u2)

-- `rawbytes(ss, n)` compares `_ind + n` as unsigned 32-bit numbers. `none`: it builds the string
-- from bytes beyond the end of the buffer.
unfoldable pub get_rawbytes : Unmarshall → Bytes → ℕ → Option (Bytes × Unmarshall)
get_rawbytes u ss n =
    if ltb (length u.buf) ((u.ind + n) % 2 ^ 32)
    then some (ss, record u { good = false })
    else if ltb (length u.buf) (u.ind + n)
    then none
    else some (take n (drop u.ind u.buf), record u { ind = u.ind + n })

-- The string keeps its old value `ss` where nothing is read.
unfoldable pub get_string : Unmarshall → Bytes → Option (Bytes × Unmarshall)
get_string u0 ss =
    let (n, u1) = get_u32 u0 in if u1.good then get_rawbytes u1 ss n else some (ss, u1)

unfoldable pub get_items :
    {A : Type 0} → (Unmarshall → A × Unmarshall) → ℕ → Unmarshall → List A × Unmarshall
get_items get zero u = ([], u)
get_items get (suc n) u0 = let (x, u1) = get u0 in let (xs, u2) = get_items get n u1 in (x ∷ xs, u2)

-- `operator>>` of a vector, which appends to `v`.
unfoldable pub get_vector :
    {A : Type 0} → (Unmarshall → A × Unmarshall) → Unmarshall → List A → List A × Unmarshall
get_vector get u0 v = let (n, u1) = get_u32 u0 in let (xs, u2) = get_items get n u1 in (v ++ xs, u2)

unfoldable pub okdone : Unmarshall → Bool
okdone u = u.good && u.ind == length u.buf

-- `req_header`
pub record ReqHeader : Type 0 where
  pub xid : ℕ
  pub proc : ℕ
  pub clt_nonce : ℕ
  pub srv_nonce : ℕ
  pub xid_rep : ℕ

abbrev pub be32 : ℕ → Bytes
be32 x = (x / 2 ^ 24 % 256) ∷ (x / 2 ^ 16 % 256) ∷ (x / 2 ^ 8 % 256) ∷ (x % 256) ∷ []

-- `pack` at offset 4, over the bytes that stand there.
unfoldable pub pack_req_header : Marshall → ReqHeader → Marshall
pack_req_header m h = record m {
  header =
      take 4 m.header
      ++ (be32 h.xid
          ++ (be32 h.proc ++ (be32 h.clt_nonce ++ (be32 h.srv_nonce ++ be32 h.xid_rep))));
}

unfoldable pub unpack_req_header : Unmarshall → ReqHeader × Unmarshall
unpack_req_header u =
    let (a, u1) = get_u32 (record u { ind = 4 }) in
    let (b, u2) = get_u32 u1 in
    let (c, u3) = get_u32 u2 in
    let (d, u4) = get_u32 u3 in
    let (e, u5) = get_u32 u4 in
    (
      record { xid = a; proc = b; clt_nonce = c; srv_nonce = d; xid_rep = e },
      record u5 { ind = header_sz },
    )

-- The arguments of a handler, by the overloads that the protocols use.
pub data Kind : Type 0 where
  half word wide text words : Kind

pub data Value : Type 0 where
  half word wide : ℕ → Value
  text : Bytes → Value
  words : List ℕ → Value

unfoldable pub put_value : Marshall → Value → Marshall
put_value m (half x) = put_u16 m x
put_value m (word x) = put_u32 m x
put_value m (wide x) = put_u64 m x
put_value m (text s) = put_string m s
put_value m (words xs) = put_vector put_u64 m xs

abbrev pub always : {A : Type 0} → (A → Value) → A × Unmarshall → Option (Value × Unmarshall)
always f (a, u) = some (f a, u)

abbrev pub perhaps : Option (Bytes × Unmarshall) → Option (Value × Unmarshall)
perhaps none = none
perhaps (some (s, u)) = some (text s, u)

unfoldable pub get_value : Kind → Unmarshall → Option (Value × Unmarshall)
get_value half u = always half (get_u16 u)
get_value word u = always word (get_u32 u)
get_value wide u = always wide (get_u64 u)
get_value text u = perhaps (get_string u [])
get_value words u = always words (get_vector get_u64 u [])

-- `m << a1; m << a2; …` of `rpcc::call`.
unfoldable pub put_values : Marshall → List Value → Marshall
put_values m [] = m
put_values m (v ∷ vs) = put_values (put_value m v) vs

-- `args >> a1; args >> a2; …` of the handlers that `rpcs::reg` makes.
abbrev pub prepend : Value → Option (List Value × Unmarshall) → Option (List Value × Unmarshall)
prepend v none = none
prepend v (some (vs, u)) = some (v ∷ vs, u)

abbrev pub and_then :
    Option (Value × Unmarshall)
    → (Unmarshall → Option (List Value × Unmarshall))
    → Option (List Value × Unmarshall)
and_then none k = none
and_then (some (v, u)) k = prepend v (k u)

unfoldable pub get_values : List Kind → Unmarshall → Option (List Value × Unmarshall)
get_values [] u = some ([], u)
get_values (k ∷ ks) u = and_then (get_value k u) (λ u'. get_values ks u')

-- The whole request, as the channel sends it (`cstr` and `size`), and as `dispatch` receives it.
unfoldable pub request : Bytes → ReqHeader → List Value → Bytes
unfolding put_values pack_req_header
request junk h vs = let m = pack_req_header (put_values (marshall junk) vs) h in m.header ++ m.body

abbrev pub unmarshall : Bytes → Unmarshall
unmarshall b = record { buf = b; ind = 0; good = true }
