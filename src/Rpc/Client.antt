-- ===== src/Rpc/Client.antt =====
-- The client endpoint `rpcc` of src/rpc/rpc.cc. What a method does under `m_` is one step; the waiting
-- of `call1` is in Rpc/Client/Wait.
pub mod Squeeze
pub mod Xids
pub mod Acked
pub mod Wait
mod Examples
use ctgfs.Prelude.{
  ℕ, ◌+◌, ◌%◌, ◌^◌, Bool, true, false, Option, none, some, List, [], ◌∷◌, ◌++◌, ltb, leb, ◌==◌,
  if◌then◌else◌, not, ◌&&◌, ◌||◌,
}
use ctgfs.Prelude.Bytes.{Bytes}
use ctgfs.Rpc.Marshall.{ReqHeader}

-- The negative values of `rpc_const`.
pub data Failure : Type 0 where
  timeout_failure unmarshal_args_failure unmarshal_reply_failure atmostonce_failure : Failure
  oldsrv_failure bind_failure cancel_failure : Failure

pub data CallResult : Type 0 where
  replied : ℕ → Bytes → CallResult
  failed : Failure → CallResult

-- `calls_`: a caller is there while its call waits, and `some` result says that it is `done`. The list
-- `xid_rep_window` is not empty. `dup_req` is the request that a lossy client repeats, by its xid.
pub record Rpcc : Type 0 where
  pub clt_nonce : ℕ
  pub srv_nonce : ℕ
  pub bind_done : Bool
  pub xid : ℕ
  pub lossytest : Bool
  pub destroy_wait : Bool
  pub calls : ℕ → Option (Option CallResult)
  pub xid_rep_window : List ℕ
  pub dup_req : Option (ℕ × Bytes)
  pub xid_rep_done : Option ℕ

abbrev pub rpcc : ℕ → Bool → Rpcc
rpcc nonce lossy = record {
  clt_nonce = nonce;
  srv_nonce = 0;
  bind_done = false;
  xid = 1;
  lossytest = lossy;
  destroy_wait = false;
  calls = λ x. none;
  xid_rep_window = 0 ∷ [];
  dup_req = none;
  xid_rep_done = none;
}

abbrev pub front : List ℕ → ℕ
front [] = 0
front (f ∷ w) = f

-- The first loop of `update_xid_rep`, with the `push_back` behind it.
unfoldable pub insert_xid : ℕ → List ℕ → List ℕ
insert_xid x [] = x ∷ []
insert_xid x (y ∷ w) = if ltb x y then x ∷ y ∷ w else y ∷ insert_xid x w

-- `while (xid_rep_window_.front() + 1 == *it) pop_front()`, for the value `x` of `*it`.
unfoldable pub pop_while : ℕ → List ℕ → List ℕ
pop_while x [] = []
pop_while x (f ∷ w) = let rest = pop_while x w in if (f + 1) % 2 ^ 32 == x then rest else f ∷ w

-- The loop at `compress`: what stands before the iterator, and what stands from there on.
unfoldable pub compress : List ℕ → List ℕ → List ℕ
compress before [] = before
compress before (x ∷ ahead) = compress (pop_while x (before ++ x ∷ [])) ahead

abbrev pub compressed : List ℕ → List ℕ
compressed [] = []
compressed (f ∷ w) = compress (f ∷ []) w

unfoldable pub update_xid_rep : ℕ → List ℕ → List ℕ
update_xid_rep x w = if leb x (front w) then w else compressed (insert_xid x w)

abbrev pub set_call {ℓ} : {A : Type ℓ} → (ℕ → A) → ℕ → A → ℕ → A
set_call f x a y = if y == x then a else f y

abbrev pub bind_proc : ℕ
bind_proc = 1

pub data Begun : Type 0 where
  refused : Failure → Begun
  started : ReqHeader → Begun

abbrev pub started_call : Rpcc → ℕ → Begun × Rpcc
started_call c proc = (
  started (record {
    xid = c.xid;
    proc = proc;
    clt_nonce = c.clt_nonce;
    srv_nonce = c.srv_nonce;
    xid_rep = front c.xid_rep_window;
  }),
  record c { xid = (c.xid + 1) % 2 ^ 32; calls = set_call c.calls c.xid (some none) },
)

-- The first block of `call1`.
unfoldable pub begin_call : Rpcc → ℕ → Begun × Rpcc
begin_call c proc =
    if (not (proc == bind_proc) && not c.bind_done) || (proc == bind_proc && c.bind_done)
    then (refused bind_failure, c)
    else if c.destroy_wait
    then (refused cancel_failure, c)
    else started_call c proc

abbrev answer_caller : Rpcc → ℕ → CallResult → Option (Option CallResult) → Rpcc
answer_caller c x res none = c
answer_caller c x res (some none) = record c { calls = set_call c.calls x (some (some res)) }
answer_caller c x res (some (some old)) = c

-- `got_pdu`, for a header that could be read: its xid and return value, and the rest of the reply.
unfoldable pub got_pdu : Rpcc → ℕ → ℕ → Bytes → Rpcc
got_pdu c x ret body =
    answer_caller (record c { xid_rep_window = update_xid_rep x c.xid_rep_window }) x
      (replied ret body) (c.calls x)

-- Before a request is sent: an earlier one is sent again, if a later reply has come since.
abbrev forgotten_of : Rpcc → Option (ℕ × Bytes) → Option ℕ → Option Bytes × Rpcc
forgotten_of c (some (x, buf)) (some rep_done) =
    if ltb x rep_done then (some buf, record c { dup_req = none }) else (none, c)
forgotten_of c _ _ = (none, c)

unfoldable pub take_forgotten : Rpcc → Option Bytes × Rpcc
take_forgotten c = forgotten_of c c.dup_req c.xid_rep_done

abbrev or_dup : Option (ℕ × Bytes) → ℕ → Bytes → Option (ℕ × Bytes)
or_dup none x req = some (x, req)
or_dup (some d) x req = some d

abbrev max_rep : Option ℕ → ℕ → Option ℕ
max_rep none rep = some rep
max_rep (some old) rep = some (if ltb old rep then rep else old)

abbrev remember : Rpcc → ℕ → Bytes → ℕ → Rpcc
remember c x req rep =
    if c.lossytest
    then record c { dup_req = or_dup c.dup_req x req; xid_rep_done = max_rep c.xid_rep_done rep }
    else c

abbrev pub without_call : Rpcc → ℕ → Rpcc
without_call c x = record c {
  calls = set_call c.calls x none;
  xid_rep_window = update_xid_rep x c.xid_rep_window;
}

abbrev end_of : Rpcc → ℕ → Bytes → ℕ → Option (Option CallResult) → CallResult × Rpcc
end_of c x req rep (some (some res)) = (res, remember (without_call c x) x req rep)
end_of c x req rep _ = (failed timeout_failure, without_call c x)

-- The last blocks of `call1`, for a request `req` that was sent with `rep`.
unfoldable pub end_call : Rpcc → ℕ → Bytes → ℕ → CallResult × Rpcc
end_call c x req rep = end_of c x req rep (c.calls x)

-- What `bind` does with the reply to its call.
unfoldable pub bound : Rpcc → ℕ → ℕ → Rpcc
bound c ret r = if ret == 0 then record c { bind_done = true; srv_nonce = r } else c

abbrev cancelled : Option (Option CallResult) → Option (Option CallResult)
cancelled none = none
cancelled (some old) = some (some (failed cancel_failure))

-- `cancel`, up to its wait for the callers to leave.
unfoldable pub cancel : Rpcc → Rpcc
cancel c = record c { calls = λ x. cancelled (c.calls x); destroy_wait = true }
