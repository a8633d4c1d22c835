-- ===== src/Rpc/Client/Acked.antt =====
-- A bound client and its server over a network that delays, repeats and drops messages: what the
-- acknowledgements of src/rpc/rpc.cc let the server forget.
pub mod Before
pub mod Issued
pub mod Sound
pub mod Kept
pub mod Timeout
use ctgfs.Prelude.{ℕ, ◌≡◌, ◌⊎◌, true, none, some, List, [], ◌∷◌}
use ctgfs.Prelude.Bytes.{Bytes}
use ctgfs.Rpc.Marshall.{ReqHeader}
use ctgfs.Rpc.Window.{Reply, check_window, fill}
use ctgfs.Rpc.Window.Once.{Has}
use ctgfs.Rpc.Client.{Rpcc, Begun, started, CallResult, begin_call, got_pdu, end_call}
use ctgfs.Rpc.Client.Squeeze.{In}

abbrev pub InSent : ℕ → ℕ → List (ℕ × ℕ) → Type 0
InSent x rep [] = ⊥
InSent x rep (m ∷ ms) = ((x ≡ m.0) × (rep ≡ m.1)) ⊎ InSent x rep ms

-- `sent`: the xid and the acknowledgement of each request. `answered`: the requests that the server
-- has replied to. `given`: those whose reply the client has got.
pub record System : Type 0 where
  pub client : Rpcc
  pub sent : List (ℕ × ℕ)
  pub window : List Reply
  pub answered : List ℕ
  pub given : List ℕ

-- The request 1 has bound the client, and it may still be under way.
abbrev pub bound_system : Rpcc → Bytes → System
bound_system c b = record {
  client = record c { xid = 2; bind_done = true; xid_rep_window = 1 ∷ []; calls = λ x. none };
  sent = (1, 0) ∷ [];
  window = record { xid = 1; cb_present = true; buf = b } ∷ [];
  answered = 1 ∷ [];
  given = 1 ∷ [];
}

-- `deliver` is a request that reaches the server, now or again. A call ends by its reply.
pub data Step : System → System → Type 0 where
  issue :
      {s : System} (proc : ℕ) (h : ReqHeader) (c : Rpcc)
      → begin_call s.client proc ≡ (started h, c)
      → Step s (record s { client = c; sent = (h.xid, h.xid_rep) ∷ s.sent })
  deliver :
      {s : System} (x rep : ℕ)
      → InSent x rep s.sent
      → Step s (record s { window = (check_window x rep s.window).1 })
  answer :
      {s : System} (x rep : ℕ) (b : Bytes)
      → InSent x rep s.sent
      → Has x s.window
      → Step s (record s { window = fill x b s.window; answered = x ∷ s.answered })
  receive :
      {s : System} (x ret : ℕ) (b : Bytes)
      → In x s.answered
      → Step s (record s { client = got_pdu s.client x ret b; given = x ∷ s.given })
  finish :
      {s : System} (x : ℕ) (req : Bytes) (rep : ℕ) (res : CallResult)
      → s.client.calls x ≡ some (some res)
      → Step s (record s { client = (end_call s.client x req rep).1 })

pub data Reach (s : System) : System → Type 0 where
  here : Reach s s
  later : {t u : System} → Reach s t → Step t u → Reach s u
