-- ===== src/Rpc/Client/Acked/Issued.antt =====
-- The invariant of the system of a client and its server in src/rpc/rpc.cc, and a call that begins.
use ctgfs.Prelude.{ℕ, ◌+◌, ◌%◌, ◌^◌, ◌≤◌, ◌<◌, ◌≡◌, ◌⊎◌, inl, inr, none, some, List, [], ◌∷◌, arith}
use ctgfs.Rpc.Window.{Reply, check_window}
use ctgfs.Rpc.Window.Order.{IsRising}
use ctgfs.Rpc.Window.Once.{Seen}
use ctgfs.Rpc.Marshall.{ReqHeader}
use ctgfs.Rpc.Client.{Rpcc, started, set_call, CallResult, front, begin_call}
use ctgfs.Rpc.Client.Squeeze.{In}
use ctgfs.Rpc.Client.Xids.{IsExact, front_lem}
use ctgfs.Rpc.Client.Acked.{System, InSent}
use ctgfs.Rpc.Client.Acked.Before.{Before, check-Before}

-- What holds in every state of the system.
pub record IsSound (s : System) : Type 0 where
  pub exact : IsExact s.given s.client.xid_rep_window
  pub acked : (x rep y : ℕ) → InSent x rep s.sent → 1 ≤ y → y ≤ rep → In y s.given
  pub answers : (y : ℕ) → In y s.given → In y s.answered
  pub seen : (y : ℕ) → In y s.answered → Seen y s.window
  pub before : (y : ℕ) → 1 ≤ y → Before y s.window → In y s.given
  pub rising : IsRising s.window
  pub first : In 1 s.given
  pub xid_small : s.client.xid < 2 ^ 32
  pub sent_small : (x rep : ℕ) → InSent x rep s.sent → x < 2 ^ 32
  pub answered_small : (y : ℕ) → In y s.answered → y < 2 ^ 32
  pub done : (x : ℕ) (res : CallResult) → s.client.calls x ≡ some (some res) → In x s.given

pub record Issued (c c' : Rpcc) (h : ReqHeader) : Type 0 where
  same_window : c'.xid_rep_window ≡ c.xid_rep_window
  own_xid : h.xid ≡ c.xid
  own_rep : h.xid_rep ≡ front c.xid_rep_window
  next_small : c'.xid < 2 ^ 32
  same_done :
      (x : ℕ) (res : CallResult) → c'.calls x ≡ some (some res) → c.calls x ≡ some (some res)

pub begin_call-Issued :
    (c c' : Rpcc) (proc : ℕ) (h : ReqHeader) → begin_call c proc ≡ (started h, c') → Issued c c' h
unfolding begin_call
begin_call-Issued c c' proc h e = record {
  same_window = ground arith;
  own_xid = ground arith;
  own_rep = ground arith;
  next_small = let next : c'.xid ≡ (c.xid + 1) % 2 ^ 32 = ground arith in omega arith;
  same_done = λ x res f.
      let calls : c'.calls x ≡ set_call c.calls c.xid (some none) x = ground arith in ground arith;
}

pub issue-IsSound :
    (s : System) (h : ReqHeader) (c : Rpcc)
    → Issued s.client c h
    → IsSound s
    → IsSound (record s { client = c; sent = (h.xid, h.xid_rep) ∷ s.sent })
issue-IsSound s h c i v = record {
  exact = rw i.same_window v.exact;
  acked = λ x rep y m pos le. elim m [
    | inl e ↦ v.exact.low y pos (omega (arith, e.1, i.own_rep, front_lem v.exact))
    | inr m' ↦ v.acked x rep y m' pos le
  ];
  answers = v.answers;
  seen = v.seen;
  before = v.before;
  rising = v.rising;
  first = v.first;
  xid_small = i.next_small;
  sent_small = λ x rep m. elim m [
    | inl e ↦ omega (arith, e.0, i.own_xid, v.xid_small)
    | inr m' ↦ v.sent_small x rep m'
  ];
  answered_small = v.answered_small;
  done = λ x res e. v.done x res (i.same_done x res e);
}

pub check-Before-Seen :
    (y x rep : ℕ) (w : List Reply)
    → IsRising w
    → Seen 1 w
    → (1 ≤ rep → Seen rep w)
    → Before y (check_window x rep w).1
    → Before y w ⊎ (y < rep)
check-Before-Seen y x rep [] r one s b = absurd one
check-Before-Seen y x rep (t ∷ w) r one s b = check-Before y x rep t w r s b
