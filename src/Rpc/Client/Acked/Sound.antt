-- ===== src/Rpc/Client/Acked/Sound.antt =====
-- The steps of the system of a client and its server in src/rpc/rpc.cc keep its invariant.
use ctgfs.Prelude.{ℕ, ◌≤◌, ◌≡◌, refl, ◌⊎◌, inl, inr, some, [], ◌∷◌, arith}
use ctgfs.Prelude.Bytes.{Bytes}
use ctgfs.Rpc.Window.{check_window, fill}
use ctgfs.Rpc.Window.Order.{check-IsRising, fill-IsRising}
use ctgfs.Rpc.Window.Once.{Has, Seen, Has-Seen, check-keeps-Seen, fill-Seen}
use ctgfs.Rpc.Client.{Rpcc, CallResult, got_pdu, end_call, update_xid_rep}
use ctgfs.Rpc.Client.Squeeze.{In}
use ctgfs.Rpc.Client.Xids.{update-IsExact}
use ctgfs.Rpc.Client.Acked.{
  System, InSent, bound_system, Step, issue, deliver, answer, receive, finish, Reach, here, later,
}
use ctgfs.Rpc.Client.Acked.Before.{fill-Before}
use ctgfs.Rpc.Client.Acked.Issued.{IsSound, begin_call-Issued, issue-IsSound, check-Before-Seen}

-- An acknowledged request has been seen by the server.
acked-Seen :
    (s : System)
    → IsSound s
    → (x rep y : ℕ) → InSent x rep s.sent
    → 1 ≤ y
    → y ≤ rep
    → Seen y s.window
acked-Seen s v x rep y m pos le = v.seen y (v.answers y (v.acked x rep y m pos le))

deliver-IsSound :
    (s : System) (x rep : ℕ)
    → InSent x rep s.sent
    → IsSound s
    → IsSound (record s { window = (check_window x rep s.window).1 })
deliver-IsSound s x rep m v = record {
  exact = v.exact;
  acked = v.acked;
  answers = v.answers;
  seen = λ y h. check-keeps-Seen y x rep s.window v.rising (v.seen y h);
  before = λ y pos b.
      elim (check-Before-Seen y x rep s.window v.rising (v.seen 1 (v.answers 1 v.first))
        (λ one. acked-Seen s v x rep rep m one (omega arith)) b) [
          | inl old ↦ v.before y pos old
          | inr low ↦ v.acked x rep y m pos (omega arith)
        ];
  rising = check-IsRising x rep s.window v.rising;
  first = v.first;
  xid_small = v.xid_small;
  sent_small = v.sent_small;
  answered_small = v.answered_small;
  done = v.done;
}

answer-IsSound :
    (s : System) (x rep : ℕ) (b : Bytes)
    → InSent x rep s.sent
    → Has x s.window
    → IsSound s
    → IsSound (record s { window = fill x b s.window; answered = x ∷ s.answered })
answer-IsSound s x rep b m h v = record {
  exact = v.exact;
  acked = v.acked;
  answers = λ y g. inr (v.answers y g);
  seen = λ y h'.
      fill-Seen y x b s.window
        (elim h' [ inl e ↦ rw e (Has-Seen x s.window h) | inr a ↦ v.seen y a ]);
  before = λ y pos low. v.before y pos (fill-Before y x b s.window low);
  rising = fill-IsRising x b s.window v.rising;
  first = v.first;
  xid_small = v.xid_small;
  sent_small = v.sent_small;
  answered_small = λ y h'. elim h' [
    | inl e ↦ omega (arith, v.sent_small x rep m)
    | inr a ↦ v.answered_small y a
  ];
  done = v.done;
}

record Answered (c c' : Rpcc) (x : ℕ) : Type 0 where
  new_window : c'.xid_rep_window ≡ update_xid_rep x c.xid_rep_window
  same_xid : c'.xid ≡ c.xid
  only_done :
      (y : ℕ) (res : CallResult)
      → c'.calls y ≡ some (some res)
      → (y ≡ x) ⊎ (c.calls y ≡ some (some res))

got_pdu-Answered : (c : Rpcc) (x ret : ℕ) (b : Bytes) → Answered c (got_pdu c x ret b) x
unfolding got_pdu
got_pdu-Answered c x ret b = record {
  new_window = ground arith;
  same_xid = ground arith;
  only_done = λ y res e. ground arith;
}

end_call-Answered :
    (c : Rpcc) (x : ℕ) (req : Bytes) (rep : ℕ) → Answered c (end_call c x req rep).1 x
unfolding end_call
end_call-Answered c x req rep = record {
  new_window = ground arith;
  same_xid = ground arith;
  only_done = λ y res e. ground arith;
}

-- A client that has taken in a reply, to a request whose reply was given.
answered-IsSound :
    (s : System) (x : ℕ) (c : Rpcc)
    → In x s.answered
    → Answered s.client c x
    → IsSound s
    → IsSound (record s { client = c; given = x ∷ s.given })
answered-IsSound s x c h a v = record {
  exact =
      rw a.new_window
        (update-IsExact s.given x s.client.xid_rep_window (v.answered_small x h) v.exact);
  acked = λ x' rep y m pos le. inr (v.acked x' rep y m pos le);
  answers = λ y g. elim g [ inl e ↦ rw e h | inr g' ↦ v.answers y g' ];
  seen = v.seen;
  before = λ y pos b. inr (v.before y pos b);
  rising = v.rising;
  first = inr v.first;
  xid_small = omega (arith, a.same_xid, v.xid_small);
  sent_small = v.sent_small;
  answered_small = v.answered_small;
  done = λ y res e. elim (a.only_done y res e) [ inl q ↦ inl q | inr old ↦ inr (v.done y res old) ];
}

-- What was given already need not be listed twice.
forget :
    (s : System) (x : ℕ) → In x s.given → IsSound (record s { given = x ∷ s.given }) → IsSound s
forget s x g v = record {
  exact = record {
    head = v.exact.head;
    tail = v.exact.tail;
    shape = v.exact.shape;
    small = v.exact.small;
    low = λ y pos le. again y (v.exact.low y pos le);
    kept = λ y h. v.exact.kept y (inr h);
    only = λ y h. again y (v.exact.only y h);
    gap = v.exact.gap;
    rising = v.exact.rising;
  };
  acked = λ x' rep y m pos le. again y (v.acked x' rep y m pos le);
  answers = λ y h. v.answers y (inr h);
  seen = v.seen;
  before = λ y pos b. again y (v.before y pos b);
  rising = v.rising;
  first = again 1 v.first;
  xid_small = v.xid_small;
  sent_small = v.sent_small;
  answered_small = v.answered_small;
  done = λ y res e. again y (v.done y res e);
}
  where
    again : (y : ℕ) → In y (x ∷ s.given) → In y s.given
    again y (inl e) = rw e g
    again y (inr h) = h

Step-IsSound : {s t : System} → Step s t → IsSound s → IsSound t
Step-IsSound (issue {s} proc h c e) v =
    issue-IsSound s h c (begin_call-Issued s.client c proc h e) v
Step-IsSound (deliver {s} x rep m) v = deliver-IsSound s x rep m v
Step-IsSound (answer {s} x rep b m h) v = answer-IsSound s x rep b m h v
Step-IsSound (receive {s} x ret b h) v =
    answered-IsSound s x (got_pdu s.client x ret b) h (got_pdu-Answered s.client x ret b) v
Step-IsSound (finish {s} x req rep res e) v =
    let c = (end_call s.client x req rep).1 in
    let g = v.done x res e in
    forget (record s { client = c }) x g
      (answered-IsSound s x c (v.answers x g) (end_call-Answered s.client x req rep) v)

start-IsSound : (c : Rpcc) (b : Bytes) → IsSound (bound_system c b)
start-IsSound c b = record {
  exact = record {
    head = 1;
    tail = [];
    shape = refl;
    small = omega arith;
    low = λ y pos le. inl (omega arith);
    kept = λ y h. elim h [ inl e ↦ inl (omega arith) | inr h' ↦ absurd h' ];
    only = λ y h. absurd h;
    gap = tt;
    rising = tt;
  };
  acked = λ x rep y m pos le. elim m [ inl e ↦ absurd (omega (arith, e.1)) | inr m' ↦ absurd m' ];
  answers = λ y h. h;
  seen = λ y h. inr h;
  before = λ y pos low. absurd (omega arith);
  rising = tt;
  first = inl refl;
  xid_small = omega arith;
  sent_small = λ x rep m. elim m [ inl e ↦ omega (arith, e.0) | inr m' ↦ absurd m' ];
  answered_small = λ y h. elim h [ inl e ↦ omega arith | inr h' ↦ absurd h' ];
  done = λ x res e. cc;
}

pub Reach-IsSound : (c : Rpcc) (b : Bytes) {s : System} → Reach (bound_system c b) s → IsSound s
Reach-IsSound c b here = start-IsSound c b
Reach-IsSound c b (later r st) = Step-IsSound st (Reach-IsSound c b r)
