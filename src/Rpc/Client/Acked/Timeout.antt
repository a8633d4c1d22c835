-- ===== src/Rpc/Client/Acked/Timeout.antt =====
-- What a call that times out does to the later requests of its client, in src/rpc/rpc.cc.
use ctgfs.Prelude.{
  ℕ, ◌+◌, ◌%◌, ◌^◌, ◌<◌, ◌≡◌, ◌≢◌, refl, ap, true, false, none, some, [], ◌∷◌, arith,
}
use ctgfs.Prelude.Bytes.{Bytes}
use ctgfs.Rpc.Marshall.{ReqHeader}
use ctgfs.Rpc.Window.{Reply, new, forgotten, reply_t, gc, scan, check_window}
use ctgfs.Rpc.Client.{
  Rpcc, started, bind_proc, started_call, without_call, front, insert_xid, pop_while, compress,
  update_xid_rep, begin_call, end_call,
}

-- A client that has all replies up to `n`, and no call under way.
pub record IsIdle (c : Rpcc) (n : ℕ) : Type 0 where
  pub window : c.xid_rep_window ≡ n ∷ []
  pub next : c.xid ≡ n + 1
  pub bound : c.bind_done ≡ true
  pub open_ : c.destroy_wait ≡ false

-- The client after a call of `proc` that ends with no reply.
abbrev pub after_timeout : Rpcc → ℕ → Bytes → Rpcc
after_timeout c proc req = (end_call (begin_call c proc).1 c.xid req (front c.xid_rep_window)).1

update_next : (n : ℕ) → n + 1 < 2 ^ 32 → update_xid_rep (n + 1) (n ∷ []) ≡ (n + 1) ∷ []
unfolding update_xid_rep insert_xid compress pop_while
update_next n h = ground arith

begin_ready :
    (c : Rpcc) (proc : ℕ)
    → proc ≢ bind_proc
    → c.bind_done ≡ true
    → c.destroy_wait ≡ false
    → begin_call c proc ≡ started_call c proc
unfolding begin_call
begin_ready c proc p b o = ground arith

end_pending :
    (c : Rpcc) (x : ℕ) (req : Bytes) (rep : ℕ)
    → c.calls x ≡ some none
    → (end_call c x req rep).1 ≡ without_call c x
unfolding end_call
end_pending c x req rep e = rw e refl

after_timeout_lem :
    (c : Rpcc) (n proc : ℕ) (req : Bytes)
    → proc ≢ bind_proc
    → IsIdle c n
    → after_timeout c proc req ≡ without_call (started_call c proc).1 c.xid
after_timeout_lem c n proc req p i =
    rw (after_timeout, begin_ready c proc p i.bound i.open_)
      (end_pending (started_call c proc).1 c.xid req (front c.xid_rep_window) (ground arith))

after_timeout-IsIdle :
    (c : Rpcc) (n proc : ℕ) (req : Bytes)
    → n + 4 < 2 ^ 32
    → proc ≢ bind_proc
    → IsIdle c n
    → IsIdle (after_timeout c proc req) (n + 1)
after_timeout-IsIdle c n proc req h p i = rw (after_timeout_lem c n proc req p i) (record {
  window = rw (i.window, i.next) (update_next n (omega arith));
  next = omega (arith, i.next);
  bound = i.bound;
  open_ = i.open_;
})

check_next :
    (n : ℕ) (r : Reply)
    → r.xid ≡ n
    → check_window (n + 3) (n + 1) (r ∷ []) ≡ (new, reply_t (n + 3) ∷ [])
unfolding check_window scan gc
check_next n r e = ground arith

check_late : (n : ℕ) → (check_window (n + 2) (n + 1) (reply_t (n + 3) ∷ [])).0 ≡ forgotten
unfolding check_window
check_late n = ground arith

-- The client is bound and has all replies up to `n`, where `n` + 4 is below 2^32, and the server has the
-- entry of request `n`. The next request is lost, and its call times out; of the two after it, none of
-- them a bind, which acknowledge it all the same, the second comes first: then the first, which the server
-- never saw, is answered FORGOTTEN.
pub timeout_forgets :
    (c : Rpcc) (n p1 p2 p3 : ℕ) (req : Bytes) (r : Reply)
    → n + 4 < 2 ^ 32
    → p1 ≢ bind_proc
    → p2 ≢ bind_proc
    → p3 ≢ bind_proc
    → IsIdle c n
    → r.xid ≡ n
    → (h2 h3 : ReqHeader) × (c2 c3 : Rpcc) × (begin_call (after_timeout c p1 req) p2
        ≡ (started h2, c2))
      × (begin_call c2 p3 ≡ (started h3, c3))
      × (h2.xid ≡ n + 2)
      × ((check_window h3.xid h3.xid_rep (r ∷ [])).0 ≡ new)
      × ((check_window h2.xid h2.xid_rep (check_window h3.xid h3.xid_rep (r ∷ [])).1).0 ≡ forgotten)
timeout_forgets c n p1 p2 p3 req r h q1 q2 q3 i e = (
  _,
  _,
  c2,
  (started_call c2 p3).1,
  begin_ready c1 p2 q2 idle.bound idle.open_,
  begin_ready c2 p3 q3 idle.bound idle.open_,
  omega (arith, idle.next),
  rw (third, acked, check_next n r e) refl,
  rw (third, acked, second, check_next n r e) (check_late n),
)
  where
    c1 : Rpcc
    c1 = after_timeout c p1 req

    idle : IsIdle c1 (n + 1)
    idle = after_timeout-IsIdle c n p1 req h q1 i

    c2 : Rpcc
    c2 = (started_call c1 p2).1

    second : c1.xid ≡ n + 2
    second = omega (arith, idle.next)

    third : (c1.xid + 1) % 2 ^ 32 ≡ n + 3
    third = omega (arith, idle.next)

    acked : front c1.xid_rep_window ≡ n + 1
    acked = ap front idle.window
