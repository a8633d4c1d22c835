-- ===== src/Rpc/Client/Examples.antt =====
-- Runs of the client of src/rpc/rpc.cc.
use ctgfs.Prelude.{ℕ, ◌+◌, ◌≤◌, ◌≡◌, refl, inl, inr, true, false, some, [], ◌∷◌, arith}
use ctgfs.Rpc.Marshall.{ReqHeader}
use ctgfs.Rpc.Window.{new, forgotten, reply_t, gc, scan, check_window, fill}
use ctgfs.Rpc.Client.{
  Rpcc, replied, rpcc, front, started, update_xid_rep, insert_xid, pop_while, compress, begin_call,
  got_pdu, end_call,
}
use ctgfs.Rpc.Client.Squeeze.{In}
use ctgfs.Rpc.Client.Xids.{window_after, front_exact}
use ctgfs.Rpc.Client.Acked.{
  System, issue, deliver, answer, receive, finish, Reach, here, later, bound_system,
}
use ctgfs.Rpc.Client.Acked.Kept.{forgotten_was_given}
use ctgfs.Rpc.Client.Acked.Timeout.{IsIdle, after_timeout, timeout_forgets}
use ctgfs.Rpc.Client.Wait.{Rounds, Waited, wait_loop, curr_to, Ticks, call_ends}

gap_filled : update_xid_rep 2 (1 ∷ 3 ∷ 4 ∷ 6 ∷ []) ≡ 4 ∷ 6 ∷ []
unfolding update_xid_rep insert_xid pop_while compress
gap_filled = refl

gap_kept : update_xid_rep 5 (1 ∷ 3 ∷ []) ≡ 1 ∷ 3 ∷ 5 ∷ []
unfolding update_xid_rep insert_xid pop_while compress
gap_kept = refl

old_ignored : update_xid_rep 3 (4 ∷ 6 ∷ []) ≡ 4 ∷ 6 ∷ []
unfolding update_xid_rep
old_ignored = refl

late_first : front (window_after (3 ∷ 1 ∷ [])) ≡ 1
unfolding update_xid_rep insert_xid pop_while compress window_after
late_first = refl

front_exact_example :
    ((y : ℕ) → 1 ≤ y → y ≤ front (window_after (3 ∷ 1 ∷ [])) → In y (3 ∷ 1 ∷ []))
    × (¬ In (front (window_after (3 ∷ 1 ∷ [])) + 1) (3 ∷ 1 ∷ []))
front_exact_example = front_exact (3 ∷ 1 ∷ []) (ground arith)

abbrev client : Rpcc
client = rpcc 7 false

abbrev s0 : System
s0 = bound_system client []

-- Two calls, and the request of the first comes again after both.
abbrev s1 : System
s1 = record s0 { client = (begin_call s0.client 5).1; sent = (2, 1) ∷ (1, 0) ∷ [] }

abbrev s2 : System
s2 = record s1 { window = (check_window 2 1 s1.window).1 }

abbrev s3 : System
s3 = record s2 { window = fill 2 (9 ∷ []) s2.window; answered = 2 ∷ 1 ∷ [] }

abbrev s4 : System
s4 = record s3 { client = got_pdu s3.client 2 0 (9 ∷ []); given = 2 ∷ 1 ∷ [] }

abbrev s5 : System
s5 = record s4 { client = (end_call s4.client 2 [] 1).1 }

abbrev s6 : System
s6 = record s5 { client = (begin_call s5.client 5).1; sent = (3, 2) ∷ (2, 1) ∷ (1, 0) ∷ [] }

abbrev s7 : System
s7 = record s6 { window = (check_window 3 2 s6.window).1 }

two_calls : Reach s0 s7
unfolding begin_call check_window scan gc fill got_pdu end_call update_xid_rep insert_xid pop_while
    compress
two_calls =
    later
      (later
        (later
          (later
            (later (later (later here (issue 5 _ _ refl)) (deliver 2 1 (inl (refl, refl))))
              (answer 2 1 (9 ∷ []) (inl (refl, refl)) (inr (inl refl))))
            (receive 2 0 (9 ∷ []) (inl refl)))
          (finish 2 [] 1 (replied 0 (9 ∷ [])) refl))
        (issue 5 _ _ refl))
      (deliver 3 2 (inl (refl, refl)))

first_forgotten : (check_window 1 0 s7.window).0 ≡ forgotten
unfolding begin_call check_window scan gc fill got_pdu end_call update_xid_rep insert_xid pop_while
    compress
first_forgotten = refl

forgotten_was_given_example : In 1 s7.given
forgotten_was_given_example =
    forgotten_was_given client [] s7 1 0 two_calls (ground arith) first_forgotten

abbrev idle : Rpcc
idle = record client { xid = 2; bind_done = true; xid_rep_window = 1 ∷ [] }

idle-IsIdle : IsIdle idle 1
idle-IsIdle = record { window = refl; next = refl; bound = refl; open_ = refl }

timeout_forgets_example :
    (h2 h3 : ReqHeader) × (c2 c3 : Rpcc) × (begin_call (after_timeout idle 5 []) 5
      ≡ (started h2, c2))
    × (begin_call c2 5 ≡ (started h3, c3))
    × (h2.xid ≡ 3)
    × ((check_window h3.xid h3.xid_rep (reply_t 1 ∷ [])).0 ≡ new)
    × ((check_window h2.xid h2.xid_rep (check_window h3.xid h3.xid_rep (reply_t 1 ∷ [])).1).0
        ≡ forgotten)
timeout_forgets_example =
    timeout_forgets idle 1 5 5 5 [] (reply_t 1) (ground arith) (ground arith) (ground arith)
      (ground arith) idle-IsIdle refl

-- No reply comes, and each wait takes its time.
abbrev silent : Rounds
silent = record { clock = λ round. curr_to round; done = λ round. false }

silent-Ticks : Ticks silent 100 3100
unfolding curr_to
silent-Ticks = record {
  from_start = ground arith;
  waited = (λ round not_yet in_time. ground arith);
}

call_ends_example : (w : Waited) × (wait_loop 24 silent 0 (some 3100) ≡ some w)
call_ends_example = call_ends silent 100 3000 (ground arith) silent-Ticks
