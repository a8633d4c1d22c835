-- ===== src/Rpc/Dispatch/Examples.antt =====
-- Runs of `rpcs::dispatch` in src/rpc/rpc.cc.
use ctgfs.Prelude.{ℕ, ◌≤◌, ◌≡◌, ◌≢◌, refl, Bool, none, some, [], ◌∷◌, arith, ◌==◌}
use ctgfs.Prelude.Bytes.{Bytes}
use ctgfs.Rpc.Marshall.{ReqHeader}
use ctgfs.Rpc.Window.{is_held, gc, scan, check_window, fill, checkduplicate_and_update, add_reply}
use ctgfs.Rpc.Client.{oldsrv_failure}
use ctgfs.Rpc.Dispatch.{
  run_handler, resend, send_freed, send_failure, arrive, finish, find_job, System, request, reply,
  Reach, here, later, new_server,
}
use ctgfs.Rpc.Dispatch.Answers.{answered_once}

abbrev header : ℕ → ReqHeader
header x = record { xid = x; proc = 5; clt_nonce = 7; srv_nonce = 3; xid_rep = 0 }

abbrev known : ℕ → Bool
known p = p == 5

abbrev s1 : System
s1 = record {
  server = (arrive (new_server 3 known).server (header 1)).1;
  jobs = record { clt = 7; job_xid = 1; result = none } ∷ [];
}

abbrev s2 : System
s2 = record {
  server = finish s1.server (header 1) (8 ∷ []);
  jobs = record { clt = 7; job_xid = 1; result = some (8 ∷ []) } ∷ [];
}

answered : Reach (new_server 3 known) s2
unfolding arrive checkduplicate_and_update check_window
answered = later (later here (request (header 1))) (reply (header 1) (8 ∷ []) (ground arith) refl)

sent_again : (arrive s2.server (header 1)).0 ≡ resend (8 ∷ [])
unfolding arrive finish checkduplicate_and_update check_window add_reply fill scan gc is_held
sent_again = refl

-- The client has sent a request 2 and got its reply; a request 1 that acknowledges it gets freed memory.
abbrev s3 : System
s3 = record s2 { server = (arrive s2.server (header 2)).1 }

sent_freed : (arrive s3.server (record (header 1) { xid_rep = 2 })).0 ≡ send_freed
unfolding arrive finish checkduplicate_and_update check_window add_reply fill scan gc is_held
sent_freed = refl

old_instance :
    (arrive s2.server (record (header 1) { srv_nonce = 4 })).0 ≡ send_failure oldsrv_failure
unfolding arrive finish
old_instance = refl

answered_once_example :
    ((arrive s2.server (header 1)).0 ≡ run_handler → find_job 7 1 s2.jobs ≡ none)
    × ((b : Bytes)
        → (arrive s2.server (header 1)).0 ≡ resend b
        → find_job 7 1 s2.jobs ≡ some (some b))
    × (0 ≤ 1 → (arrive s2.server (header 1)).0 ≢ send_freed)
answered_once_example = answered_once 3 known s2 (header 1) answered (ground arith)
