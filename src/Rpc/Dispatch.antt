-- ===== src/Rpc/Dispatch.antt =====
-- What the server does with a request, `rpcs::dispatch` in src/rpc/rpc.cc: `arrive` up to the call of the
-- handler, `finish` behind it. A handler runs with no mutex held, so other requests come in between.
pub mod Sound
pub mod Answers
mod Examples
use ctgfs.Prelude.{
  ℕ, ◌≡◌, ◌≢◌, Bool, Option, none, some, List, [], ◌∷◌, ◌==◌, if◌then◌else◌, not, ◌&&◌,
}
use ctgfs.Prelude.Bytes.{Bytes}
use ctgfs.Rpc.Marshall.{ReqHeader}
use ctgfs.Rpc.Window.{
  RpcState, new, inprogress, done, done_freed, forgotten, Windows, no_windows,
  checkduplicate_and_update, add_reply,
}
use ctgfs.Rpc.Client.{Failure, oldsrv_failure, atmostonce_failure}

-- The part of `rpcs` that `dispatch` reads and writes: `registered` says which procedures are in `procs_`.
pub record Server : Type 0 where
  pub nonce : ℕ
  pub registered : ℕ → Bool
  pub windows : Windows

-- What the thread of a request does next. `stop_server` is `VERIFY(0)` on an unknown procedure,
-- `send_freed` a send of a buffer that the check has deleted.
pub data Action : Type 0 where
  send_failure : Failure → Action
  resend : Bytes → Action
  run_handler leave_alone send_freed stop_server : Action

-- The cases of `switch (stat)`.
abbrev pub action_of : RpcState → Action
action_of new = run_handler
action_of inprogress = leave_alone
action_of (done b) = resend b
action_of done_freed = send_freed
action_of forgotten = send_failure atmostonce_failure

abbrev pub check_request : Server → ReqHeader → Action × Server
check_request s h =
    let r = checkduplicate_and_update s.windows h.clt_nonce h.xid h.xid_rep in
    (action_of r.0, record s { windows = r.1 })

unfoldable pub arrive : Server → ReqHeader → Action × Server
arrive s h =
    if not (h.srv_nonce == 0) && not (h.srv_nonce == s.nonce)
    then (send_failure oldsrv_failure, s)
    else if not (s.registered h.proc)
    then (stop_server, s)
    else if h.clt_nonce == 0
    then (run_handler, s)
    else check_request s h

-- The handler has made the reply `b`, which is sent in any case.
unfoldable pub finish : Server → ReqHeader → Bytes → Server
finish s h b =
    if h.clt_nonce == 0 then s else record s { windows = add_reply s.windows h.clt_nonce h.xid b }

-- The runs of handlers for clients that have a nonce; `some` result is the reply of a run.
pub record Job : Type 0 where
  pub clt : ℕ
  pub job_xid : ℕ
  pub result : Option Bytes

abbrev pub is_of : ℕ → ℕ → Job → Bool
is_of clt x j = (j.clt == clt) && (j.job_xid == x)

abbrev pub find_job : ℕ → ℕ → List Job → Option (Option Bytes)
find_job clt x [] = none
find_job clt x (j ∷ jobs) = if is_of clt x j then some j.result else find_job clt x jobs

abbrev pub complete : ℕ → ℕ → Bytes → List Job → List Job
complete clt x b [] = []
complete clt x b (j ∷ jobs) =
    if is_of clt x j then record j { result = some b } ∷ jobs else j ∷ complete clt x b jobs

pub record System : Type 0 where
  pub server : Server
  pub jobs : List Job

abbrev pub started_job : System → ReqHeader → Action × Server → System
started_job s h (run_handler, sv) = record {
  server = sv;
  jobs =
      if h.clt_nonce == 0
      then s.jobs
      else record { clt = h.clt_nonce; job_xid = h.xid; result = none } ∷ s.jobs;
}
started_job s h (_, sv) = record s { server = sv }

-- A request comes, and perhaps has its handler run; a run that is under way ends with a reply.
pub data Step : System → System → Type 0 where
  request : {s : System} (h : ReqHeader) → Step s (started_job s h (arrive s.server h))
  reply :
      {s : System} (h : ReqHeader) (b : Bytes)
      → h.clt_nonce ≢ 0
      → find_job h.clt_nonce h.xid s.jobs ≡ some none
      → Step s (record { server = finish s.server h b; jobs = complete h.clt_nonce h.xid b s.jobs })

pub data Reach (s : System) : System → Type 0 where
  here : Reach s s
  later : {t u : System} → Reach s t → Step t u → Reach s u

abbrev pub new_server : ℕ → (ℕ → Bool) → System
new_server nonce registered = record {
  server = record { nonce = nonce; registered = registered; windows = no_windows };
  jobs = [];
}
