-- ===== src/Rpc/Dispatch/Answers.antt =====
-- The answers that the requests of src/rpc/rpc.cc get from rpcs::dispatch.
use ctgfs.Prelude.{ℕ, ◌≤◌, ◌≡◌, ◌≢◌, refl, ap, sym, ◌∙◌, inl, inr, Bool, none, some, arith}
use ctgfs.Prelude.Bytes.{Bytes}
use ctgfs.Rpc.Marshall.{ReqHeader}
use ctgfs.Rpc.Window.{
  RpcState, new, inprogress, done, done_freed, forgotten, checkduplicate_and_update,
}
use ctgfs.Rpc.Window.Entries.{check-done, check-keeps_buf}
use ctgfs.Rpc.Dispatch.{
  run_handler, resend, send_freed, action_of, arrive, find_job, System, Reach, new_server,
}
use ctgfs.Rpc.Dispatch.Sound.{IsGiven, IsSound, fresh, arrive-cases, Reach-IsSound}

action_done : (st : RpcState) (b : Bytes) → action_of st ≡ resend b → st ≡ done b
action_done new b e = cc
action_done inprogress b e = cc
action_done (done c) b e = ground arith
action_done done_freed b e = cc
action_done forgotten b e = cc

action_new : (st : RpcState) → action_of st ≡ run_handler → st ≡ new
action_new new e = refl
action_new inprogress e = cc
action_new (done c) e = cc
action_new done_freed e = cc
action_new forgotten e = cc

action_freed : (st : RpcState) → action_of st ≡ send_freed → st ≡ done_freed
action_freed new e = cc
action_freed inprogress e = cc
action_freed (done c) e = cc
action_freed done_freed e = refl
action_freed forgotten e = cc

intact :
    (s : System) (h : ReqHeader)
    → h.xid_rep ≤ h.xid
    → (checkduplicate_and_update s.server.windows h.clt_nonce h.xid h.xid_rep).0 ≢ done_freed
unfolding checkduplicate_and_update
intact s h le = check-keeps_buf h.xid h.xid_rep (s.server.windows h.clt_nonce) le

resent :
    (s : System) (h : ReqHeader) (b : Bytes)
    → IsSound s
    → (checkduplicate_and_update s.server.windows h.clt_nonce h.xid h.xid_rep).0 ≡ done b
    → find_job h.clt_nonce h.xid s.jobs ≡ some (some b)
unfolding checkduplicate_and_update
resent s h b sound e =
    let (r, given, same, there, isb) =
      check-done (IsGiven s.jobs h.clt_nonce) h.xid h.xid_rep (s.server.windows h.clt_nonce) b
        (λ p. cc) (sound.given h.clt_nonce) e in
    ap (λ y. find_job h.clt_nonce y s.jobs) (sym same) ∙ (given there ∙ ap (λ v. some (some v)) isb)

-- In any order of requests, also repeated ones, and of replies of handlers: for a client with a nonce,
-- a handler is run only for a request that it has never been run for; a reply that is sent again is the one
-- that the run of this very request has made; and where the request acknowledges no number above its own,
-- what is sent again is not a buffer that its check has deleted.
pub answered_once :
    (nonce : ℕ) (registered : ℕ → Bool) (s : System) (h : ReqHeader)
    → Reach (new_server nonce registered) s
    → h.clt_nonce ≢ 0
    → ((arrive s.server h).0 ≡ run_handler → find_job h.clt_nonce h.xid s.jobs ≡ none)
      × ((b : Bytes)
          → (arrive s.server h).0 ≡ resend b
          → find_job h.clt_nonce h.xid s.jobs ≡ some (some b))
      × (h.xid_rep ≤ h.xid → (arrive s.server h).0 ≢ send_freed)
answered_once nonce registered s h reach nz = elim (arrive-cases s.server h) [
  | inl (a, e, other, never, sent) ↦ (
    λ r. absurd (other (ap (λ q. q.0) (sym e) ∙ r)),
    λ b r. absurd (never b (ap (λ q. q.0) (sym e) ∙ r)),
    λ le r. absurd (sent (ap (λ q. q.0) (sym e) ∙ r)),
  )
  | inr (inl (z, e)) ↦ absurd (nz z)
  | inr (inr (n, e)) ↦ (
    λ r. fresh s h sound nz (action_new _ (ap (λ q. q.0) (sym e) ∙ r)),
    λ b r. resent s h b sound (action_done _ b (ap (λ q. q.0) (sym e) ∙ r)),
    λ le r. intact s h le (action_freed _ (ap (λ q. q.0) (sym e) ∙ r)),
  )
]
  where
    sound : IsSound s
    sound = Reach-IsSound nonce registered s reach
