-- ===== src/Rpc/Dispatch/Sound.antt =====
-- What holds of the windows and the runs of handlers in every state of the server of src/rpc/rpc.cc.
use ctgfs.Prelude.{
  ℕ, ◌≡◌, ◌≢◌, refl, inl, inr, Bool, true, false, none, some, List, [], ◌∷◌, arith, ◌==◌, ◌&&◌,
  if◌then◌else◌, All, Bool-cases, Option-cases, ◌⊎◌, not,
}
use ctgfs.Prelude.Bytes.{Bytes}
use ctgfs.Rpc.Marshall.{ReqHeader}
use ctgfs.Rpc.Window.{
  Reply, reply_t, RpcState, new, inprogress, done, done_freed, forgotten, gc, Scan, inserted, found,
  behind, scan, answer, after_scan, check_window, fill, Windows, checkduplicate_and_update,
  add_reply, check, step,
}
use ctgfs.Rpc.Window as Window
use ctgfs.Rpc.Window.Entries.{All-map, fill-All, check-All}
use ctgfs.Rpc.Window.Order.{AllRising, step-AllRising}
use ctgfs.Rpc.Window.Once.{Seen, step-Seen, check-Seen, new_iff_unseen}
use ctgfs.Rpc.Client.{oldsrv_failure}
use ctgfs.Rpc.Dispatch.{
  Server, Action, reply, run_handler, resend, send_failure, leave_alone, send_freed, stop_server,
  action_of, check_request, arrive, finish, Job, find_job, complete, System, started_job, request,
  Reach, here, later, new_server,
}

-- `rising`: windows are in order. `seen`: a window tells of every request whose handler has been run.
-- `given`: a reply in a window is the result of that run.
abbrev pub IsGiven : List Job → ℕ → Reply → Type 0
IsGiven jobs clt r = r.cb_present ≡ true → find_job clt r.xid jobs ≡ some (some r.buf)

pub record IsSound (s : System) : Type 0 where
  rising : AllRising s.server.windows
  seen : (clt x : ℕ) → clt ≢ 0 → find_job clt x s.jobs ≢ none → Seen x (s.server.windows clt)
  pub given : (clt : ℕ) → All (IsGiven s.jobs clt) (s.server.windows clt)

find-complete :
    (clt x c y : ℕ) (b : Bytes) (jobs : List Job)
    → find_job clt x jobs ≢ none
    → find_job c y (complete clt x b jobs) ≡ (
        if c == clt then if y == x then some (some b) else find_job c y jobs else find_job c y jobs)
find-complete clt x c y b [] h = absurd (h refl)
find-complete clt x c y b (j ∷ jobs) h = ground (arith, find-complete clt x c y b jobs)

reply-IsSound :
    (s : System) (h : ReqHeader) (b : Bytes)
    → h.clt_nonce ≢ 0
    → find_job h.clt_nonce h.xid s.jobs ≡ some none
    → IsSound s
    → IsSound (record { server = finish s.server h b; jobs = complete h.clt_nonce h.xid b s.jobs })
unfolding finish step add_reply
reply-IsSound s h b nonce pending sound = rw (clt_set) (record {
  rising = step-AllRising ws (Window.reply clt x b) sound.rising;
  seen = λ c y nz there.
      step-Seen c y ws (Window.reply clt x b) sound.rising
        (sound.seen c y nz (was_there c y there));
  given = λ c. elim (Bool-cases (clt == c)) [
    | inl same ↦
        let e : c ≡ clt = ground arith in
        rw (same, e)
          (fill-All (IsGiven s.jobs clt) (IsGiven jobs1 clt) x b (ws clt)
            (λ r ne g p. ground (arith, find-complete clt x clt r.xid b s.jobs known, g p))
            (λ r q p. ground (arith, find-complete clt x clt r.xid b s.jobs known))
            (sound.given clt))
    | inr other ↦ rw other (
        All-map (ws c) (λ r g p. ground (arith, find-complete clt x c r.xid b s.jobs known, g p))
          (sound.given c))
  ];
})
  where
    clt : ℕ
    clt = h.clt_nonce

    x : ℕ
    x = h.xid

    ws : Windows
    ws = s.server.windows

    jobs1 : List Job
    jobs1 = complete clt x b s.jobs

    clt_set : (clt == 0) ≡ false
    clt_set = ground arith

    known : find_job clt x s.jobs ≢ none
    known = λ e. cc

    was_there : (c y : ℕ) → find_job c y jobs1 ≢ none → find_job c y s.jobs ≢ none
    was_there c y there = ground (arith, find-complete clt x c y b s.jobs known)

-- The windows after a check, for the jobs before it.
module _ (s : System) (h : ReqHeader) (sound : IsSound s) where
  abbrev clt : ℕ
  clt = h.clt_nonce

  abbrev ws1 : Windows
  ws1 = (checkduplicate_and_update s.server.windows clt h.xid h.xid_rep).1

  checked_rising : AllRising ws1
  unfolding step
  checked_rising = step-AllRising s.server.windows (check clt h.xid h.xid_rep) sound.rising

  checked-Seen : (c y : ℕ) → c ≢ 0 → find_job c y s.jobs ≢ none → Seen y (ws1 c)
  unfolding step
  checked-Seen c y nz there =
      step-Seen c y s.server.windows (check clt h.xid h.xid_rep) sound.rising
        (sound.seen c y nz there)

  checked-IsGiven : (c : ℕ) → All (IsGiven s.jobs c) (ws1 c)
  unfolding checkduplicate_and_update
  checked-IsGiven c = elim (Bool-cases (clt == c)) [
    | inl same ↦
        let e : c ≡ clt = ground arith in
        rw (same, e)
          (check-All (IsGiven s.jobs clt) h.xid h.xid_rep (s.server.windows clt) (λ p. cc)
            (sound.given clt))
    | inr other ↦ rw other (sound.given c)
  ]

  checked_self : (c y : ℕ) → c ≡ clt → y ≡ h.xid → Seen y (ws1 c)
  unfolding checkduplicate_and_update
  checked_self c y p q =
      let set : (clt == clt) ≡ true = ground arith in
      rw (p, q, set) (check-Seen h.xid h.xid_rep (s.server.windows clt) (sound.rising clt))

  -- A request that is new has never been run.
  pub fresh :
      clt ≢ 0
      → (checkduplicate_and_update s.server.windows clt h.xid h.xid_rep).0 ≡ new
      → find_job clt h.xid s.jobs ≡ none
  fresh nz e = elim (Option-cases (find_job clt h.xid s.jobs)) [
    | inl missing ↦ missing
    | inr (j, there) ↦ absurd (
        (new_iff_unseen s.server.windows clt h.xid h.xid_rep sound.rising).0 e
          (sound.seen clt h.xid nz (λ n. cc)))
  ]

  check-IsSound :
      clt ≢ 0
      → (st : RpcState) → (checkduplicate_and_update s.server.windows clt h.xid h.xid_rep).0 ≡ st
      → IsSound (started_job s h (action_of st, record s.server { windows = ws1 }))
  check-IsSound nz inprogress e = record {
    rising = checked_rising;
    seen = checked-Seen;
    given = checked-IsGiven;
  }
  check-IsSound nz (done b) e = record {
    rising = checked_rising;
    seen = checked-Seen;
    given = checked-IsGiven;
  }
  check-IsSound nz done_freed e = record {
    rising = checked_rising;
    seen = checked-Seen;
    given = checked-IsGiven;
  }
  check-IsSound nz forgotten e = record {
    rising = checked_rising;
    seen = checked-Seen;
    given = checked-IsGiven;
  }
  check-IsSound nz new e = rw set (record {
    rising = checked_rising;
    seen = λ c y cz there. elim (Bool-cases ((clt == c) && (h.xid == y))) [
      | inl same ↦ checked_self c y (ground arith) (ground arith)
      | inr other ↦ checked-Seen c y cz (λ n. there (rw other n))
    ];
    given = λ c. All-map (ws1 c) (λ r g p. ground (arith, g p, fresh nz e)) (checked-IsGiven c);
  })
    where
      set : (clt == 0) ≡ false
      set = ground arith

pub arrive-cases :
    (s : Server) (h : ReqHeader)
    → ((a : Action) × (arrive s h ≡ (a, s))
        × (a ≢ run_handler)
        × ((b : Bytes) → a ≢ resend b)
        × (a ≢ send_freed))
      ⊎ ((h.clt_nonce ≡ 0) × (arrive s h ≡ (run_handler, s)))
      ⊎ ((h.clt_nonce ≢ 0) × (arrive s h ≡ check_request s h))
unfolding arrive
arrive-cases s h = elim (Bool-cases (not (h.srv_nonce == 0) && not (h.srv_nonce == s.nonce))) [
  | inl old ↦ inl (send_failure oldsrv_failure, rw old refl, cc, λ b. cc, cc)
  | inr current ↦ elim (Bool-cases (not (s.registered h.proc))) [
    | inl unknown ↦ inl (stop_server, rw (current, unknown) refl, cc, λ b. cc, cc)
    | inr known ↦ elim (Bool-cases (h.clt_nonce == 0)) [
      | inl zero_nonce ↦ inr (inl (ground arith, rw (current, known, zero_nonce) refl))
      | inr nonce ↦ inr (inr (ground arith, rw (current, known, nonce) refl))
    ]
  ]
]

unchanged-IsSound :
    (s : System) (h : ReqHeader) (a : Action)
    → IsSound s
    → (a ≡ run_handler → h.clt_nonce ≡ 0)
    → IsSound (started_job s h (a, s.server))
unchanged-IsSound s h run_handler sound z = let e : h.clt_nonce ≡ 0 = z refl in rw e sound
unchanged-IsSound s h (send_failure f) sound z = sound
unchanged-IsSound s h (resend b) sound z = sound
unchanged-IsSound s h leave_alone sound z = sound
unchanged-IsSound s h send_freed sound z = sound
unchanged-IsSound s h stop_server sound z = sound

request-IsSound :
    (s : System) (h : ReqHeader) → IsSound s → IsSound (started_job s h (arrive s.server h))
request-IsSound s h sound = elim (arrive-cases s.server h) [
  | inl (a, e, other, _, _) ↦ rw e (unchanged-IsSound s h a sound (λ r. absurd (other r)))
  | inr (inl (z, e)) ↦ rw e (unchanged-IsSound s h run_handler sound (λ r. z))
  | inr (inr (nz, e)) ↦ rw e (
      check-IsSound s h sound nz
        (checkduplicate_and_update s.server.windows h.clt_nonce h.xid h.xid_rep).0 refl)
]

pub Reach-IsSound :
    (nonce : ℕ) (registered : ℕ → Bool) (s : System)
    → Reach (new_server nonce registered) s
    → IsSound s
Reach-IsSound nonce registered s here = record {
  rising = λ c. tt;
  seen = λ c y nz t. absurd (t refl);
  given = λ c. tt;
}
Reach-IsSound nonce registered s (later {t} r (request h)) =
    request-IsSound t h (Reach-IsSound nonce registered t r)
Reach-IsSound nonce registered s (later {t} r (reply h b nz e)) =
    reply-IsSound t h b nz e (Reach-IsSound nonce registered t r)
