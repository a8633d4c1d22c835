-- ===== src/Rpc/Window/Examples.antt =====
-- Runs of the reply windows, and the theorems about them at concrete events.
use ctgfs.Prelude.{◌≡◌, ◌≢◌, ◌↔◌, refl, List, [], ◌∷◌, arith}
use ctgfs.Rpc.Window.{
  Event, check, reply, new, inprogress, done, forgotten, is_held, gc, scan, check_window, fill,
  checkduplicate_and_update, add_reply, step, run, no_windows,
}
use ctgfs.Rpc.Window.Once.{Seen, at_most_once, new_iff_unseen}
use ctgfs.Rpc.Window.Kept.{reply_kept}

-- Requests 1 and 2 of client 7, request 1 answered; then request 2 with request 1 acknowledged.
abbrev history : List Event
history = check 7 1 0 ∷ check 7 2 0 ∷ reply 7 1 (5 ∷ []) ∷ []

history_repeats :
    ((checkduplicate_and_update (run no_windows history) 7 1 0).0 ≡ done (5 ∷ []))
    × ((checkduplicate_and_update (run no_windows history) 7 2 0).0 ≡ inprogress)
    × ((checkduplicate_and_update (run no_windows (check 7 1 0 ∷ check 7 2 2 ∷ [])) 7 1 2).0
        ≡ forgotten)
unfolding run step checkduplicate_and_update add_reply check_window scan fill gc is_held
history_repeats = (refl, refl, refl)

at_most_once_example :
    (checkduplicate_and_update
      (run (step (run no_windows history) (check 7 3 1)) (check 7 4 3 ∷ []))
      7
      3
      3).0
    ≢ new
at_most_once_example = at_most_once history (check 7 4 3 ∷ []) 7 3 1 3

new_iff_unseen_example :
    ((checkduplicate_and_update no_windows 7 1 0).0 ≡ new) ↔ (¬ Seen 1 (no_windows 7))
new_iff_unseen_example = new_iff_unseen no_windows 7 1 0 (λ c. tt)

reply_kept_example :
    ((checkduplicate_and_update (run (step no_windows (check 7 1 0)) (check 7 2 0 ∷ [])) 7 1 1).0
      ≡ inprogress)
    × ((checkduplicate_and_update
          (run
            (step (run (step no_windows (check 7 1 0)) (check 7 2 0 ∷ [])) (reply 7 1 (5 ∷ [])))
            (check 7 3 1 ∷ []))
          7
          1
          1).0
        ≡ done (5 ∷ []))
unfolding checkduplicate_and_update check_window
reply_kept_example =
    reply_kept no_windows 7 1 0 (check 7 2 0 ∷ []) (check 7 3 1 ∷ []) (5 ∷ []) 1 (λ c. tt) refl
      (omega arith) (omega arith) (omega arith) (omega arith)
