-- ===== src/Client/ExtentCache/History.antt =====
-- Any history of the operations of src/client/extent_client_cache.cc.
use ctgfs.Prelude.{
  ℕ, ◌^◌, ◌<◌, ◌≡◌, refl, ap, sym, ◌∙◌, Option, none, some, List, [], ◌∷◌, length, ◌==◌,
  if◌then◌else◌, All,
}
use ctgfs.Prelude.Bytes.{Bytes}
use ctgfs.Fs.ExtentServer.{ok, noent}
use ctgfs.Client.ExtentCache.{
  World, Net, get, setattr, Op, puts, gets, getattrs, setattrs, removes, flushes, step, run,
  no_extents,
}
use ctgfs.Client.ExtentCache.WriteBack.{
  view, IsCoherent, if_ok, resized_view, put-view, get-view, get-answers, getattr-view,
  setattr-view, remove-view, flush-view,
}

-- Sizes are below 2 ^ 32, as many as an attribute can carry.
abbrev pub IsSmall : Op → Type 0
IsSmall (puts now id buf) = length buf < 2 ^ 32
IsSmall (setattrs net now id a) = a.size < 2 ^ 32
IsSmall _ = Unit {0}

-- One map of contents without a cache: what an operation does to the content of `other`. A `setattr`
-- has its effect where it is answered OK.
abbrev pub effect : World → Op → ℕ → Option Bytes → Option Bytes
effect w (puts now id buf) other v = if other == id then some buf else v
effect w (setattrs net now id a) other v =
    if other == id then if_ok (setattr net now w id a).0 (resized_view v a.size) v else v
effect w (removes id) other v = if other == id then none else v
effect w _ other v = v

unfoldable pub contents_after : World → List Op → ℕ → Option Bytes → Option Bytes
contents_after w [] other v = v
contents_after w (o ∷ os) other v = contents_after (step w o) os other (effect w o other v)

step-view :
    (w : World) (o : Op)
    → IsSmall o
    → ((id : ℕ) → IsCoherent w id)
    → (other : ℕ)
    → IsCoherent (step w o) other × (view (step w o) other ≡ effect w o other (view w other))
unfolding step
step-view w (puts now id buf) h c other = put-view now w id other buf h (c other)
step-view w (gets net now id) h c other = get-view net now w id other (c id) (c other)
step-view w (getattrs net now id) h c other = getattr-view net now w id other (c id) (c other)
step-view w (setattrs net now id a) h c other = setattr-view net now w id other a h (c id) (c other)
step-view w (removes id) h c other = remove-view w id other (c id) (c other)
step-view w (flushes net now id) h c other = flush-view net now w id other (c id) (c other)

run-view :
    (w : World) (os : List Op)
    → All IsSmall os
    → ((id : ℕ) → IsCoherent w id)
    → (other : ℕ)
    → IsCoherent (run w os) other
      × (view (run w os) other ≡ contents_after w os other (view w other))
unfolding run contents_after
run-view w [] h c other = (c other, refl)
run-view w (o ∷ os) (h, hs) c other =
    let now = step-view w o h c in
    let (c', later) = run-view (step w o) os hs (λ id. (now id).0) other in
    (c', later ∙ ap (λ v. contents_after (step w o) os other v) (now other).1)

-- After any history of one client whose sizes are below 2 ^ 32, with any pattern of calls that fail and
-- flushes in between, a read that is answered OK gives the content that the history without a cache gives the file, and one that
-- is answered NOENT is of a file that it does not have.
pub read_your_writes :
    (os : List Op) (net : Net) (now id : ℕ)
    → All IsSmall os
    → ((get net now (run no_extents os) id).0.0 ≡ ok
        → contents_after no_extents os id none ≡ some (get net now (run no_extents os) id).0.1)
      × ((get net now (run no_extents os) id).0.0 ≡ noent
          → contents_after no_extents os id none ≡ none)
read_your_writes os net now id h =
    let (c, same) = run-view no_extents os h (λ i. (tt, tt)) id in
    let (found, missing) = get-answers net now (run no_extents os) id c in
    (λ e. sym same ∙ found e, λ e. sym same ∙ missing e)
