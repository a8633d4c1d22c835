-- ===== src/Rpc/Client/Wait.antt =====
-- The loop of `rpcc::call1` in src/rpc/rpc.cc: it sends, waits for the reply up to a deadline, and
-- doubles the time of the next wait. Times are numbers of milliseconds.
use ctgfs.Prelude.{
  ℕ, zero, suc, ◌+◌, ◌*◌, ◌%◌, ◌^◌, ◌≤◌, ◌<◌, ◌≡◌, refl, inl, inr, Bool, true, false, Option, none,
  some, arith, ltb, Bool-cases,
}

-- What the clock shows in each round of the loop, and whether the reply has come by the end of the
-- round's wait.
pub record Rounds : Type 0 where
  pub clock : ℕ → ℕ
  pub done : ℕ → Bool

pub data Waited : Type 0 where
  reply_received timed_out : Waited

-- `to_min`, and `curr_to.to <<= 1`.
abbrev pub to_min : ℕ
to_min = 1000

unfoldable pub curr_to : ℕ → ℕ
curr_to zero = to_min
curr_to (suc round) = curr_to round * 2 % 2 ^ 32

-- On fuel. `none` for the last deadline is the `tv_sec` of 0 that ends the loop in the next round.
unfoldable pub wait_loop : ℕ → Rounds → ℕ → Option ℕ → Option Waited
wait_loop zero e round finaldeadline = none
wait_loop (suc fuel) e round none = some timed_out
wait_loop (suc fuel) e round (some finaldeadline) =
    let cut = ltb finaldeadline (e.clock round + curr_to round) in
    elim (e.done round) [
      | true ↦ some reply_received
      | false ↦ elim cut [
        | true ↦ wait_loop fuel e (suc round) none
        | false ↦ wait_loop fuel e (suc round) (some finaldeadline)
      ]
    ]

-- A wait that ends with no reply ends at its deadline or later.
pub record Ticks (e : Rounds) (start finaldeadline : ℕ) : Type 0 where
  pub from_start : start ≤ e.clock 0
  pub waited :
      (round : ℕ)
      → e.done round ≡ false
      → e.clock round + curr_to round ≤ finaldeadline
      → e.clock round + curr_to round ≤ e.clock (suc round)

abbrev doubled : ℕ → ℕ → ℕ
doubled zero c = c
doubled (suc f) c = doubled f (c * 2)

module _ (e : Rounds) (start to : ℕ) (small : to + to_min < 2 ^ 31)
    (t : Ticks e start (start + to)) where
  Late : ℕ → Type 0
  Late round = start + curr_to round ≤ e.clock round + to_min

  next_curr_to :
      (round : ℕ)
      → Late round
      → e.clock round + curr_to round ≤ start + to
      → curr_to (suc round) ≡ curr_to round * 2
  unfolding Late curr_to
  next_curr_to round late in_time = ground arith

  next-Late :
      (round : ℕ)
      → e.done round ≡ false
      → Late round
      → e.clock round + curr_to round ≤ start + to
      → Late (suc round)
  unfolding Late
  next-Late round not_yet late in_time =
      let same = next_curr_to round late in_time in
      let later = t.waited round not_yet in_time in omega arith

  -- The first deadline has passed where no further doubling is left.
  last_cut :
      (round : ℕ)
      → Late round
      → to + to_min < curr_to round
      → ltb (start + to) (e.clock round + curr_to round) ≡ true
  unfolding Late
  last_cut round late enough = ground arith

  loop_ends :
      (f round : ℕ)
      → Late round
      → to + to_min < doubled f (curr_to round)
      → (w : Waited) × (wait_loop (suc (suc f)) e round (some (start + to)) ≡ some w)
  unfolding wait_loop
  loop_ends zero round late enough = elim (Bool-cases (e.done round)) [
    | inl got ↦ (reply_received, rw (wait_loop, got) refl)
    | inr not_yet ↦ (timed_out, rw (wait_loop, not_yet, last_cut round late enough) refl)
  ]
  loop_ends (suc f) round late enough = elim (Bool-cases (e.done round)) [
    | inl got ↦ (reply_received, rw (wait_loop, got) refl)
    | inr not_yet ↦ elim (Bool-cases (ltb (start + to) (e.clock round + curr_to round))) [
      | inl cut ↦ (timed_out, rw (wait_loop, not_yet, cut) refl)
      | inr more ↦
          let in_time : e.clock round + curr_to round ≤ start + to = ground arith in
          let enough2 : to + to_min < doubled f (curr_to (suc round)) =
            rw (next_curr_to round late in_time) enough in
          let rest = loop_ends f (suc round) (next-Late round not_yet late in_time) enough2 in
          (rest.0, rw (wait_loop, not_yet, more) rest.1)
    ]
  ]

-- The loop of `call1`, for a deadline `to` milliseconds after `start` with `to + 1000` below 2^31 and a
-- clock on which a wait without a reply takes its time, ends within 24 rounds: with a reply or with a
-- timeout.
pub call_ends :
    (e : Rounds)
    → (start to : ℕ) → to + to_min < 2 ^ 31
    → Ticks e start (start + to)
    → (w : Waited) × (wait_loop 24 e 0 (some (start + to)) ≡ some w)
unfolding curr_to Late
call_ends e start to small t =
    let from = t.from_start in loop_ends e start to small t 22 0 (ground arith) (ground arith)
