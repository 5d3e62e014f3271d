-- ===== src/Liquidation/Cycle/SingleFlight.antt =====
-- src/services/liquidation.ts: the scans that the timer of `start` and its retries begin.
use percolator_keeper.Prelude.{
  ℕ, ◌+◌, ◌≡◌, Bool, true, false, ◌&&◌, Option, none, some, List, [], ◌∷◌, arith, if◌then◌else◌,
}
use percolator_keeper.Liquidation.Cycle.{
  Runner, run_cycle, scan_settled, tick, start_runner, stop_runner,
}

pub data RunnerEvent : Type 0 where
  starts stops : RunnerEvent
  ticks : ℕ → RunnerEvent
  retries_due : ℕ → RunnerEvent
  settles : ℕ → Bool → RunnerEvent

abbrev pub is_idle : Option ℕ → Bool
is_idle none = true
is_idle (some t) = false

abbrev pub settle_if : ℕ → ℕ → Bool → Option ℕ → Runner → Runner
settle_if interval_ms now ok none r = r
settle_if interval_ms now ok (some t) r = scan_settled interval_ms now ok r

-- A retry passes the same test of the timer as a tick.
unfoldable pub runner_step : ℕ → RunnerEvent → Runner → Runner
runner_step interval_ms starts r = start_runner r
runner_step interval_ms stops r = stop_runner r
runner_step interval_ms (ticks now) r = tick now r
runner_step interval_ms (retries_due now) r = tick now r
runner_step interval_ms (settles now ok) r = settle_if interval_ms now ok r.in_flight r

abbrev pub begun : RunnerEvent → Runner → ℕ
begun (ticks now) r = if r.timer && is_idle r.in_flight then 1 else 0
begun (retries_due now) r = if r.timer && is_idle r.in_flight then 1 else 0
begun starts r = 0
begun stops r = 0
begun (settles now ok) r = 0

abbrev pub ended : RunnerEvent → Runner → ℕ
ended (settles now ok) r = if is_idle r.in_flight then 0 else 1
ended (ticks now) r = 0
ended (retries_due now) r = 0
ended starts r = 0
ended stops r = 0

abbrev pub running : Runner → ℕ
running r = if is_idle r.in_flight then 0 else 1

-- The scans that begin along the events, those that end, and the runner behind them.
abbrev pub total : ℕ → (RunnerEvent → Runner → ℕ) → List RunnerEvent → Runner → ℕ
total interval_ms count [] r = 0
total interval_ms count (e ∷ es) r =
    count e r + total interval_ms count es (runner_step interval_ms e r)

abbrev pub runner_run : ℕ → List RunnerEvent → Runner → Runner
runner_run interval_ms [] r = r
runner_run interval_ms (e ∷ es) r = runner_run interval_ms es (runner_step interval_ms e r)

settle_if-running :
    (interval_ms now : ℕ) (ok : Bool) (o : Option ℕ) (r : Runner)
    → r.in_flight ≡ o
    → running (settle_if interval_ms now ok o r) ≡ 0
unfolding scan_settled
settle_if-running interval_ms now ok none r h = ground (arith, h)
settle_if-running interval_ms now true (some t) r h = ground (arith, h)
settle_if-running interval_ms now false (some t) r h = ground (arith, h)

step-running :
    (interval_ms : ℕ) (e : RunnerEvent) (r : Runner)
    → running r + begun e r ≡ ended e r + running (runner_step interval_ms e r)
unfolding runner_step tick run_cycle
step-running interval_ms starts r = ground arith
step-running interval_ms stops r = ground arith
step-running interval_ms (ticks now) r = ground arith
step-running interval_ms (retries_due now) r = ground arith
step-running interval_ms (settles now ok) r =
    ground (arith, settle_if-running interval_ms now ok r.in_flight r (λ i. r.in_flight))

balance :
    (interval_ms : ℕ) (es : List RunnerEvent) (r : Runner)
    → running r + total interval_ms begun es r
      ≡ total interval_ms ended es r + running (runner_run interval_ms es r)
balance interval_ms [] r = omega arith
balance interval_ms (e ∷ es) r =
    omega
      (arith, step-running interval_ms e r, balance interval_ms es (runner_step interval_ms e r))

-- Whatever ticks, retries, ends, stops and new starts come: as many scans have begun as have ended, and
-- one more while a scan is in flight. Two scans never run at the same time.
pub single_flight :
    (interval_ms : ℕ) (es : List RunnerEvent) (r : Runner)
    → r.in_flight ≡ none
    → total interval_ms begun es r
      ≡ total interval_ms ended es r + running (runner_run interval_ms es r)
single_flight interval_ms es r h = ground (arith, h, balance interval_ms es r)
