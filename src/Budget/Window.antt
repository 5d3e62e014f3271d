-- ===== src/Budget/Window.antt =====
-- src/lib/budget.ts: `_rollCycleIfElapsed`, `_pruneOld`, `_computeSuccessRate`, `_effectiveTxCap`.
-- `nowMs - HOUR_MS` may be negative, so `ts < nowMs - HOUR_MS` is read as `ts + HOUR_MS < nowMs`.
use percolator_keeper.Prelude.{
  ℕ, ◌+◌, ◌-◌, ◌*◌, min, ℤ, ◌+ℤ◌, ◌-ℤ◌, Bool, true, false, List, [], ◌∷◌, ◌++◌, ltb, leb, ◌==◌,
  if◌then◌else◌, length,
}
use percolator_keeper.Budget.State.{
  TxType, crank, liquidation, oracle, adl, Config, SpendEvent, TxRecord, Ledger, TxWindow, Budget,
  hour_ms, day_ms,
}

unfoldable pub roll_cycle_if_elapsed : ℕ → Budget → Budget
roll_cycle_if_elapsed now b =
    if b.cycle_start_ms == 0
    then record b { cycle_start_ms = now }
    else if leb (b.cycle_start_ms + b.cycle_window_ms) now
    then record b { cycle_spend = 0; cycle_tx_count = 0; cycle_start_ms = now }
    else b

-- The loop over one event log: drop the events before the cutoff, and take each off the sum.
unfoldable pub prune_events : ℕ → ℕ → List SpendEvent → ℤ → Ledger
prune_events age now [] sum = record { events = []; sum = sum }
prune_events age now (e ∷ es) sum =
    let rest = prune_events age now es (sum -ℤ e.lamports) in
    if ltb (e.ts + age) now then rest else record { events = e ∷ es; sum = sum }

unfoldable pub prune_ledger : ℕ → ℕ → Ledger → Ledger
unfolding prune_events
prune_ledger age now l = prune_events age now l.events l.sum

-- A counter is at least 1 when a record of its kind is evicted, so `-` does not stop short.
unfoldable pub prune_records : ℕ → ℕ → List TxRecord → ℕ → ℕ → TxWindow
prune_records age now [] s f = record { records = []; successes = s; failures = f }
prune_records age now (r ∷ rs) s f =
    let rest =
      prune_records age now rs (if r.landed then s - 1 else s) (if r.landed then f else f - 1) in
    if ltb (r.ts + age) now then rest else record { records = r ∷ rs; successes = s; failures = f }

unfoldable pub prune_window : ℕ → ℕ → TxWindow → TxWindow
unfolding prune_records
prune_window age now w = prune_records age now w.records w.successes w.failures

unfoldable pub prune_old : ℕ → Budget → Budget
prune_old now b = record b {
  hour = prune_ledger hour_ms now b.hour;
  day = prune_ledger day_ms now b.day;
  tx_window = prune_window b.tx_success_rate_window now b.tx_window;
}

-- `rate !== null && rate < threshold`, with the quotient multiplied out.
unfoldable pub success_rate_below_threshold : Budget → Bool
success_rate_below_threshold b =
    let total = length b.tx_window.records in
    if ltb total b.tx_success_rate_min_samples
    then false
    else ltb (b.tx_window.successes * b.tx_success_rate_threshold.den)
        (b.tx_success_rate_threshold.num * total)

abbrev pub is_critical_lane : TxType → Bool
is_critical_lane crank = false
is_critical_lane liquidation = true
is_critical_lane oracle = true
is_critical_lane adl = true

unfoldable pub effective_tx_cap : Config → TxType → ℕ
effective_tx_cap c t =
    if is_critical_lane t
    then c.max_tx_per_cycle
    else c.max_tx_per_cycle - min c.reserved_critical_tx_per_cycle (c.max_tx_per_cycle - 1)

-- `push` and `+=` of one event log.
unfoldable pub book : ℕ → ℤ → Ledger → Ledger
book now amount l = record {
  events = l.events ++ record { ts = now; lamports = amount } ∷ [];
  sum = l.sum +ℤ amount;
}
