-- ===== src/Budget/Admission.antt =====
-- src/lib/budget.ts: `canSpend`. Its checks, in the order of the source: the latch, the cost, the
-- booked spend against each cap, the count cap, the success rate, and the sends in flight.
-- `now` is the value that `this._now()` returns in the call.
use percolator_keeper.Prelude.{
  ℕ, ◌+◌, ℤ, pos, negsuc, ◌+ℤ◌, Num, finite, nan, infinite, Bool, true, false, ◌||◌, ltb, ltb_ℤ,
  if◌then◌else◌, length,
}
use percolator_keeper.Budget.State.{
  TxType, hour_spend_cap, day_spend_cap, tx_success_rate, non_finite_cost, bad_cost, spend_over,
  low_rate, Budget,
}
use percolator_keeper.Budget.Window.{
  roll_cycle_if_elapsed, prune_old, success_rate_below_threshold, effective_tx_cap,
}
use percolator_keeper.Budget.Halting.{halt}

unfoldable pub over_cap : ℕ → ℤ → ℕ → Bool
over_cap cap sum n = ltb_ℤ (pos cap) (sum +ℤ pos n)

-- The sends in flight would take this one over a cap.
unfoldable pub over_with_reservations : Budget → ℕ → TxType → Bool
over_with_reservations b n t =
    ltb b.max_sol_per_cycle (b.cycle_spend + b.reserved_lamports + n)
    || over_cap b.max_sol_per_hour (b.hour.sum +ℤ pos b.reserved_lamports) n
    || over_cap b.max_sol_per_day (b.day.sum +ℤ pos b.reserved_lamports) n
    || ltb (effective_tx_cap b.config t) (b.cycle_tx_count + b.reserved_tx_count + 1)

unfoldable pub reserve : ℕ → Budget → Budget
reserve n b = record b {
  reserved_lamports = b.reserved_lamports + n;
  reserved_tx_count = b.reserved_tx_count + 1;
}

-- The checks behind the guard on the cost, on a state that is rolled and pruned.
unfoldable pub check_caps : Budget → ℕ → TxType → Budget × Bool
unfolding over_with_reservations reserve
check_caps b n t =
    if ltb b.max_sol_per_cycle (b.cycle_spend + n)
    then (b, false)
    else if over_cap b.max_sol_per_hour b.hour.sum n
    then (halt hour_spend_cap (spend_over (b.hour.sum +ℤ pos n) b.max_sol_per_hour t) b, false)
    else if over_cap b.max_sol_per_day b.day.sum n
    then (halt day_spend_cap (spend_over (b.day.sum +ℤ pos n) b.max_sol_per_day t) b, false)
    else if ltb (effective_tx_cap b.config t) (b.cycle_tx_count + 1)
    then (b, false)
    else if success_rate_below_threshold b
    then (
      halt tx_success_rate (low_rate b.tx_window.successes (length b.tx_window.records) t) b,
      false,
    )
    else if over_with_reservations b n t
    then (b, false)
    else (reserve n b, true)

unfoldable pub check_cost : Budget → ℕ → Num → TxType → Budget × Bool
check_cost b now (finite (pos n)) t = check_caps (prune_old now (roll_cycle_if_elapsed now b)) n t
check_cost b now (finite (negsuc n)) t =
    (halt non_finite_cost (bad_cost (finite (negsuc n)) t) b, false)
check_cost b now nan t = (halt non_finite_cost (bad_cost nan t) b, false)
check_cost b now infinite t = (halt non_finite_cost (bad_cost infinite t) b, false)

unfoldable pub can_spend : ℕ → Num → TxType → Budget → Budget × Bool
can_spend now cost t b = if b.is_halted then (b, false) else check_cost b now cost t
