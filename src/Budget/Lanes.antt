-- ===== src/Budget/Lanes.antt =====
-- src/lib/budget.ts: the slots of a cycle that `_effectiveTxCap` holds back for the critical lanes.
use percolator_keeper.Prelude.{
  ℕ, ◌+◌, ◌-◌, ◌≤◌, ◌<◌, ◌≡◌, min, pos, finite, true, false, arith, ◌+ℤ◌, ◌≤ℤ◌,
}
use percolator_keeper.Budget.State.{TxType, crank, liquidation, oracle, adl, Config, Budget}
use percolator_keeper.Budget.Window.{
  effective_tx_cap, is_critical_lane, success_rate_below_threshold, roll_cycle_if_elapsed,
  prune_old,
}
use percolator_keeper.Budget.Admission.{can_spend}
use percolator_keeper.Budget.Settlement.{refresh}
use percolator_keeper.Budget.Caps.{Fits, fits_and_rate_iff, admitted_within_caps}

-- The routine lane keeps a slot, and the reserve that is asked for is held back as far as that
-- leaves one.
pub effective_tx_cap_bounds :
    (c : Config)
    → 0 < c.max_tx_per_cycle
    → (0 < effective_tx_cap c crank)
      × (effective_tx_cap c crank + min c.reserved_critical_tx_per_cycle (c.max_tx_per_cycle - 1)
          ≡ c.max_tx_per_cycle)
      × (effective_tx_cap c liquidation ≡ c.max_tx_per_cycle)
      × (effective_tx_cap c oracle ≡ c.max_tx_per_cycle)
      × (effective_tx_cap c adl ≡ c.max_tx_per_cycle)
unfolding effective_tx_cap
effective_tx_cap_bounds c h = ground arith

-- However many routine sends are admitted, an admitted one leaves the reserved slots of the cycle
-- free, counting the sends in flight: the next proposal of a critical lane finds one, if any is
-- reserved and the cap is at least 2.
pub crank_leaves_reserve :
    (b b' : Budget) (now n : ℕ)
    → can_spend now (finite (pos n)) crank b ≡ (b', true)
    → 1 < b'.max_tx_per_cycle
    → 0 < b'.reserved_critical_tx_per_cycle
    → (t : TxType) → is_critical_lane t ≡ true
    → b'.cycle_tx_count + b'.reserved_tx_count + 1 ≤ effective_tx_cap b'.config t
unfolding effective_tx_cap
crank_leaves_reserve b b' now n e many some t critical =
    ground (arith, (admitted_within_caps b b' now n crank e).0.count)

elapsed-Fits :
    (b : Budget) (now n : ℕ) (t : TxType)
    → 0 < b.cycle_start_ms
    → b.cycle_start_ms + b.cycle_window_ms ≤ now
    → b.reserved_lamports + n ≤ b.max_sol_per_cycle
    → ((refresh now b).hour.sum +ℤ pos b.reserved_lamports +ℤ pos n) ≤ℤ pos b.max_sol_per_hour
    → ((refresh now b).day.sum +ℤ pos b.reserved_lamports +ℤ pos n) ≤ℤ pos b.max_sol_per_day
    → b.reserved_tx_count + 1 ≤ effective_tx_cap b.config t
    → Fits (refresh now b) n t
unfolding refresh prune_old roll_cycle_if_elapsed
elapsed-Fits b now n t anchored elapsed cycle hourly daily slot = ground arith

-- A full cycle heals by itself: once the window has elapsed, a budget that is not halted and whose
-- success rate is good admits an amount that fits the caps together with the sends in flight, whatever
-- the cycle had booked or counted.
pub elapsed_cycle_admits :
    (b : Budget) (now n : ℕ) (t : TxType)
    → b.is_halted ≡ false
    → 0 < b.cycle_start_ms
    → b.cycle_start_ms + b.cycle_window_ms ≤ now
    → b.reserved_lamports + n ≤ b.max_sol_per_cycle
    → ((refresh now b).hour.sum +ℤ pos b.reserved_lamports +ℤ pos n) ≤ℤ pos b.max_sol_per_hour
    → ((refresh now b).day.sum +ℤ pos b.reserved_lamports +ℤ pos n) ≤ℤ pos b.max_sol_per_day
    → b.reserved_tx_count + 1 ≤ effective_tx_cap b.config t
    → success_rate_below_threshold (refresh now b) ≡ false
    → (can_spend now (finite (pos n)) t b).1 ≡ true
elapsed_cycle_admits b now n t live anchored elapsed cycle hourly daily slot rate =
    (fits_and_rate_iff b now n t).1
      (live, elapsed-Fits b now n t anchored elapsed cycle hourly daily slot, rate)
