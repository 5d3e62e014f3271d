-- ===== src/Tests/BudgetTests.antt =====
-- src/lib/budget.ts: the theorems at concrete inputs.
use percolator_keeper.Prelude.{
  ℕ, ◌+◌, ◌≤◌, ◌≡◌, refl, ap, pos, ◌+ℤ◌, ◌≤ℤ◌, finite, true, false, none, some, List, [], ◌∷◌,
  arith,
}
use percolator_keeper.Budget.State.{
  crank, liquidation, success, fail, drop, operator, message, Budget, missing, defaults, fresh,
  hour_ms,
}
use percolator_keeper.Budget.Window.{
  roll_cycle_if_elapsed, prune_old, prune_ledger, prune_window, success_rate_below_threshold,
  effective_tx_cap, book,
}
use percolator_keeper.Budget.Halting.{new, halt}
use percolator_keeper.Budget.Admission.{can_spend, check_cost, check_caps, reserve, over_cap}
use percolator_keeper.Budget.Settlement.{
  record_tx, record_amount, book_result, release, count_attempt, refresh,
}
use percolator_keeper.Budget.Trace.{Call, spends, records, step, run}
use percolator_keeper.Budget.Latch.{latched_until_resume}
use percolator_keeper.Budget.Caps.{Fits, can_spend-admits_iff}
use percolator_keeper.Budget.Ledger.{total_within}
use percolator_keeper.Budget.Rolling.{hourly, history}
use percolator_keeper.Budget.Rolling.Refinement.{rolling_sum}
use percolator_keeper.Budget.Rolling.Bound.{admission_bounds_history}
use percolator_keeper.Budget.Lanes.{effective_tx_cap_bounds, elapsed_cycle_admits}
use percolator_keeper.Budget.Restart.{halt_survives_restart}
use percolator_keeper.Budget.Landing.{record_tx_accounts}
use percolator_keeper.Budget.InFlight.{
  Matches, admitted, settled, Runs, here, next, reservations_match,
}

abbrev start : Budget
start = fresh defaults (some "halt.json") missing true

abbrev busy : Budget
busy = record start { cycle_spend = 100_000; cycle_tx_count = 2; cycle_start_ms = 1_000 }

-- A costly send at time 2000, settled at 2500.
abbrev calls : List (ℕ × Call)
calls =
    (2_000, spends (finite (pos 400_000)) liquidation)
    ∷ (2_500, records (finite (pos 400_000)) success)
    ∷ []

abbrev halted : Budget
halted = record busy {
  is_halted = true;
  halt_kind = some operator;
  halt_reason = some (message "deploy");
}

latched_until_resume_example :
    can_spend 9_000 (finite (pos 1)) crank (run halted calls) ≡ (run halted calls, false)
latched_until_resume_example =
    (latched_until_resume halted calls 9_000 (finite (pos 1)) crank (tt, (tt, tt)) refl).1

runs : can_spend 2_000 (finite (pos 400_000)) crank busy ≡ (reserve 400_000 busy, true)
unfolding can_spend check_cost check_caps over_cap ◌+ℤ◌ prune_old prune_ledger prune_window
    roll_cycle_if_elapsed effective_tx_cap success_rate_below_threshold reserve
runs = refl

can_spend-admits_iff_example : Fits (refresh 2_000 busy) 400_000 crank
can_spend-admits_iff_example =
    ((can_spend-admits_iff busy 2_000 400_000 crank).0 (ap (λ r. r.1) runs)).1

-- The hour cap is used up.
abbrev full : Budget
full = record busy {
  hour = record {
    events = record { ts = 1_500; lamports = pos 500_000_000 } ∷ [];
    sum = pos 500_000_000;
  };
}

abbrev booked_calls : List (ℕ × Call)
booked_calls =
    (2_000, records (finite (pos 70)) success) ∷ (9_000, records (finite (pos 30)) fail) ∷ []

rolling_sum_example :
    (refresh 3_602_001 (run (new defaults none missing true) booked_calls)).hour.sum ≡ pos 30
unfolding history step record_tx ◌+ℤ◌
rolling_sum_example =
    rolling_sum hourly defaults none missing true booked_calls 3_602_001 (omega arith) (omega arith)

admission_bounds_history_example :
    (total_within hour_ms 9_500 (history hourly (new defaults none missing true) booked_calls)
      +ℤ pos (refresh 9_500 (run (new defaults none missing true) booked_calls)).reserved_lamports
      +ℤ pos 5)
    ≤ℤ pos 500_000_000
unfolding can_spend check_cost check_caps over_cap ◌+ℤ◌ prune_old prune_ledger prune_window
    roll_cycle_if_elapsed effective_tx_cap success_rate_below_threshold run step record_tx
    record_amount book_result count_attempt release book new
admission_bounds_history_example =
    admission_bounds_history hourly defaults none missing true booked_calls 9_500 5 crank
      (omega arith) (omega arith) refl

effective_tx_cap_bounds_example : 0 ≤ effective_tx_cap defaults crank
effective_tx_cap_bounds_example = omega (arith, (effective_tx_cap_bounds defaults (omega arith)).0)

-- A cycle that is full, looked at after it has elapsed.
abbrev exhausted : Budget
exhausted = record busy { cycle_spend = 200_000_000; cycle_tx_count = 60 }

elapsed_cycle_admits_example : (can_spend 40_000 (finite (pos 5)) crank exhausted).1 ≡ true
unfolding refresh prune_old prune_ledger prune_window roll_cycle_if_elapsed effective_tx_cap
    success_rate_below_threshold ◌+ℤ◌
elapsed_cycle_admits_example =
    elapsed_cycle_admits exhausted 40_000 5 crank refl (omega arith) (omega arith) (omega arith)
      (omega arith) (omega arith) (omega arith) refl

halt_survives_restart_example :
    (new defaults
      (some "halt.json")
      (halt operator (message "deploy") busy).halt_file
      true).is_halted
    ≡ true
halt_survives_restart_example =
    (halt_survives_restart busy operator (message "deploy") "halt.json" defaults true refl refl refl
      refl).0

record_tx_accounts_example :
    (record_tx 2_000 (finite (pos 9)) drop busy).cycle_tx_count
    ≡ (roll_cycle_if_elapsed 2_000 busy).cycle_tx_count + 1
record_tx_accounts_example = (record_tx_accounts 2_000 9 drop busy).1

-- The send of `runs` is admitted and settled.
round_trip : Runs busy [] (record_tx 2_500 (finite (pos 400_000)) success (reserve 400_000 busy)) []
round_trip =
    next (next here (admitted 2_000 400_000 crank runs refl))
      (settled 2_500 400_000 success [] [] refl refl refl)

reservations_match_example :
    Matches (record_tx 2_500 (finite (pos 400_000)) success (reserve 400_000 busy)) []
reservations_match_example =
    reservations_match round_trip (record { lamports = refl; slots = refl })
