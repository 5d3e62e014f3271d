-- ===== src/Budget/Settlement.antt =====
-- src/lib/budget.ts: `recordTx`, `adjustForRealizedCost`, `beginCycle`, `getStats`.
-- An amount that passes the guard is an ℕ, so `Math.max(0, a - b)` is `a - b` on ℕ.
use percolator_keeper.Prelude.{
  ℕ, ◌+◌, ◌-◌, ℤ, pos, negsuc, ◌+ℤ◌, ◌-ℤ◌, pos_part, Num, finite, Bool, true, false, [], ◌∷◌, ◌++◌,
  if◌then◌else◌, ◌==◌,
}
use percolator_keeper.Budget.State.{
  TxResult, success, fail, reverted, drop, Ledger, TxWindow, Budget,
}
use percolator_keeper.Budget.Window.{roll_cycle_if_elapsed, prune_old, book}

unfoldable pub release : ℕ → Budget → Budget
release n b = record b {
  reserved_lamports = b.reserved_lamports - n;
  reserved_tx_count = b.reserved_tx_count - 1;
}

unfoldable pub count_attempt : Budget → Budget
count_attempt b = record b { cycle_tx_count = b.cycle_tx_count + 1 }

unfoldable pub book_spend : ℕ → ℕ → Budget → Budget
book_spend now n b = record b {
  cycle_spend = b.cycle_spend + n;
  hour = book now (pos n) b.hour;
  day = book now (pos n) b.day;
}

unfoldable pub push_record : ℕ → Bool → TxWindow → TxWindow
push_record now landed w = record {
  records = w.records ++ record { ts = now; landed = landed } ∷ [];
  successes = if landed then w.successes + 1 else w.successes;
  failures = if landed then w.failures else w.failures + 1;
}

unfoldable pub book_result : ℕ → ℕ → TxResult → Budget → Budget
unfolding book_spend push_record
book_result now n drop b = b
book_result now n reverted b = book_spend now n b
book_result now n success b = record (book_spend now n b) {
  tx_window = push_record now true b.tx_window;
}
book_result now n fail b = record (book_spend now n b) {
  tx_window = push_record now false b.tx_window;
}

unfoldable pub record_amount : ℕ → ℕ → TxResult → Budget → Budget
record_amount now n result b =
    prune_old now
      (book_result now n result (count_attempt (release n (roll_cycle_if_elapsed now b))))

unfoldable pub record_tx : ℕ → Num → TxResult → Budget → Budget
record_tx now (finite (pos n)) result b = record_amount now n result b
record_tx now _ result b = b

abbrev pub is_zero : ℤ → Bool
is_zero (pos n) = n == 0
is_zero (negsuc n) = false

-- The change that is applied to one sum, floored at 0, and booked if it is not 0.
unfoldable pub adjust_ledger : ℕ → ℤ → Ledger → Ledger
adjust_ledger now delta l =
    let applied = pos (pos_part (l.sum +ℤ delta)) -ℤ l.sum in
    if is_zero applied then l else book now applied l

unfoldable pub adjust_amounts : ℕ → ℕ → ℕ → Budget → Budget
unfolding adjust_ledger
adjust_amounts now estimated realized b =
    let delta = pos realized -ℤ pos estimated in
    let b' = roll_cycle_if_elapsed now (record b {
      realized_cost_drift = b.realized_cost_drift +ℤ delta;
      realized_cost_samples = b.realized_cost_samples + 1;
    }) in
    prune_old now (record b' {
      cycle_spend = b'.cycle_spend + realized - estimated;
      hour = adjust_ledger now delta b'.hour;
      day = adjust_ledger now delta b'.day;
    })

unfoldable pub adjust_for_realized_cost : ℕ → Num → Num → Budget → Budget
adjust_for_realized_cost now (finite (pos estimated)) (finite (pos realized)) b =
    adjust_amounts now estimated realized b
adjust_for_realized_cost now _ _ b = b

unfoldable pub begin_cycle : ℕ → Budget → Budget
begin_cycle now b = record b { cycle_spend = 0; cycle_tx_count = 0; cycle_start_ms = now }

-- What `getStats` does to the state; the report copies fields of the result.
unfoldable pub refresh : ℕ → Budget → Budget
refresh now b = prune_old now (roll_cycle_if_elapsed now b)
