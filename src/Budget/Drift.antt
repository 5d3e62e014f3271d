-- ===== src/Budget/Drift.antt =====
-- src/lib/budget.ts: corrections of an estimate in the rolling windows.
use percolator_keeper.Prelude.{ℕ, ◌+◌, ◌-◌, ◌≤◌, ◌<◌, ◌≡◌, pos, ◌+ℤ◌, ◌-ℤ◌, arith, neg_part}
use percolator_keeper.Budget.State.{empty_ledger}
use percolator_keeper.Budget.Window.{prune_ledger, prune_events, book}
use percolator_keeper.Budget.Settlement.{adjust_ledger}

-- An estimate `n` is booked, and corrected down to `r` later. Between the time when the estimate has
-- left the window and the time when the correction leaves it, the sum of the window is r - n, which
-- is below 0: the cap then admits n - r lamports more than it says.
pub correction_outlives_estimate :
    (age booked corrected now n r : ℕ)
    → r < n
    → booked + age < now
    → now ≤ corrected + age
    → let l =
        prune_ledger age now
          (adjust_ledger corrected (pos r -ℤ pos n) (book booked (pos n) empty_ledger)) in
      (l.sum ≡ pos r -ℤ pos n) × (neg_part l.sum ≡ n - r)
unfolding prune_ledger prune_events adjust_ledger book ◌+ℤ◌ ◌-ℤ◌
correction_outlives_estimate age booked corrected now n r less gone kept = ground arith
