-- ===== src/Send/Reconcile.antt =====
-- src/lib/keeper-send.ts: what is left of an estimate once the receipt is reconciled.
use percolator_keeper.Prelude.{ℕ, ◌+◌, ◌≤◌, ◌<◌, ◌≡◌, pos, ◌+ℤ◌, finite, some, arith}
use percolator_keeper.Budget.State.{success, Budget}
use percolator_keeper.Budget.Window.{roll_cycle_if_elapsed, prune_old}
use percolator_keeper.Budget.Settlement.{
  record_tx, record_amount, book_result, book_spend, count_attempt, release,
  adjust_for_realized_cost, adjust_amounts,
}
use percolator_keeper.Send.{reconcile}

roll_within :
    (now : ℕ) (b : Budget)
    → 0 < b.cycle_start_ms
    → now < b.cycle_start_ms + b.cycle_window_ms
    → roll_cycle_if_elapsed now b ≡ b
unfolding roll_cycle_if_elapsed
roll_within now b anchored within = ground arith

-- Within one cycle, a settled send whose receipt is reconciled leaves in the cycle the fee of the
-- receipt and the tip, whatever amount was estimated and booked. So lamports that were part of the
-- estimate and are not in the receipt's fee, such as the rent of a new account, are taken off again.
pub reconcile_keeps_receipt_only :
    (b : Budget) (settled later n fee tip : ℕ)
    → 0 < b.cycle_start_ms
    → settled ≤ later
    → later < b.cycle_start_ms + b.cycle_window_ms
    → (reconcile later
        (finite (pos n))
        (some fee)
        (finite (pos tip))
        (record_tx settled (finite (pos n)) success b)).cycle_spend
      ≡ b.cycle_spend + fee + tip
unfolding reconcile record_tx record_amount adjust_for_realized_cost adjust_amounts
    roll_cycle_if_elapsed prune_old book_result book_spend count_attempt release ◌+ℤ◌
reconcile_keeps_receipt_only b settled later n fee tip anchored m within = ground arith
