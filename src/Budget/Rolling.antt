-- ===== src/Budget/Rolling.antt =====
-- src/lib/budget.ts: the hour and the day sums of a KeeperBudget are rolling windows over all that
-- its calls ever booked.
pub mod Frames
pub mod Settings
pub mod Refinement
pub mod Bound
use Prim.Native.String.{String}
use mathlib.Core.List.{append-nil, append_assoc}
use percolator_keeper.Prelude.{
  ℕ, zero, suc, ◌+◌, ◌≤◌, ◌<◌, ◌≡◌, refl, sym, ap, subst, ◌∙◌, ◌⊎◌, inl, inr, ℤ, pos, negsuc, ◌+ℤ◌,
  ◌-ℤ◌, pos_part, Num, finite, nan, infinite, Bool, true, false, Option, none, some, List, [], ◌∷◌,
  ◌++◌, arith, if◌then◌else◌, Bool-cases,
}
use percolator_keeper.Budget.State.{
  TxType, TxResult, success, fail, reverted, drop, SpendEvent, Ledger, Budget, Config, HaltFile,
  hour_ms, day_ms, fresh, HaltKind, Reason, non_finite_cost, bad_cost,
}
use percolator_keeper.Budget.Window.{roll_cycle_if_elapsed, prune_old, prune_ledger, book}
use percolator_keeper.Budget.Halting.{halt, halt_manually, resume, persist_halt_state, clear_halt}
use percolator_keeper.Budget.Admission.{can_spend, check_cost, check_caps, reserve}
use percolator_keeper.Budget.Settlement.{
  record_tx, record_amount, book_result, book_spend, adjust_for_realized_cost, adjust_amounts,
  adjust_ledger, is_zero, begin_cycle, refresh, release, count_attempt,
}
use percolator_keeper.Budget.Trace.{
  Call, spends, records, adjusts, begins_cycle, reads_stats, halts, resumes, step, run,
}
use percolator_keeper.Budget.Latch.{can_spend_halted}
use percolator_keeper.Budget.Caps.{can_spend_live}
use percolator_keeper.Budget.Ledger.{
  total_within, Tracks, Tracks-later, Tracks-book, Tracks-prune, Tracks-sum,
}

-- The two rolling windows of a budget.
pub data Window : Type 0 where
  hourly daily : Window

abbrev pub age_of : Window → ℕ
age_of hourly = hour_ms
age_of daily = day_ms

abbrev pub ledger_of : Window → Budget → Ledger
ledger_of hourly b = b.hour
ledger_of daily b = b.day

abbrev pub entry : ℕ → ℤ → List SpendEvent
entry now amount = record { ts = now; lamports = amount } ∷ []

-- What a settled send adds to the history: nothing if it was dropped.
abbrev pub booked_amount : ℕ → ℕ → TxResult → List SpendEvent
booked_amount now n drop = []
booked_amount now n _ = entry now (pos n)

-- What a reconciliation adds to the history of a ledger: the change, cut where the sum would fall
-- below 0.
abbrev pub applied_change : Ledger → ℕ → ℕ → ℤ
applied_change l estimated realized =
    pos (pos_part (l.sum +ℤ (pos realized -ℤ pos estimated))) -ℤ l.sum

abbrev pub booked_change : ℕ → ℤ → List SpendEvent
booked_change now applied = if is_zero applied then [] else entry now applied

-- What a call books in a window of the budget.
abbrev pub booked : Window → Budget → ℕ × Call → List SpendEvent
booked w b (now, records (finite (pos n)) result) = booked_amount now n result
booked w b (now, adjusts (finite (pos e)) (finite (pos r))) =
    booked_change now (applied_change (ledger_of w b) e r)
booked w b _ = []

-- All that the calls book, in order.
unfoldable pub history : Window → Budget → List (ℕ × Call) → List SpendEvent
history w b [] = []
history w b (c ∷ cs) = booked w b c ++ history w (step b c) cs

-- The clock does not go back, from a time on.
abbrev pub IsMonotone : ℕ → List (ℕ × Call) → Type 0
IsMonotone time [] = Unit {0}
IsMonotone time ((now, c) ∷ cs) = (time ≤ now) × IsMonotone now cs

-- The time of the last call.
abbrev pub last_time : ℕ → List (ℕ × Call) → ℕ
last_time time [] = time
last_time time ((now, c) ∷ cs) = last_time now cs

-- A call that books nothing leaves a ledger as it was, or prunes it.
abbrev pub IsKept : Window → ℕ → Budget → Budget → Type 0
IsKept w now b b' =
    (ledger_of w b' ≡ ledger_of w b)
    ⊎ (ledger_of w b' ≡ prune_ledger (age_of w) now (ledger_of w b))
