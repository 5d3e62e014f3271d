-- ===== src/Budget/Causes.antt =====
-- src/lib/budget.ts: which anomalies latch the budget in `canSpend`, and that pressure does not.
use percolator_keeper.Prelude.{
  ℕ, ◌+◌, ◌≤◌, ◌≡◌, sym, ap, ◌∙◌, ◌⊎◌, ◌↔◌, ℤ, pos, negsuc, ◌+ℤ◌, ◌≤ℤ◌, Num, finite, nan, infinite,
  true, false, none, some, arith, length,
}
use percolator_keeper.Budget.State.{
  TxType, HaltKind, cycle_spend_cap, hour_spend_cap, day_spend_cap, cycle_tx_count_cap,
  tx_success_rate, non_finite_cost, operator, Reason, spend_over, low_rate, Budget,
}
use percolator_keeper.Budget.Window.{effective_tx_cap, success_rate_below_threshold}
use percolator_keeper.Budget.Halting.{halt, persist_halt_state}
use percolator_keeper.Budget.Admission.{can_spend, check_cost, check_caps, reserve, over_cap}
use percolator_keeper.Budget.Settlement.{refresh}
use percolator_keeper.Budget.Caps.{can_spend_live}
use percolator_keeper.Budget.Latch.{latch-refresh}

-- What must hold of a rolled and pruned budget for an amount `n` to latch it with a kind.
abbrev pub Anomaly : HaltKind → Budget → ℕ → TxType → Type 0
Anomaly hour_spend_cap b n t =
    (b.cycle_spend + n ≤ b.max_sol_per_cycle) × ¬ ((b.hour.sum +ℤ pos n) ≤ℤ pos b.max_sol_per_hour)
Anomaly day_spend_cap b n t =
    (b.cycle_spend + n ≤ b.max_sol_per_cycle)
    × ((b.hour.sum +ℤ pos n) ≤ℤ pos b.max_sol_per_hour)
    × ¬ ((b.day.sum +ℤ pos n) ≤ℤ pos b.max_sol_per_day)
Anomaly tx_success_rate b n t =
    (b.cycle_spend + n ≤ b.max_sol_per_cycle)
    × ((b.hour.sum +ℤ pos n) ≤ℤ pos b.max_sol_per_hour)
    × ((b.day.sum +ℤ pos n) ≤ℤ pos b.max_sol_per_day)
    × (b.cycle_tx_count + 1 ≤ effective_tx_cap b.config t)
    × (success_rate_below_threshold b ≡ true)
Anomaly _ b n t = ⊥

over_cap_cases :
    (cap : ℕ) (sum : ℤ) (n : ℕ)
    → ((over_cap cap sum n ≡ true) × ¬ ((sum +ℤ pos n) ≤ℤ pos cap))
      ⊎ ((over_cap cap sum n ≡ false) × ((sum +ℤ pos n) ≤ℤ pos cap))
unfolding over_cap
over_cap_cases cap sum n = ground arith

halt_kind-halt :
    (kind : HaltKind) (reason : Reason) (b : Budget)
    → b.is_halted ≡ false
    → ((halt kind reason b).halt_kind ≡ some kind) × ((halt kind reason b).is_halted ≡ true)
unfolding halt persist_halt_state
halt_kind-halt kind reason b h = ground arith

-- The three halts of `check_caps` in the order of its tests.
check_caps-Anomaly :
    (b : Budget) (n : ℕ) (t : TxType) (kind : HaltKind)
    → b.is_halted ≡ false
    → b.halt_kind ≡ none
    → (check_caps b n t).0.halt_kind ≡ some kind
    → Anomaly kind b n t
unfolding check_caps reserve
check_caps-Anomaly b n t hour_spend_cap h k e = ground (
  arith,
  over_cap_cases b.max_sol_per_hour b.hour.sum n,
  halt_kind-halt day_spend_cap (spend_over (b.day.sum +ℤ pos n) b.max_sol_per_day t) b h,
  halt_kind-halt tx_success_rate (low_rate b.tx_window.successes (length b.tx_window.records) t) b
      h,
)
check_caps-Anomaly b n t _ h k e = ground (
  arith,
  over_cap_cases b.max_sol_per_hour b.hour.sum n,
  over_cap_cases b.max_sol_per_day b.day.sum n,
  halt_kind-halt hour_spend_cap (spend_over (b.hour.sum +ℤ pos n) b.max_sol_per_hour t) b h,
  halt_kind-halt day_spend_cap (spend_over (b.day.sum +ℤ pos n) b.max_sol_per_day t) b h,
  halt_kind-halt tx_success_rate (low_rate b.tx_window.successes (length b.tx_window.records) t) b
      h,
)

Anomaly-check_caps :
    (b : Budget) (n : ℕ) (t : TxType) (kind : HaltKind)
    → b.is_halted ≡ false
    → Anomaly kind b n t
    → ((check_caps b n t).0.halt_kind ≡ some kind) × ((check_caps b n t).0.is_halted ≡ true)
unfolding check_caps
Anomaly-check_caps b n t hour_spend_cap h a = ground (
  arith,
  over_cap_cases b.max_sol_per_hour b.hour.sum n,
  halt_kind-halt hour_spend_cap (spend_over (b.hour.sum +ℤ pos n) b.max_sol_per_hour t) b h,
)
Anomaly-check_caps b n t day_spend_cap h a = ground (
  arith,
  over_cap_cases b.max_sol_per_hour b.hour.sum n,
  over_cap_cases b.max_sol_per_day b.day.sum n,
  halt_kind-halt day_spend_cap (spend_over (b.day.sum +ℤ pos n) b.max_sol_per_day t) b h,
)
Anomaly-check_caps b n t tx_success_rate h a = ground (
  arith,
  over_cap_cases b.max_sol_per_hour b.hour.sum n,
  over_cap_cases b.max_sol_per_day b.day.sum n,
  halt_kind-halt tx_success_rate (low_rate b.tx_window.successes (length b.tx_window.records) t) b
      h,
)
Anomaly-check_caps b n t cycle_spend_cap h a = absurd a
Anomaly-check_caps b n t cycle_tx_count_cap h a = absurd a
Anomaly-check_caps b n t non_finite_cost h a = absurd a
Anomaly-check_caps b n t operator h a = absurd a

-- On a budget that is not halted, proposing an amount halts it with a kind exactly when that anomaly
-- is there: only a breach of the hour or the day cap or the success rate latches. So a full cycle,
-- in lamports or in transactions, and amounts in flight never do.
pub can_spend-halts_iff :
    (b : Budget) (now n : ℕ) (t : TxType) (kind : HaltKind)
    → b.is_halted ≡ false
    → b.halt_kind ≡ none
    → ((can_spend now (finite (pos n)) t b).0.halt_kind ≡ some kind)
      ↔ Anomaly kind (refresh now b) n t
can_spend-halts_iff b now n t kind h k =
    let live = can_spend_live b now n t h in
    let same = latch-refresh now b in
    let h' : (refresh now b).is_halted ≡ false = ap (λ l. l.0) same ∙ h in
    let k' : (refresh now b).halt_kind ≡ none = ap (λ l. l.1) same ∙ k in
    (
      λ e.
          check_caps-Anomaly (refresh now b) n t kind h' k'
            (ap (λ r. r.0.halt_kind) (sym live) ∙ e),
      λ a. ap (λ r. r.0.halt_kind) live ∙ (Anomaly-check_caps (refresh now b) n t kind h' a).0,
    )

abbrev pub IsAmount : Num → Type 0
IsAmount (finite (pos n)) = Unit {0}
IsAmount _ = ⊥

-- A cost that is not a finite amount halts a budget that is not halted, as a malformed fee, and is
-- refused before it is booked, reserved or compared.
bad_cost_halts :
    (b : Budget) (now : ℕ) (cost : Num) (t : TxType)
    → ¬ IsAmount cost
    → b.is_halted ≡ false
    → let (b', admitted) = can_spend now cost t b in
      (admitted ≡ false)
      × (b'.is_halted ≡ true)
      × (b'.halt_kind ≡ some non_finite_cost)
      × (b'.reserved_lamports ≡ b.reserved_lamports)
      × (b'.hour ≡ b.hour)
      × (b'.cycle_tx_count ≡ b.cycle_tx_count)
unfolding can_spend check_cost halt persist_halt_state
bad_cost_halts b now (finite (pos n)) t q h = absurd (q tt)
bad_cost_halts b now (finite (negsuc n)) t q h = ground arith
bad_cost_halts b now nan t q h = ground arith
bad_cost_halts b now infinite t q h = ground arith
