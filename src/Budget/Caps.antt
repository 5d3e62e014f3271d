-- ===== src/Budget/Caps.antt =====
-- src/lib/budget.ts: exactly when `canSpend` admits a cost, and exactly when it halts the budget.
use percolator_keeper.Prelude.{
  ℕ, length, ◌*◌, ◌<◌, ◌⊎◌, ◌+◌, ◌≤◌, ◌≡◌, ◌↔◌, ℤ, pos, ◌+ℤ◌, ◌≤ℤ◌, Num, finite, true, false, arith,
  ap, sym, subst, ◌∙◌, +ℤ_parts,
}
use percolator_keeper.Budget.State.{TxType, Budget}
use percolator_keeper.Budget.Window.{effective_tx_cap, success_rate_below_threshold}
use percolator_keeper.Budget.Admission.{can_spend, check_cost, check_caps, reserve, over_cap}
use percolator_keeper.Budget.Settlement.{refresh}

-- Booked and reserved amounts and a further `n` stay within every cap, and there is a slot left.
pub record Fits (b : Budget) (n : ℕ) (t : TxType) : Type 0 where
  pub cycle : b.cycle_spend + b.reserved_lamports + n ≤ b.max_sol_per_cycle
  pub hourly : (b.hour.sum +ℤ pos b.reserved_lamports +ℤ pos n) ≤ℤ pos b.max_sol_per_hour
  pub daily : (b.day.sum +ℤ pos b.reserved_lamports +ℤ pos n) ≤ℤ pos b.max_sol_per_day
  pub slot : b.cycle_tx_count + b.reserved_tx_count + 1 ≤ effective_tx_cap b.config t

over_cap-le : (cap : ℕ) (sum : ℤ) (n : ℕ) → over_cap cap sum n ≡ false → (sum +ℤ pos n) ≤ℤ pos cap
unfolding over_cap
over_cap-le cap sum n h = ground arith

le-over_cap : (cap : ℕ) (sum : ℤ) (n : ℕ) → (sum +ℤ pos n) ≤ℤ pos cap → over_cap cap sum n ≡ false
unfolding over_cap
le-over_cap cap sum n h = ground arith

-- What fits with the reservations fits without them.
le-over_cap_reserved :
    (cap : ℕ) (sum : ℤ) (r n : ℕ) → (sum +ℤ pos r +ℤ pos n) ≤ℤ pos cap → over_cap cap sum n ≡ false
le-over_cap_reserved cap sum r n h =
    le-over_cap cap sum n
      (omega (arith, +ℤ_parts sum (pos n), +ℤ_parts sum (pos r), +ℤ_parts (sum +ℤ pos r) (pos n)))

check_caps-admits :
    (b : Budget) (n : ℕ) (t : TxType)
    → Fits b n t
    → success_rate_below_threshold b ≡ false
    → check_caps b n t ≡ (reserve n b, true)
unfolding check_caps
check_caps-admits b n t f r = ground (
  arith,
  le-over_cap_reserved b.max_sol_per_hour b.hour.sum b.reserved_lamports n f.hourly,
  le-over_cap_reserved b.max_sol_per_day b.day.sum b.reserved_lamports n f.daily,
  le-over_cap b.max_sol_per_hour (b.hour.sum +ℤ pos b.reserved_lamports) n f.hourly,
  le-over_cap b.max_sol_per_day (b.day.sum +ℤ pos b.reserved_lamports) n f.daily,
)

check_caps-Fits :
    (b : Budget) (n : ℕ) (t : TxType)
    → (check_caps b n t).1 ≡ true
    → Fits b n t × (success_rate_below_threshold b ≡ false)
unfolding check_caps
check_caps-Fits b n t h = ground (
  arith,
  over_cap-le b.max_sol_per_hour (b.hour.sum +ℤ pos b.reserved_lamports) n,
  over_cap-le b.max_sol_per_day (b.day.sum +ℤ pos b.reserved_lamports) n,
)

pub can_spend_live :
    (b : Budget) (now n : ℕ) (t : TxType)
    → b.is_halted ≡ false
    → can_spend now (finite (pos n)) t b ≡ check_caps (refresh now b) n t
unfolding can_spend check_cost refresh
can_spend_live b now n t h = ground arith

can_spend_live_of_true :
    (b : Budget) (now : ℕ) (cost : Num) (t : TxType)
    → (can_spend now cost t b).1 ≡ true
    → b.is_halted ≡ false
unfolding can_spend
can_spend_live_of_true b now cost t h = ground arith

admitted-Fits :
    (b : Budget) (now n : ℕ) (t : TxType)
    → (can_spend now (finite (pos n)) t b).1 ≡ true
    → Fits (refresh now b) n t × (success_rate_below_threshold (refresh now b) ≡ false)
admitted-Fits b now n t h =
    check_caps-Fits (refresh now b) n t
      (ap (λ r. r.1) (sym (can_spend_live b now n t (can_spend_live_of_true b now _ t h))) ∙ h)

pub fits_and_rate_iff :
    (b : Budget) (now n : ℕ) (t : TxType)
    → ((can_spend now (finite (pos n)) t b).1 ≡ true) ↔ (
        (b.is_halted ≡ false)
        × Fits (refresh now b) n t
        × (success_rate_below_threshold (refresh now b) ≡ false))
fits_and_rate_iff b now n t = (
  λ h. let (f, r) = admitted-Fits b now n t h in (can_spend_live_of_true b now _ t h, f, r),
  λ h. ap (λ r. r.1) (can_spend_live b now n t h.0 ∙ check_caps-admits (refresh now b) n t h.1 h.2),
)

rate_iff :
    (b : Budget)
    → (success_rate_below_threshold b ≡ false) ↔ (
        (length b.tx_window.records < b.tx_success_rate_min_samples)
        ⊎ (b.tx_success_rate_threshold.num * length b.tx_window.records
            ≤ b.tx_window.successes * b.tx_success_rate_threshold.den))
unfolding success_rate_below_threshold
rate_iff b = ground arith

-- A proposed amount is admitted exactly when the budget is not halted, the amount fits with all that
-- is booked and in flight, and the window of results has too few of them to judge or their successes
-- are at least the threshold's share of them.
pub can_spend-admits_iff :
    (b : Budget) (now n : ℕ) (t : TxType)
    → let r = refresh now b in
      ((can_spend now (finite (pos n)) t b).1 ≡ true) ↔ (
        (b.is_halted ≡ false)
        × Fits r n t
        × ((length r.tx_window.records < r.tx_success_rate_min_samples)
            ⊎ (r.tx_success_rate_threshold.num * length r.tx_window.records
                ≤ r.tx_window.successes * r.tx_success_rate_threshold.den)))
can_spend-admits_iff b now n t =
    let (there, back) = fits_and_rate_iff b now n t in
    let (holds, is_good) = rate_iff (refresh now b) in
    (
      (λ h. let (live, fits, rate) = there h in (live, fits, holds rate)),
      (λ (live, fits, rate). back (live, fits, is_good rate)),
    )

-- What is booked and in flight is within every cap, and so is the count for the lane `t`.
pub record IsWithinCaps (b : Budget) (t : TxType) : Type 0 where
  pub cycle : b.cycle_spend + b.reserved_lamports ≤ b.max_sol_per_cycle
  pub hourly : (b.hour.sum +ℤ pos b.reserved_lamports) ≤ℤ pos b.max_sol_per_hour
  pub daily : (b.day.sum +ℤ pos b.reserved_lamports) ≤ℤ pos b.max_sol_per_day
  pub count : b.cycle_tx_count + b.reserved_tx_count ≤ effective_tx_cap b.config t

reserve-IsWithinCaps : (b : Budget) (n : ℕ) (t : TxType) → Fits b n t → IsWithinCaps (reserve n b) t
unfolding reserve
reserve-IsWithinCaps b n t f = omega (
  arith,
  +ℤ_parts b.hour.sum (pos b.reserved_lamports),
  +ℤ_parts b.day.sum (pos b.reserved_lamports),
  +ℤ_parts (b.hour.sum +ℤ pos b.reserved_lamports) (pos n),
  +ℤ_parts (b.day.sum +ℤ pos b.reserved_lamports) (pos n),
  +ℤ_parts b.hour.sum (pos (b.reserved_lamports + n)),
  +ℤ_parts b.day.sum (pos (b.reserved_lamports + n)),
)

-- After an admission the booked amounts together with every send in flight are within each cap, and
-- the admitted amount is among those in flight: sends that are admitted before any of them settles
-- cannot overshoot a cap together.
pub admitted_within_caps :
    (b b' : Budget) (now n : ℕ) (t : TxType)
    → can_spend now (finite (pos n)) t b ≡ (b', true)
    → IsWithinCaps b' t × (b' ≡ reserve n (refresh now b))
admitted_within_caps b b' now n t e =
    let ok = ap (λ r. r.1) e in
    let (f, r) = admitted-Fits b now n t ok in
    let live = can_spend_live b now n t (can_spend_live_of_true b now _ t ok) in
    let state : b' ≡ reserve n (refresh now b) =
      ap (λ r. r.0) (sym e ∙ live ∙ check_caps-admits (refresh now b) n t f r) in
    (subst (λ s. IsWithinCaps s t) (sym state) (reserve-IsWithinCaps (refresh now b) n t f), state)
