-- ===== src/Risk/Lag.antt =====
-- src/lib/v17-risk.ts: the target/effective-price lag penalty.
use percolator_keeper.Prelude.{ℕ, ◌+◌, ◌-◌, ◌*◌, ◌≤◌, ◌<◌, arith}
use percolator_keeper.Risk.{
  Side, long, short, adverse_delta, target_effective_lag_penalty, pos_scale,
}

-- Where both prices are above 0, the penalty is the position times the adverse difference of the
-- prices, divided by the scale and rounded up. The difference is that by which the target lies below
-- the effective price for a long, and above it for a short, and 0 otherwise.
pub lag_penalty_rounds_up :
    (abs_pos effective target : ℕ)
    → 0 < effective
    → 0 < target
    → let on_long = target_effective_lag_penalty abs_pos long effective target * pos_scale in
      let on_short = target_effective_lag_penalty abs_pos short effective target * pos_scale in
      (abs_pos * (effective - target) ≤ on_long)
      × (on_long < abs_pos * (effective - target) + pos_scale)
      × (abs_pos * (target - effective) ≤ on_short)
      × (on_short < abs_pos * (target - effective) + pos_scale)
unfolding target_effective_lag_penalty adverse_delta
lag_penalty_rounds_up abs_pos effective target he ht = ground arith

-- An unreadable target (0) is never charged more than a target that was read.
pub unknown_target_charges_least :
    (abs_pos effective target : ℕ) (side : Side)
    → target_effective_lag_penalty abs_pos side effective 0
      ≤ target_effective_lag_penalty abs_pos side effective target
unfolding target_effective_lag_penalty
unknown_target_charges_least abs_pos effective target side = ground arith
