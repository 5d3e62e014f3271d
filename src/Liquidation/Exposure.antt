-- ===== src/Liquidation/Exposure.antt =====
-- src/services/liquidation.ts: the dust floor and the margin ratio.
use percolator_keeper.Prelude.{
  ℕ, ◌*◌, ◌≤◌, ◌<◌, ◌≡◌, ap, ◌∙◌, ◌↔◌, ℤ, pos, Bool, true, false, some, List, [], ◌∷◌, ◌++◌, arith,
  Bool-cases, inl, inr,
}
use percolator_keeper.Liquidation.{
  Leg, Market, Portfolio, is_skipped, leg_notional, evaluate_v17_portfolio_health,
  conservative_equity, no_legs, is_below_liquidation_dust_floor, compute_margin_ratio_bps,
  bps_multiplier,
}
use percolator_keeper.Liquidation.Verdict.{evaluate-IsJudged}
use percolator_keeper.Liquidation.Aggregate.{
  all_priced, first_live, total_notional, scan_legs-unpriced,
}

leg_notional-le-total :
    (m : Market) (xs : List Leg) (leg : Leg) (ys : List Leg)
    → is_skipped leg ≡ false
    → leg_notional m leg ≤ total_notional m (xs ++ leg ∷ ys)
leg_notional-le-total m [] leg ys h = ground arith
leg_notional-le-total m (x ∷ xs) leg ys h = ground (arith, leg_notional-le-total m xs leg ys h)

-- A portfolio with a leg that has no price is liquidatable, and no dust floor skips it.
pub unpriced_fails_closed :
    (m : Market) (pf : Portfolio) (floor : ℤ)
    → all_priced m pf.legs ≡ false
    → let h = evaluate_v17_portfolio_health m pf in
      (h.liquidatable ≡ true)
      × (is_below_liquidation_dust_floor (pos h.aggregate_notional) h.notional_complete floor
          ≡ false)
unfolding evaluate_v17_portfolio_health is_below_liquidation_dust_floor
unpriced_fails_closed m pf floor h =
    ground (arith, scan_legs-unpriced m (conservative_equity pf) pf.legs no_legs h)

floor_reached :
    (n floor : ℕ) (complete : Bool)
    → floor ≤ n
    → is_below_liquidation_dust_floor (pos n) complete (pos floor) ≡ false
unfolding is_below_liquidation_dust_floor
floor_reached n floor complete h = ground arith

first_live_of_mem :
    (xs : List Leg) (leg : Leg) (ys : List Leg)
    → is_skipped leg ≡ false
    → (l : Leg) × (first_live (xs ++ leg ∷ ys) ≡ some l)
first_live_of_mem [] leg ys h = (leg, ground arith)
first_live_of_mem (x ∷ xs) leg ys h = elim (Bool-cases (is_skipped x)) [
  | inl k ↦ let (l, e) = first_live_of_mem xs leg ys h in (l, ground arith)
  | inr k ↦ (x, ground arith)
]

-- No dust leg hides a large one: if any leg that counts reaches the floor by itself, in whatever slot
-- it stands, then the portfolio is not skipped as dust.
pub dust_hides_no_leg :
    (m : Market) (pf : Portfolio) (xs ys : List Leg) (leg : Leg) (floor : ℕ)
    → pf.legs ≡ xs ++ leg ∷ ys
    → is_skipped leg ≡ false
    → floor ≤ leg_notional m leg
    → let h = evaluate_v17_portfolio_health m pf in
      is_below_liquidation_dust_floor (pos h.aggregate_notional) h.notional_complete (pos floor)
      ≡ false
dust_hides_no_leg m pf xs ys leg floor e live big = elim (Bool-cases (all_priced m pf.legs)) [
  | inl priced ↦
      let (l, f) = first_live_of_mem xs leg ys live in
      let judged = evaluate-IsJudged m pf l priced (ap first_live e ∙ f) in
      floor_reached _ floor _ (
        omega
          (arith, judged.exposure, ap (total_notional m) e, leg_notional-le-total m xs leg ys live))
  | inr unpriced ↦ (unpriced_fails_closed m pf (pos floor) unpriced).1
]

-- The test by the ratio in basis points, which is rounded down, is the exact test on the amounts.
pub margin_ratio_lt_iff :
    (equity notional margin : ℕ)
    → 0 < equity
    → 0 < notional
    → (compute_margin_ratio_bps (pos equity) notional < margin)
      ↔ (equity * bps_multiplier < margin * notional)
unfolding compute_margin_ratio_bps
margin_ratio_lt_iff equity notional margin he hn = (λ h. grind arith, λ h. grind arith)
