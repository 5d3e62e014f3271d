-- ===== src/Liquidation/Verdict.antt =====
-- src/services/liquidation.ts: the verdict of `evaluateV17PortfolioHealth` against its description.
use percolator_keeper.Prelude.{
  ℕ, ◌≡◌, refl, sym, ap, subst, ◌⊎◌, ◌↔◌, ℤ, pos, ◌≤ℤ◌, true, false, none, some, List, [], ◌∷◌,
  arith,
}
use percolator_keeper.Liquidation.{
  Leg, Market, Portfolio, Health, Scan, abs_pos, verdict, scan_legs, evaluate_v17_portfolio_health,
  conservative_equity, shortfall, no_legs, unresolved, add_leg, note_first,
}
use percolator_keeper.Liquidation.Aggregate.{
  all_priced, first_live, total_notional, total_maintenance, collect, scan_legs-priced,
  sums-collect, target-collect, target-collect-none,
}

-- The verdict where every leg that counts has a price, and `leg` is the first that counts.
pub record IsJudged (m : Market) (pf : Portfolio) (leg : Leg) (h : Health) : Type 0 where
  pub decided : (h.liquidatable ≡ true) ↔ (
      (conservative_equity pf ≤ℤ pos 0)
      ⊎ ¬ (pos (total_maintenance m pf.legs) ≤ℤ conservative_equity pf))
  pub target_size : h.close_q ≡ abs_pos leg
  pub target_asset : h.asset_index ≡ pos leg.asset_index
  pub missing : h.deficit ≡ shortfall (total_maintenance m pf.legs) (conservative_equity pf)
  pub exposure : h.aggregate_notional ≡ total_notional m pf.legs
  pub complete : h.notional_complete ≡ true

verdict-IsJudged :
    (m : Market) (pf : Portfolio) (leg : Leg) (s : Scan)
    → s.maintenance ≡ total_maintenance m pf.legs
    → s.notional ≡ total_notional m pf.legs
    → s.first_asset_index ≡ some leg.asset_index
    → s.close_q ≡ abs_pos leg
    → IsJudged m pf leg (verdict (conservative_equity pf) s)
unfolding verdict
verdict-IsJudged m pf leg s a b c d = ground arith

-- Where every leg that counts has a price, a portfolio with such a leg is liquidatable exactly when
-- its conservative equity is not above 0 or is below the maintenance of all its legs together. The
-- target is the first leg that counts, and the exposure is that of all legs.
pub evaluate-IsJudged :
    (m : Market) (pf : Portfolio) (leg : Leg)
    → all_priced m pf.legs ≡ true
    → first_live pf.legs ≡ some leg
    → IsJudged m pf leg (evaluate_v17_portfolio_health m pf)
unfolding evaluate_v17_portfolio_health
evaluate-IsJudged m pf leg priced live =
    let sums = sums-collect m pf.legs no_legs in
    let target = target-collect m pf.legs no_legs leg refl live in
    subst (IsJudged m pf leg)
      (sym (scan_legs-priced m (conservative_equity pf) pf.legs no_legs priced))
      (verdict-IsJudged m pf leg (collect m pf.legs no_legs) (omega (arith, sums.0))
        (omega (arith, sums.1)) (ap (λ t. t.0) target) (ap (λ t. t.1) target))

priced_of_none : (m : Market) (legs : List Leg) → first_live legs ≡ none → all_priced m legs ≡ true
priced_of_none m [] h = refl
priced_of_none m (leg ∷ legs) h = ground (arith, priced_of_none m legs)

-- A portfolio none of whose legs counts is never liquidatable.
pub evaluate_no_legs :
    (m : Market) (pf : Portfolio)
    → first_live pf.legs ≡ none
    → (evaluate_v17_portfolio_health m pf).liquidatable ≡ false
unfolding evaluate_v17_portfolio_health verdict
evaluate_no_legs m pf none_live = ground (
  arith,
  scan_legs-priced m (conservative_equity pf) pf.legs no_legs (priced_of_none m pf.legs none_live),
  target-collect-none m pf.legs no_legs none_live,
)

scan_legs_mono :
    (m : Market) (equity equity' : ℤ) (legs : List Leg) (s : Scan)
    → equity' ≤ℤ equity
    → (scan_legs m equity legs s).liquidatable ≡ true
    → (scan_legs m equity' legs s).liquidatable ≡ true
unfolding scan_legs verdict unresolved
scan_legs_mono m equity equity' [] s le h = ground arith
scan_legs_mono m equity equity' (leg ∷ legs) s le h = ground (
  arith,
  scan_legs_mono m equity equity' legs s le,
  scan_legs_mono m equity equity' legs (add_leg m leg (note_first leg s)) le,
)

-- Less equity on the same legs never makes a liquidatable portfolio healthy.
pub less_equity_stays_liquidatable :
    (m : Market) (pf pf' : Portfolio)
    → pf'.legs ≡ pf.legs
    → conservative_equity pf' ≤ℤ conservative_equity pf
    → (evaluate_v17_portfolio_health m pf).liquidatable ≡ true
    → (evaluate_v17_portfolio_health m pf').liquidatable ≡ true
unfolding evaluate_v17_portfolio_health
less_equity_stays_liquidatable m pf pf' same le h =
    subst (λ legs. (scan_legs m (conservative_equity pf') legs no_legs).liquidatable ≡ true)
      (sym same)
      (scan_legs_mono m (conservative_equity pf) (conservative_equity pf') pf.legs no_legs le h)

equity_of_profit :
    (pf : Portfolio) (profit : ℕ)
    → pos 0 ≤ℤ pf.pnl
    → conservative_equity (record pf { pnl = pos profit }) ≡ conservative_equity pf
unfolding conservative_equity
equity_of_profit pf profit h = ground arith

-- Profit that is not realized does not count: any two profits give the same verdict.
pub profit_does_not_count :
    (m : Market) (pf : Portfolio) (profit : ℕ)
    → pos 0 ≤ℤ pf.pnl
    → evaluate_v17_portfolio_health m (record pf { pnl = pos profit })
      ≡ evaluate_v17_portfolio_health m pf
unfolding evaluate_v17_portfolio_health
profit_does_not_count m pf profit h =
    ap (λ e. scan_legs m e pf.legs no_legs) (equity_of_profit pf profit h)
