-- ===== src/Liquidation/Submit/Agreement.antt =====
-- src/services/liquidation.ts: the scan and the check before sending judge a portfolio alike.
use percolator_keeper.Prelude.{
  ℕ, ◌<◌, ◌≡◌, refl, ◌∙◌, ℤ, pos, negsuc, ◌≤ℤ◌, true, false, some, List, [], ◌∷◌, arith, Bool-cases,
  inl, inr, ◌↔◌,
}
use percolator_keeper.Risk.{Layout, Parsed, parsed, RiskParams, parse_v17_risk_params}
use percolator_keeper.Liquidation.{
  Leg, Market, Portfolio, evaluate_v17_portfolio_health, conservative_equity, scan_legs, verdict,
  no_legs, Scan, is_skipped, note_first, add_leg, unresolved, is_below_liquidation_dust_floor,
}
use percolator_keeper.Liquidation.Portfolios.{ParsedPortfolio, score, candidate_of}
use percolator_keeper.Liquidation.Prices.{resolve_v17_wrapper_price}
use percolator_keeper.Liquidation.Submit.{
  both_read, FreshMarket, market_of, drift_exceeds, has_active, liquidatable_size, size_by_params,
  recheck_price, recheck_v17,
}

drift_same : (limit price : ℕ) → drift_exceeds limit price price ≡ false
unfolding drift_exceeds
drift_same limit price = ground arith

-- Without a leg that counts, an evaluation has no target.
no_target :
    (m : Market) (equity : ℤ) (legs : List Leg)
    → has_active legs ≡ false
    → (scan_legs m equity legs no_legs).asset_index ≡ negsuc 0
unfolding has_active scan_legs verdict
no_target m equity [] h = refl
no_target m equity (leg ∷ legs) h = ground (arith, h, no_target m equity legs)

target_has_leg :
    (m : Market) (pf : Portfolio)
    → pos 0 ≤ℤ (evaluate_v17_portfolio_health m pf).asset_index
    → has_active pf.legs ≡ true
unfolding evaluate_v17_portfolio_health
target_has_leg m pf h = elim (Bool-cases (has_active pf.legs)) [
  | inl e ↦ e
  | inr e ↦ absurd (ground (arith, h, no_target m (conservative_equity pf) pf.legs e))
]

recheck_passes :
    (l : Layout) (limit scan : ℕ) (pf : Portfolio) (f : FreshMarket) (p : RiskParams) (r : Parsed)
    → parse_v17_risk_params l f.bytes ≡ r
    → r ≡ parsed p
    → 0 < scan
    → (evaluate_v17_portfolio_health (market_of l f.bytes p scan) pf).liquidatable ≡ true
    → recheck_price l (some limit) scan pf f scan
      ≡ some (evaluate_v17_portfolio_health (market_of l f.bytes p scan) pf).close_q
unfolding recheck_price size_by_params liquidatable_size
recheck_passes l limit scan pf f p r e q h liq =
    rw (e ∙ q) (ground (arith, h, liq, drift_same limit scan))

-- What the scan proposes, the check before sending accepts, with the same size, if nothing has changed
-- in between: the same portfolio, the same bytes of the market with parameters that parse, and a price
-- that is again the one of the scan.
pub unchanged_candidate_passes :
    (l : Layout) (limit : ℕ) (pf : Portfolio) (f : FreshMarket) (p : RiskParams)
    → parse_v17_risk_params l f.bytes ≡ parsed p
    → let price = resolve_v17_wrapper_price f.wrapper f.now_sec in
      let h = evaluate_v17_portfolio_health (market_of l f.bytes p price) pf in
      0 < price
      → h.liquidatable ≡ true
      → pos 0 ≤ℤ h.asset_index
      → recheck_v17 l (some limit) price (both_read pf f) ≡ some h.close_q
unfolding recheck_v17
unchanged_candidate_passes l limit pf f p e priced liq leg =
    let price = resolve_v17_wrapper_price f.wrapper f.now_sec in
    rw (target_has_leg (market_of l f.bytes p price) pf leg)
      (recheck_passes l limit price pf f p (parse_v17_risk_params l f.bytes) refl e priced liq)

-- With a first leg noted, an evaluation has a target.
noted_target :
    (m : Market) (equity : ℤ) (legs : List Leg) (s : Scan) (i : ℕ)
    → s.first_asset_index ≡ some i
    → pos 0 ≤ℤ (scan_legs m equity legs s).asset_index
unfolding scan_legs verdict unresolved add_leg note_first
noted_target m equity [] s i h = ground (arith, h)
noted_target m equity (leg ∷ legs) s i h = ground (
  arith,
  h,
  noted_target m equity legs s i h,
  noted_target m equity legs (add_leg m leg (note_first leg s)) i (ground (arith, h)),
)

leg_gives_target :
    (m : Market) (equity : ℤ) (legs : List Leg)
    → has_active legs ≡ true
    → pos 0 ≤ℤ (scan_legs m equity legs no_legs).asset_index
unfolding has_active scan_legs unresolved note_first add_leg
leg_gives_target m equity [] h = absurd (ground (arith, h))
leg_gives_target m equity (leg ∷ legs) h = elim (Bool-cases (is_skipped leg)) [
  | inl skipped ↦
      ground (arith, skipped, h, leg_gives_target m equity legs (ground (arith, skipped, h)))
  | inr counts ↦ ground (
    arith,
    counts,
    noted_target m equity legs (add_leg m leg (note_first leg no_legs)) leg.asset_index
        (ground (arith)),
  )
]

recheck-facts :
    (l : Layout) (limit scan : ℕ) (pf : Portfolio) (f : FreshMarket) (p : RiskParams) (r : Parsed)
    (q : ℕ)
    → parse_v17_risk_params l f.bytes ≡ r
    → r ≡ parsed p
    → let price = resolve_v17_wrapper_price f.wrapper f.now_sec in
      recheck_v17 l (some limit) scan (both_read pf f) ≡ some q
      → (has_active pf.legs ≡ true)
        × ((evaluate_v17_portfolio_health (market_of l f.bytes p price) pf).liquidatable ≡ true)
unfolding recheck_v17 recheck_price size_by_params liquidatable_size
recheck-facts l limit scan pf f p r q e k h = ground (arith, e ∙ k, h)

score_iff :
    (market_key key : ℕ) (m : Market) (floor : ℤ) (p : ParsedPortfolio)
    → let h = evaluate_v17_portfolio_health m p.portfolio in
      (score market_key m floor key p ≡ some (candidate_of key p h)) ↔ (
        (p.market_group_id ≡ market_key)
        × (pos 0 ≤ℤ h.asset_index)
        × (h.liquidatable ≡ true)
        × (is_below_liquidation_dust_floor (pos h.aggregate_notional) h.notional_complete floor
            ≡ false))
unfolding score
score_iff market_key key m floor p = ground arith

-- Where nothing changes between the two (the same portfolio, the same bytes of the market, whose
-- parameters parse, and the same price, above 0), the scan proposes a portfolio exactly if it is one of
-- the market, it is not below the dust floor, and the check before sending accepts it, with the size
-- that the scan proposes and whatever the drift limit.
pub scan_agrees_with_recheck :
    (l : Layout) (limit market_key key : ℕ) (floor : ℤ) (p : ParsedPortfolio) (f : FreshMarket)
    (params : RiskParams)
    → parse_v17_risk_params l f.bytes ≡ parsed params
    → let price = resolve_v17_wrapper_price f.wrapper f.now_sec in
      let m = market_of l f.bytes params price in
      let h = evaluate_v17_portfolio_health m p.portfolio in
      0 < price
      → (score market_key m floor key p ≡ some (candidate_of key p h)) ↔ (
          (p.market_group_id ≡ market_key)
          × (is_below_liquidation_dust_floor (pos h.aggregate_notional) h.notional_complete floor
              ≡ false)
          × (recheck_v17 l (some limit) price (both_read p.portfolio f) ≡ some h.close_q))
unfolding evaluate_v17_portfolio_health
scan_agrees_with_recheck l limit market_key key floor p f params e priced =
    let price = resolve_v17_wrapper_price f.wrapper f.now_sec in
    let m = market_of l f.bytes params price in
    let (there, back) = score_iff market_key key m floor p in
    (
      (λ proposed.
          let (group, target, liq, large) = there proposed in
          (
            group,
            large,
            unchanged_candidate_passes l limit p.portfolio f params e priced liq target,
          )),
      (λ (group, large, passed).
          let (leg, liq) =
            recheck-facts l limit price p.portfolio f params (parse_v17_risk_params l f.bytes)
              (evaluate_v17_portfolio_health m p.portfolio).close_q refl e passed in
          back (
            group,
            leg_gives_target m (conservative_equity p.portfolio) p.portfolio.legs leg,
            liq,
            large,
          )),
    )
