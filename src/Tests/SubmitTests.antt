-- ===== src/Tests/SubmitTests.antt =====
-- The checks before a liquidation is sent, at concrete inputs.
use percolator_keeper.Prelude.{
  ℕ, ◌<◌, ◌≤◌, ◌*◌, ◌-◌, ◌+◌, ◌/◌, ◌≡◌, refl, ◌⊎◌, ◌↔◌, pos, negsuc, ◌≤ℤ◌, ◌+ℤ◌, ◌-ℤ◌, true, false,
  some, [], ◌∷◌, arith,
}
use percolator_keeper.Risk.{
  read_u64_le, read_rounds, read_effective_price_for_asset, read_raw_oracle_target_price_for_asset,
  target_effective_lag_penalty, adverse_delta,
}
use percolator_keeper.Liquidation.{
  Portfolio, Health, evaluate_v17_portfolio_health, scan_legs, verdict, unresolved, add_leg,
  note_first, leg_notional, leg_maintenance, leg_price, conservative_equity, shortfall,
  is_below_liquidation_dust_floor,
}
use percolator_keeper.Liquidation.Portfolios.{ParsedPortfolio, score, candidate_of}
use percolator_keeper.Liquidation.Prices.{
  WrapperConfig, resolve_v17_wrapper_price, takes_target, takes_ewma, or_default, price_age,
}
use percolator_keeper.Liquidation.Submit.{
  FreshMarket, both_read, FreshSlab, LegacyAccount, v17, landed, Service, market_of, recheck_v17,
  recheck_v12, passes_checks, liquidate, send_liquidation, legacy_price,
}
use percolator_keeper.Liquidation.Submit.Rechecked.{IsRechecked, attempt-IsRechecked}
use percolator_keeper.Liquidation.Submit.Solvency.{recheck_v12_iff}
use percolator_keeper.Liquidation.Submit.Agreement.{
  unchanged_candidate_passes, scan_agrees_with_recheck,
}
use percolator_keeper.Tests.LiquidationTests.{layout, account, params, account-parsed, small}

abbrev poor : Portfolio
poor = record { capital = pos 0; pnl = pos 0; fee_credits = pos 0; legs = small ∷ [] }

abbrev wrapper : WrapperConfig
wrapper = record {
  oracle_mode = 3;
  max_staleness_secs = 30;
  oracle_target_publish_time = 100;
  oracle_target_price_e6 = 2_000_000;
  mark_ewma_e6 = 4;
}

abbrev fresh_market : FreshMarket
fresh_market = record { bytes = account; wrapper = wrapper; now_sec = 110 }

price_now : resolve_v17_wrapper_price wrapper 110 ≡ 2_000_000
unfolding resolve_v17_wrapper_price takes_target takes_ewma or_default price_age ◌-ℤ◌
price_now = refl

priced : 0 < resolve_v17_wrapper_price wrapper 110
priced = omega (arith, price_now)

abbrev health : Health
health =
    evaluate_v17_portfolio_health
      (market_of layout account params (resolve_v17_wrapper_price wrapper 110)) poor

poor-liquidatable : health.liquidatable ≡ true
unfolding evaluate_v17_portfolio_health scan_legs verdict unresolved add_leg note_first leg_notional
    leg_maintenance leg_price read_effective_price_for_asset read_raw_oracle_target_price_for_asset
    target_effective_lag_penalty adverse_delta conservative_equity ◌+ℤ◌ ◌-ℤ◌ shortfall
    resolve_v17_wrapper_price takes_target takes_ewma or_default price_age read_rounds read_u64_le
poor-liquidatable = refl

poor-leg : pos 0 ≤ℤ health.asset_index
unfolding evaluate_v17_portfolio_health scan_legs verdict unresolved add_leg note_first leg_notional
    leg_maintenance leg_price read_effective_price_for_asset read_raw_oracle_target_price_for_asset
    target_effective_lag_penalty adverse_delta conservative_equity ◌+ℤ◌ ◌-ℤ◌ shortfall
    resolve_v17_wrapper_price takes_target takes_ewma or_default price_age read_rounds read_u64_le
poor-leg = omega arith

abbrev parsed_poor : ParsedPortfolio
parsed_poor = record { market_group_id = 9; owner = 3; portfolio = poor }

scan_agrees_with_recheck_example :
    (score 9
        (market_of layout account params (resolve_v17_wrapper_price wrapper 110))
        (pos 1)
        8
        parsed_poor
      ≡ some (candidate_of 8 parsed_poor health))
    ↔ ((parsed_poor.market_group_id ≡ 9)
        × (is_below_liquidation_dust_floor
              (pos health.aggregate_notional)
              health.notional_complete
              (pos 1)
            ≡ false)
        × (recheck_v17 layout
              (some 150)
              (resolve_v17_wrapper_price wrapper 110)
              (both_read poor fresh_market)
            ≡ some health.close_q))
scan_agrees_with_recheck_example =
    scan_agrees_with_recheck layout 150 9 8 (pos 1) parsed_poor fresh_market params account-parsed
      priced

abbrev service : Service
service = record { submit_attempts = 4; liquidation_count = 2; is_permanently_skipped = false }

sends :
    4
    < (liquidate layout
        (some 150)
        2_000_000
        true
        (v17 10 (both_read poor fresh_market))
        (landed 77)
        service).0.submit_attempts
unfolding liquidate send_liquidation passes_checks
sends = ground (
  arith,
  price_now,
  unchanged_candidate_passes layout 150 poor fresh_market params account-parsed priced
      poor-liquidatable poor-leg,
)

attempt-IsRechecked_example : IsRechecked layout (some 150) 2_000_000 (both_read poor fresh_market)
attempt-IsRechecked_example =
    attempt-IsRechecked layout (some 150) 2_000_000 true 10 (both_read poor fresh_market)
      (landed 77) service sends

abbrev legacy : LegacyAccount
legacy = record {
  kind = 0;
  position_size = negsuc 9;
  capital = pos 5;
  pnl = pos 0;
  fee_credits = pos 0;
}

abbrev slab : FreshSlab
slab = record {
  is_used = true;
  account = legacy;
  maintenance_margin_bps = 500;
  config = record {
    oracle_authority = 0;
    index_feed_id = 3;
    last_effective_price_e6 = 2_000_000;
    authority_price_e6 = 0;
    authority_timestamp = 0;
  };
  now_sec = 110;
}

recheck_v12_iff_example :
    let limit : ℕ = 150 in
    let scan : ℕ = 2_000_000 in
    (recheck_v12 (some limit) scan (some slab) ≡ true) ↔ (
      (slab.is_used ≡ true)
      × (legacy.kind ≡ 0)
      × (0 < 10)
      × (0 < legacy_price slab)
      × ((limit ≡ 0)
          ⊎ (scan ≡ 0)
          ⊎ (((legacy_price slab - 2_000_000) * 10_000 < 151 * 2_000_000)
              × ((2_000_000 - legacy_price slab) * 10_000 < 151 * 2_000_000)))
      × ((5 ≤ 0)
          ⊎ (5 * 10_000 < 500 * (10 * legacy_price slab / 1_000_000) + 0)
          ⊎ (10 * legacy_price slab / 1_000_000 ≡ 0)))
recheck_v12_iff_example = recheck_v12_iff 150 2_000_000 slab
