-- ===== src/Tests/LiquidationTests.antt =====
-- The liquidation service and the risk parameters at concrete inputs: a market with two legs, whose
-- prices are the fallback, and a small account of bytes.
use percolator_keeper.Prelude.{
  ℕ, zero, suc, ◌+◌, ◌*◌, ◌≤◌, ◌<◌, ◌≡◌, refl, pos, negsuc, ◌≤ℤ◌, ◌+ℤ◌, ◌-ℤ◌, true, false, List, [],
  ◌∷◌, arith,
}
use percolator_keeper.Risk.{
  Layout, long, RiskParams, parsed, parse_v17_risk_params, read_u64_le,
  target_effective_lag_penalty, adverse_delta, pos_scale, short, check_margin, build_params,
  read_u128_le, join_u128, read_rounds, risk_params_min_data_len, read_effective_price_for_asset,
  read_raw_oracle_target_price_for_asset,
}
use percolator_keeper.Risk.Lag.{lag_penalty_rounds_up}
use percolator_keeper.Liquidation.{
  Leg, Portfolio, Market, evaluate_v17_portfolio_health, is_below_liquidation_dust_floor,
  conservative_equity, leg_notional, leg_price, scan_legs, verdict, unresolved, add_leg, note_first,
  leg_maintenance, shortfall,
}
use percolator_keeper.Liquidation.Verdict.{IsJudged, evaluate-IsJudged}
use percolator_keeper.Liquidation.Aggregate.{all_priced}
use percolator_keeper.Liquidation.Exposure.{unpriced_fails_closed, dust_hides_no_leg}
use percolator_keeper.Liquidation.Prices.{WrapperConfig}

abbrev pub layout : Layout
layout = record {
  header_len = 0;
  market_group_off = 0;
  market_group_len = 0;
  mg_config_off = 0;
  asset_slot_stride = 16;
  asset_oracle_wrapper_len = 0;
  effective_price_off = 200;
  raw_oracle_target_price_off = 208;
  h_min_off = 8;
  h_max_off = 16;
  maintenance_margin_bps_off = 0;
  liquidation_fee_bps_off = 24;
  min_nonzero_mm_req_off = 32;
}

abbrev market : Market
market = record {
  layout = layout;
  bytes = [];
  maintenance_margin_bps = 500;
  min_nonzero_mm_req = 1;
  fallback_price = 2_000_000;
}

abbrev unpriced_market : Market
unpriced_market = record market { fallback_price = 0 }

abbrev pub small : Leg
small = record { active = true; asset_index = 0; basis_pos_q = pos 10 }

abbrev pub large : Leg
large = record { active = true; asset_index = 1; basis_pos_q = negsuc 999 }

abbrev pub portfolio : Portfolio
portfolio = record {
  capital = pos 40;
  pnl = pos 70;
  fee_credits = pos 0;
  legs = small ∷ large ∷ [];
}

priced : all_priced market portfolio.legs ≡ true
unfolding leg_price read_effective_price_for_asset
priced = refl

no_price : all_priced unpriced_market portfolio.legs ≡ false
unfolding leg_price read_effective_price_for_asset
no_price = refl

less : conservative_equity (record portfolio { capital = pos 30 }) ≤ℤ conservative_equity portfolio
unfolding conservative_equity ◌+ℤ◌ ◌-ℤ◌
less = omega arith

pub judged : (evaluate_v17_portfolio_health market portfolio).liquidatable ≡ true
unfolding evaluate_v17_portfolio_health scan_legs verdict unresolved add_leg note_first leg_notional
    leg_maintenance leg_price read_effective_price_for_asset read_raw_oracle_target_price_for_asset
    target_effective_lag_penalty adverse_delta conservative_equity ◌+ℤ◌ ◌-ℤ◌ shortfall
judged = refl

large_enough : 1_000 ≤ leg_notional market large
unfolding leg_notional leg_price read_effective_price_for_asset
large_enough = omega arith

evaluate-IsJudged_example :
    IsJudged market portfolio small (evaluate_v17_portfolio_health market portfolio)
evaluate-IsJudged_example = evaluate-IsJudged market portfolio small priced refl

unpriced_fails_closed_example :
    let h = evaluate_v17_portfolio_health unpriced_market portfolio in
    (h.liquidatable ≡ true)
    × (is_below_liquidation_dust_floor (pos h.aggregate_notional) h.notional_complete (pos 9)
        ≡ false)
unpriced_fails_closed_example = unpriced_fails_closed unpriced_market portfolio (pos 9) no_price

dust_hides_no_leg_example :
    let h = evaluate_v17_portfolio_health market portfolio in
    is_below_liquidation_dust_floor (pos h.aggregate_notional) h.notional_complete (pos 1_000)
    ≡ false
dust_hides_no_leg_example =
    dust_hides_no_leg market portfolio (small ∷ []) [] large 1_000 refl refl large_enough

abbrev wrapper : WrapperConfig
wrapper = record {
  oracle_mode = 3;
  max_staleness_secs = 30;
  oracle_target_publish_time = 100;
  oracle_target_price_e6 = 5;
  mark_ewma_e6 = 4;
}

abbrev zeros : ℕ → List ℕ
zeros zero = []
zeros (suc n) = 0 ∷ zeros n

-- A margin of 500 = 1 * 256 + 244, and all else 0 but a buffer of 112 bytes.
abbrev pub account : List ℕ
account = 244 ∷ 1 ∷ zeros 110

abbrev pub params : RiskParams
params = record {
  warmup_period_slots = 0;
  maintenance_margin_bps = 500;
  h_min = 0;
  h_max = 0;
  open_interest_cap = 0;
  maintenance_fee_per_slot = 0;
  liquidation_fee_share_bps = 0;
  adl_fill_cap_bps = 0;
  min_position_size = 0;
  min_nonzero_mm_req = 0;
}

pub account-parsed : parse_v17_risk_params layout account ≡ parsed params
unfolding parse_v17_risk_params check_margin build_params read_u64_le read_u128_le join_u128
    read_rounds risk_params_min_data_len
account-parsed = refl

lag_penalty_rounds_up_example :
    let on_long = target_effective_lag_penalty 3 long 5_000_000 4_500_000 * pos_scale in
    let on_short = target_effective_lag_penalty 3 short 5_000_000 4_500_000 * pos_scale in
    (1_500_000 ≤ on_long)
    × (on_long < 1_500_000 + pos_scale)
    × (0 ≤ on_short)
    × (on_short < pos_scale)
lag_penalty_rounds_up_example =
    lag_penalty_rounds_up 3 5_000_000 4_500_000 (omega arith) (omega arith)
