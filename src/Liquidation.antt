-- ===== src/Liquidation.antt =====
-- src/services/liquidation.ts: the decisions of the liquidation service: portfolio health, the dust
-- floor, the margin ratio and the choice of a price. A BigInt of an unsigned field is an ℕ, any other
-- a ℤ. The account parser is the SDK's: a portfolio is what it returns.
pub mod Aggregate
pub mod Verdict
pub mod Exposure
pub mod Prices
pub mod Portfolios
pub mod Gate
pub mod Submit
pub mod Cycle
pub mod Legacy
use percolator_keeper.Prelude.{
  ℕ, zero, suc, ◌+◌, ◌-◌, ◌*◌, ◌/◌, ℤ, pos, negsuc, ◌+ℤ◌, ◌-ℤ◌, pos_part, neg_part, ltb_ℤ, Bool,
  true, false, Option, none, some, List, [], ◌∷◌, ltb, leb, ◌==◌, ◌||◌, ◌&&◌, not, if◌then◌else◌,
}
use percolator_keeper.Risk.{
  Layout, Side, long, short, read_effective_price_for_asset, read_raw_oracle_target_price_for_asset,
  target_effective_lag_penalty,
}

abbrev pub price_e6_divisor : ℕ
price_e6_divisor = 1_000_000

abbrev pub bps_multiplier : ℕ
bps_multiplier = 10_000

pub record Leg : Type 0 where
  pub active : Bool
  pub asset_index : ℕ
  pub basis_pos_q : ℤ

pub record Portfolio : Type 0 where
  pub capital : ℤ
  pub pnl : ℤ
  pub fee_credits : ℤ
  pub legs : List Leg

-- What the evaluation reads besides the portfolio.
pub record Market : Type 0 where
  pub layout : Layout
  pub bytes : List ℕ
  pub maintenance_margin_bps : ℕ
  pub min_nonzero_mm_req : ℕ
  pub fallback_price : ℕ

-- `asset_index` is -1 where there is no leg.
pub record Health : Type 0 where
  pub liquidatable : Bool
  pub close_q : ℕ
  pub asset_index : ℤ
  pub deficit : ℕ
  pub aggregate_notional : ℕ
  pub notional_complete : Bool

-- capital + min(pnl, 0) - the debt of fees
unfoldable pub conservative_equity : Portfolio → ℤ
conservative_equity pf =
    pf.capital +ℤ (if ltb_ℤ pf.pnl (pos 0) then pf.pnl else pos 0) -ℤ pos (neg_part pf.fee_credits)

abbrev pub abs_pos : Leg → ℕ
abs_pos leg = pos_part leg.basis_pos_q + neg_part leg.basis_pos_q

abbrev pub side_of : Leg → Side
side_of leg = if ltb_ℤ (pos 0) leg.basis_pos_q then long else short

-- `readEffectivePriceForAsset(…) || fallbackPrice`
unfoldable pub leg_price : Market → Leg → ℕ
leg_price m leg =
    let p = read_effective_price_for_asset m.layout m.bytes leg.asset_index in
    if p == 0 then m.fallback_price else p

unfoldable pub leg_notional : Market → Leg → ℕ
leg_notional m leg = (abs_pos leg * leg_price m leg + price_e6_divisor - 1) / price_e6_divisor

-- The base requirement, raised to its floor, and the lag penalty on top.
unfoldable pub leg_maintenance : Market → Leg → ℕ
leg_maintenance m leg =
    let base = leg_notional m leg * m.maintenance_margin_bps / bps_multiplier in
    (if ltb base m.min_nonzero_mm_req then m.min_nonzero_mm_req else base)
    + target_effective_lag_penalty (abs_pos leg) (side_of leg) (leg_price m leg)
        (read_raw_oracle_target_price_for_asset m.layout m.bytes leg.asset_index)

-- The variables of the loop over the legs.
pub record Scan : Type 0 where
  pub maintenance : ℕ
  pub first_asset_index : Option ℕ
  pub close_q : ℕ
  pub notional : ℕ

abbrev pub is_skipped : Leg → Bool
is_skipped leg = not leg.active || abs_pos leg == 0

unfoldable pub note_first : Leg → Scan → Scan
note_first leg s = elim s.first_asset_index [
  | some i ↦ s
  | none ↦ record s { first_asset_index = some leg.asset_index; close_q = abs_pos leg }
]

unfoldable pub add_leg : Market → Leg → Scan → Scan
add_leg m leg s = if leg_notional m leg == 0 then s else record s {
  notional = s.notional + leg_notional m leg;
  maintenance = s.maintenance + leg_maintenance m leg;
}

-- `a > b ? a - b : 0`
unfoldable pub shortfall : ℕ → ℤ → ℕ
shortfall required equity = pos_part (pos required -ℤ equity)

unfoldable pub verdict : ℤ → Scan → Health
verdict equity s = elim s.first_asset_index [
  | none ↦ record {
    liquidatable = false;
    close_q = 0;
    asset_index = negsuc 0;
    deficit = 0;
    aggregate_notional = 0;
    notional_complete = true;
  }
  | some i ↦ record {
    liquidatable = not (ltb_ℤ (pos 0) equity) || ltb_ℤ equity (pos s.maintenance);
    close_q = s.close_q;
    asset_index = pos i;
    deficit = shortfall s.maintenance equity;
    aggregate_notional = s.notional;
    notional_complete = true;
  }
]

-- The early return at a leg with no price.
unfoldable pub unresolved : ℤ → Leg → Scan → Health
unresolved equity leg s = record {
  liquidatable = true;
  close_q = abs_pos leg;
  asset_index = pos leg.asset_index;
  deficit = shortfall s.maintenance equity;
  aggregate_notional = s.notional;
  notional_complete = false;
}

unfoldable pub scan_legs : Market → ℤ → List Leg → Scan → Health
unfolding verdict
scan_legs m equity [] s = verdict equity s
scan_legs m equity (leg ∷ legs) s =
    let skip = scan_legs m equity legs s in
    let next = scan_legs m equity legs (add_leg m leg (note_first leg s)) in
    if is_skipped leg
    then skip
    else if leg_price m leg == 0
    then unresolved equity leg (note_first leg s)
    else next

abbrev pub no_legs : Scan
no_legs = record { maintenance = 0; first_asset_index = none; close_q = 0; notional = 0 }

unfoldable pub evaluate_v17_portfolio_health : Market → Portfolio → Health
unfolding scan_legs
evaluate_v17_portfolio_health m pf = scan_legs m (conservative_equity pf) pf.legs no_legs

unfoldable pub is_below_liquidation_dust_floor : ℤ → Bool → ℤ → Bool
is_below_liquidation_dust_floor aggregate_notional notional_complete floor =
    if not (ltb_ℤ (pos 0) floor)
    then false
    else if not notional_complete
    then false
    else if not (ltb_ℤ (pos 0) aggregate_notional)
    then false
    else ltb_ℤ aggregate_notional floor

-- The quotient of positive numbers; a negative notional does not arise, and is not told apart here.
unfoldable pub compute_margin_ratio_bps : ℤ → ℕ → ℕ
compute_margin_ratio_bps equity notional =
    if notional == 0
    then 0
    else if not (ltb_ℤ (pos 0) equity)
    then 0
    else pos_part equity * bps_multiplier / notional
