-- ===== src/Liquidation/Submit.antt =====
-- src/services/liquidation.ts: liquidate: the checks right before a transaction is sent, its sending and
-- its end. What the RPC answers and the SDK parses is an argument; the building of the instruction is
-- left out. The entries of the maps that belong to the market at hand are fields.
pub mod Rechecked
pub mod Agreement
pub mod Solvency
use percolator_keeper.Prelude.{
  ℕ, zero, suc, ◌+◌, ◌-◌, ◌*◌, ◌/◌, ℤ, pos, negsuc, ◌+ℤ◌, ◌-ℤ◌, neg_part, pos_part, ltb_ℤ, Bool,
  true, false, not, ◌&&◌, ◌||◌, Option, none, some, List, [], ◌∷◌, ltb, leb, ◌==◌, if◌then◌else◌,
}
use percolator_keeper.Risk.{
  Layout, Parsed, parsed, too_short, corrupted, out_of_bounds, parse_v17_risk_params, RiskParams,
  or_zero,
}
use percolator_keeper.Liquidation.{
  Leg, Portfolio, Market, Health, evaluate_v17_portfolio_health, conservative_equity, is_skipped,
  abs_pos, compute_margin_ratio_bps, price_e6_divisor, bps_multiplier,
}
use percolator_keeper.Liquidation.Prices.{
  MarketConfig, WrapperConfig, detect_oracle_mode, resolve_market_price, resolve_v17_wrapper_price,
}

abbrev pub risk_params_alert_cooldown_ms : ℕ
risk_params_alert_cooldown_ms = 900_000

-- The time of the last alert, and whether one is sent now.
unfoldable pub alert_corrupted_risk_params : ℕ → Option ℕ → Option ℕ × Bool
alert_corrupted_risk_params now last =
    if ltb (or_zero last + risk_params_alert_cooldown_ms) now
    then (some now, true)
    else (last, false)

-- `driftBps > maxDriftBps`, where both are in use.
unfoldable pub drift_exceeds : ℕ → ℕ → ℕ → Bool
drift_exceeds max_drift_bps scan fresh =
    let delta = if ltb scan fresh then fresh - scan else scan - fresh in
    ltb 0 max_drift_bps && (ltb 0 scan && ltb max_drift_bps (delta * bps_multiplier / scan))

-- `pf.legs.some(…)`
unfoldable pub has_active : List Leg → Bool
has_active [] = false
has_active (leg ∷ legs) = not (is_skipped leg) || has_active legs

unfoldable pub first_active_size : List Leg → Option ℕ
first_active_size [] = none
first_active_size (leg ∷ legs) =
    let rest = first_active_size legs in if is_skipped leg then rest else some (abs_pos leg)

-- Where the margin cannot be trusted: only a portfolio without equity is still taken.
unfoldable pub bankrupt_size : Portfolio → Option ℕ
unfolding first_active_size
bankrupt_size pf =
    if ltb_ℤ (pos 0) (conservative_equity pf) then none else first_active_size pf.legs

unfoldable pub liquidatable_size : Health → Option ℕ
liquidatable_size h = if h.liquidatable then some h.close_q else none

abbrev pub market_of : Layout → List ℕ → RiskParams → ℕ → Market
market_of l bytes p price = record {
  layout = l;
  bytes = bytes;
  maintenance_margin_bps = p.maintenance_margin_bps;
  min_nonzero_mm_req = p.min_nonzero_mm_req;
  fallback_price = price;
}

-- What is read again before the transaction: the portfolio, the market and the cluster's time.
pub record FreshMarket : Type 0 where
  pub bytes : List ℕ
  pub wrapper : WrapperConfig
  pub now_sec : ℕ

pub data FreshRead : Type 0 where
  read_failed : FreshRead
  not_on_chain : FreshRead
  portfolio_only : Portfolio → FreshRead
  both_read : Portfolio → FreshMarket → FreshRead

-- The size to close by the fresh parameters; `none` aborts.
unfoldable pub size_by_params : Layout → Portfolio → FreshMarket → ℕ → Parsed → Option ℕ
unfolding liquidatable_size bankrupt_size
size_by_params l pf f price (parsed p) =
    liquidatable_size (evaluate_v17_portfolio_health (market_of l f.bytes p price) pf)
size_by_params l pf f price (corrupted _) = bankrupt_size pf
size_by_params l pf f price too_short = none
size_by_params l pf f price out_of_bounds = none

-- `none` for the drift limit is a setting that throws.
unfoldable pub recheck_price : Layout → Option ℕ → ℕ → Portfolio → FreshMarket → ℕ → Option ℕ
unfolding drift_exceeds size_by_params
recheck_price l none scan pf f price = none
recheck_price l (some max_drift_bps) scan pf f price =
    if price == 0
    then none
    else if drift_exceeds max_drift_bps scan price
    then none
    else size_by_params l pf f price (parse_v17_risk_params l f.bytes)

unfoldable pub recheck_v17 : Layout → Option ℕ → ℕ → FreshRead → Option ℕ
unfolding recheck_price has_active
recheck_v17 l max_drift_bps scan read_failed = none
recheck_v17 l max_drift_bps scan not_on_chain = none
recheck_v17 l max_drift_bps scan (portfolio_only pf) = none
recheck_v17 l max_drift_bps scan (both_read pf f) =
    if not (has_active pf.legs)
    then none
    else recheck_price l max_drift_bps scan pf f (resolve_v17_wrapper_price f.wrapper f.now_sec)

-- The account of a v12 slab.
pub record LegacyAccount : Type 0 where
  pub kind : ℕ
  pub position_size : ℤ
  pub capital : ℤ
  pub pnl : ℤ
  pub fee_credits : ℤ

pub record FreshSlab : Type 0 where
  pub is_used : Bool
  pub account : LegacyAccount
  pub maintenance_margin_bps : ℕ
  pub config : MarketConfig
  pub now_sec : ℕ

abbrev pub abs_ℤ : ℤ → ℕ
abs_ℤ z = pos_part z + neg_part z

unfoldable pub legacy_equity : LegacyAccount → ℤ
legacy_equity a = a.capital +ℤ a.pnl -ℤ pos (neg_part a.fee_credits)

abbrev pub legacy_notional : LegacyAccount → ℕ → ℕ
legacy_notional a price = abs_ℤ a.position_size * price / price_e6_divisor

abbrev pub legacy_price : FreshSlab → ℕ
legacy_price f = (resolve_market_price f.config (detect_oracle_mode f.config) f.now_sec).price

unfoldable pub is_healthy_again : FreshSlab → Bool
unfolding legacy_equity
is_healthy_again f =
    let notional = legacy_notional f.account (legacy_price f) in
    let equity = legacy_equity f.account in
    ltb 0 notional
    && (ltb_ℤ (pos 0) equity
        && leb f.maintenance_margin_bps (compute_margin_ratio_bps equity notional))

-- Whether the v12 checks pass. `none` for the slab is a read or a parse that throws.
unfoldable pub recheck_v12 : Option ℕ → ℕ → Option FreshSlab → Bool
unfolding drift_exceeds is_healthy_again
recheck_v12 max_drift_bps scan none = false
recheck_v12 none scan (some f) = false
recheck_v12 (some max_drift_bps) scan (some f) =
    if not f.is_used
    then false
    else if not (f.account.kind == 0) || abs_ℤ f.account.position_size == 0
    then false
    else if legacy_price f == 0
    then false
    else if drift_exceeds max_drift_bps scan (legacy_price f)
    then false
    else not (is_healthy_again f)

pub data Target : Type 0 where
  v17 : ℕ → FreshRead → Target
  v12 : Option FreshSlab → Target

abbrev pub is_some {ℓ} : {A : Type ℓ} → Option A → Bool
is_some none = false
is_some (some a) = true

-- Whether all that stands before the count of the attempt lets it through. A v17 candidate has a size
-- to close, which must not be 0.
unfoldable pub passes_checks : Layout → Option ℕ → ℕ → Bool → Target → Bool
unfolding recheck_v17 recheck_v12
passes_checks l max_drift_bps scan has_slot (v17 close_q read) =
    if close_q == 0
    then false
    else if not has_slot
    then false
    else is_some (recheck_v17 l max_drift_bps scan read)
passes_checks l max_drift_bps scan has_slot (v12 slab) =
    has_slot && recheck_v12 max_drift_bps scan slab

-- How the send ends: with a signature, without one, or with a throw, whose message may be that of the
-- program's error 0x4.
pub data SendEnd : Type 0 where
  landed : ℕ → SendEnd
  declined : SendEnd
  threw : Bool → SendEnd

pub record Service : Type 0 where
  pub submit_attempts : ℕ
  pub liquidation_count : ℕ
  pub is_permanently_skipped : Bool

unfoldable pub send_liquidation : SendEnd → Service → Service × Option ℕ
send_liquidation (landed sig) s = (
  record s { submit_attempts = s.submit_attempts + 1; liquidation_count = s.liquidation_count + 1 },
  some sig,
)
send_liquidation declined s = (record s { submit_attempts = s.submit_attempts + 1 }, none)
send_liquidation (threw wrong_len) s = (
  record s {
    submit_attempts = s.submit_attempts + 1;
    is_permanently_skipped = s.is_permanently_skipped || wrong_len;
  },
  none,
)

unfoldable pub liquidate :
    Layout → Option ℕ → ℕ → Bool → Target → SendEnd → Service → Service × Option ℕ
unfolding passes_checks send_liquidation
liquidate l max_drift_bps scan has_slot target sent s =
    if passes_checks l max_drift_bps scan has_slot target
    then send_liquidation sent s
    else (s, none)
