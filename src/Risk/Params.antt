-- ===== src/Risk/Params.antt =====
-- src/lib/v17-risk.ts: what `parseV17RiskParams` lets through.
use percolator_keeper.Prelude.{ℕ, ◌+◌, ◌≤◌, ◌<◌, ◌≡◌, Option, none, some, List, arith}
use percolator_keeper.Risk.{
  Layout, RiskParams, parsed, parse_v17_risk_params, check_margin, build_params, read_u64_le,
  engine_config_off, read_u128_le,
}

build_params-margin :
    (margin : ℕ) (a b c d e : Option ℕ) (p : RiskParams)
    → build_params margin a b c d e ≡ parsed p
    → p.maintenance_margin_bps ≡ margin
unfolding build_params
build_params-margin margin (some a) (some b) (some c) (some d) (some e) p q = ground arith
build_params-margin margin none b c d e p q = cc
build_params-margin margin (some a) none c d e p q = cc
build_params-margin margin (some a) (some b) none d e p q = cc
build_params-margin margin (some a) (some b) (some c) none e p q = cc
build_params-margin margin (some a) (some b) (some c) (some d) none p q = cc

check_margin_range :
    (l : Layout) (bytes : List ℕ) (m : Option ℕ) (p : RiskParams)
    → check_margin l bytes m ≡ parsed p
    → (0 < p.maintenance_margin_bps)
      × (p.maintenance_margin_bps ≤ 10_000)
      × (m ≡ some p.maintenance_margin_bps)
unfolding check_margin
check_margin_range l bytes none p q = absurd (cc)
check_margin_range l bytes (some margin) p q = ground (
  arith,
  build_params-margin margin (read_u64_le bytes (engine_config_off l + l.h_min_off))
      (read_u64_le bytes (engine_config_off l + l.h_max_off))
      (read_u128_le bytes (l.header_len + 96))
      (read_u64_le bytes (engine_config_off l + l.liquidation_fee_bps_off))
      (read_u128_le bytes l.min_nonzero_mm_req_off) p,
)

-- The maintenance margin of parsed parameters is the value at its offset, above 0 and at most 10000.
pub parsed_margin_range :
    (l : Layout) (bytes : List ℕ) (p : RiskParams)
    → parse_v17_risk_params l bytes ≡ parsed p
    → (0 < p.maintenance_margin_bps)
      × (p.maintenance_margin_bps ≤ 10_000)
      × (read_u64_le bytes (engine_config_off l + l.maintenance_margin_bps_off)
          ≡ some p.maintenance_margin_bps)
unfolding parse_v17_risk_params
parsed_margin_range l bytes p q = ground (
  arith,
  check_margin_range l bytes
      (read_u64_le bytes (engine_config_off l + l.maintenance_margin_bps_off)) p,
)
