-- ===== src/Risk.antt =====
-- src/lib/v17-risk.ts: readings of a market account's bytes, the lag penalty and the risk parameters.
-- The offsets come from the SDK through src/lib/v17-layout.ts: they are a record that every reader
-- takes. A BigInt of an unsigned field is an ℕ.
pub mod Lag
pub mod Params
use Prim.Native.Nat.{bit_or}
use percolator_keeper.Prelude.{
  ℕ, zero, suc, ◌+◌, ◌-◌, ◌*◌, ◌/◌, ◌^◌, max, Bool, true, false, Option, none, some, List, [], ◌∷◌,
  ltb, leb, ◌==◌, ◌||◌, if◌then◌else◌, length, get_elem?,
}

pub record Layout : Type 0 where
  pub header_len : ℕ
  pub market_group_off : ℕ
  pub market_group_len : ℕ
  pub mg_config_off : ℕ
  pub asset_slot_stride : ℕ
  pub asset_oracle_wrapper_len : ℕ
  pub effective_price_off : ℕ
  pub raw_oracle_target_price_off : ℕ
  pub h_min_off : ℕ
  pub h_max_off : ℕ
  pub maintenance_margin_bps_off : ℕ
  pub liquidation_fee_bps_off : ℕ
  pub min_nonzero_mm_req_off : ℕ

-- `data[i]!`; the reader checks the bounds first.
abbrev pub byte_at : List ℕ → ℕ → ℕ
byte_at bytes i = elim (get_elem? bytes i) [ none ↦ 0 | some v ↦ v ]

-- The loop of `readU64LE` from round `i`, with `n` rounds left.
unfoldable pub read_rounds : List ℕ → ℕ → ℕ → ℕ → ℕ → ℕ
read_rounds bytes off zero i value = value
read_rounds bytes off (suc n) i value =
    read_rounds bytes off n (i + 1) (bit_or value (byte_at bytes (off + i) * 2 ^ (8 * i)))

-- `none` is the RangeError-like throw.
unfoldable pub read_u64_le : List ℕ → ℕ → Option ℕ
unfolding read_rounds
read_u64_le bytes off =
    if ltb (length bytes) (off + 8) then none else some (read_rounds bytes off 8 0 0)

unfoldable pub join_u128 : Option ℕ → Option ℕ → Option ℕ
join_u128 (some lo) (some hi) = some (bit_or lo (hi * 2 ^ 64))
join_u128 _ _ = none

unfoldable pub read_u128_le : List ℕ → ℕ → Option ℕ
unfolding join_u128
read_u128_le bytes off = join_u128 (read_u64_le bytes off) (read_u64_le bytes (off + 8))

abbrev pub asset_field_off : Layout → ℕ → ℕ → ℕ
asset_field_off l asset_index field =
    l.market_group_off
    + l.market_group_len
    + asset_index * l.asset_slot_stride
    + l.asset_oracle_wrapper_len
    + field

abbrev pub or_zero : Option ℕ → ℕ
or_zero none = 0
or_zero (some v) = v

-- The two readers of a price: 0 where the buffer is too short. (The read behind the test is within
-- bounds, so its throw is not reached.)
unfoldable pub read_price_at : List ℕ → ℕ → ℕ
read_price_at bytes off =
    if ltb (length bytes) (off + 8) then 0 else or_zero (read_u64_le bytes off)

unfoldable pub read_effective_price_for_asset : Layout → List ℕ → ℕ → ℕ
unfolding read_price_at
read_effective_price_for_asset l bytes asset_index =
    read_price_at bytes (asset_field_off l asset_index l.effective_price_off)

unfoldable pub read_raw_oracle_target_price_for_asset : Layout → List ℕ → ℕ → ℕ
unfolding read_price_at
read_raw_oracle_target_price_for_asset l bytes asset_index =
    read_price_at bytes (asset_field_off l asset_index l.raw_oracle_target_price_off)

abbrev pub pos_scale : ℕ
pos_scale = 1_000_000

pub data Side : Type 0 where
  long short : Side

-- The adverse difference of the two prices; ℕ subtraction under its test is exact.
unfoldable pub adverse_delta : Side → ℕ → ℕ → ℕ
adverse_delta long effective target = if ltb target effective then effective - target else 0
adverse_delta short effective target = if ltb effective target then target - effective else 0

unfoldable pub target_effective_lag_penalty : ℕ → Side → ℕ → ℕ → ℕ
unfolding adverse_delta
target_effective_lag_penalty abs_pos side effective target =
    if target == 0 || effective == 0 || abs_pos == 0
    then 0
    else if adverse_delta side effective target == 0
    then 0
    else (abs_pos * adverse_delta side effective target + pos_scale - 1) / pos_scale

pub record RiskParams : Type 0 where
  pub warmup_period_slots : ℕ
  pub maintenance_margin_bps : ℕ
  pub h_min : ℕ
  pub h_max : ℕ
  pub open_interest_cap : ℕ
  pub maintenance_fee_per_slot : ℕ
  pub liquidation_fee_share_bps : ℕ
  pub adl_fill_cap_bps : ℕ
  pub min_position_size : ℕ
  pub min_nonzero_mm_req : ℕ

pub data Parsed : Type 0 where
  parsed : RiskParams → Parsed
  too_short : Parsed
  corrupted : ℕ → Parsed
  out_of_bounds : Parsed

abbrev pub engine_config_off : Layout → ℕ
engine_config_off l = l.market_group_off + l.mg_config_off

unfoldable pub risk_params_min_data_len : Layout → ℕ
risk_params_min_data_len l =
    max (engine_config_off l + l.liquidation_fee_bps_off + 8) (l.min_nonzero_mm_req_off + 16)

-- The object of the fields, read in the order of the source; any read may throw.
unfoldable pub build_params : ℕ → Option ℕ → Option ℕ → Option ℕ → Option ℕ → Option ℕ → Parsed
build_params margin (some h_min) (some h_max) (some fee) (some share) (some min_req) =
    parsed (record {
      warmup_period_slots = 0;
      maintenance_margin_bps = margin;
      h_min = h_min;
      h_max = h_max;
      open_interest_cap = 0;
      maintenance_fee_per_slot = fee;
      liquidation_fee_share_bps = share;
      adl_fill_cap_bps = 0;
      min_position_size = 0;
      min_nonzero_mm_req = min_req;
    })
build_params margin _ _ _ _ _ = out_of_bounds

unfoldable pub check_margin : Layout → List ℕ → Option ℕ → Parsed
unfolding build_params
check_margin l bytes none = out_of_bounds
check_margin l bytes (some margin) =
    if margin == 0 || ltb 10_000 margin
    then corrupted margin
    else build_params margin (read_u64_le bytes (engine_config_off l + l.h_min_off))
        (read_u64_le bytes (engine_config_off l + l.h_max_off))
        (read_u128_le bytes (l.header_len + 96))
        (read_u64_le bytes (engine_config_off l + l.liquidation_fee_bps_off))
        (read_u128_le bytes l.min_nonzero_mm_req_off)

unfoldable pub parse_v17_risk_params : Layout → List ℕ → Parsed
unfolding check_margin
parse_v17_risk_params l bytes =
    if ltb (length bytes) (risk_params_min_data_len l)
    then too_short
    else check_margin l bytes
        (read_u64_le bytes (engine_config_off l + l.maintenance_margin_bps_off))
