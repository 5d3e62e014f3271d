-- ===== src/Fees.antt =====
-- src/lib/v17-fee-state.ts, with the offsets of a backing bucket from src/lib/v17-layout.ts: what the
-- fee crank reads of a market. The header of the market group is given as its fields; the lengths that
-- come from the SDK are an argument.
pub mod Legs
pub mod Pass
pub mod Buckets
pub mod Settling
pub mod Sound
use percolator_keeper.Prelude.{
  ℕ, zero, suc, ◌+◌, ◌-◌, ◌*◌, ◌/◌, ◌%◌, min, max, Bool, true, false, not, ◌&&◌, ◌||◌, Option, none,
  some, List, [], ◌∷◌, ltb, leb, ◌==◌, if◌then◌else◌, length, filter,
}
use percolator_keeper.Risk.{byte_at, read_u64_le, read_u128_le, or_zero}

pub record BucketLayout : Type 0 where
  pub asset_slots_base_off : ℕ
  pub asset_slot_len : ℕ
  pub wrapper_prefix_len : ℕ
  pub backing_long_off : ℕ
  pub backing_short_off : ℕ
  pub bucket_len : ℕ
  pub status_off : ℕ
  pub expiry_slot_off : ℕ
  pub fresh_unliened_off : ℕ
  pub valid_liened_off : ℕ
  pub impaired_liened_off : ℕ

pub record MarketGroupState : Type 0 where
  pub mode : ℕ
  pub current_slot : ℕ
  pub vault : ℕ
  pub insurance : ℕ
  pub c_tot : ℕ
  pub materialized_portfolio_count : ℕ
  pub credit_reserved_total_atoms : ℕ
  pub domain_budget_remaining_total : ℕ
  pub max_market_slots : ℕ
  pub asset_slot_count : ℕ

-- A difference that stops at 0.
unfoldable pub saturating : ℕ → ℕ → ℕ
saturating accrued withdrawn = if ltb withdrawn accrued then accrued - withdrawn else 0

unfoldable pub engine_available_atoms : MarketGroupState → ℕ
unfolding saturating
engine_available_atoms g =
    saturating (saturating g.insurance g.credit_reserved_total_atoms)
      g.domain_budget_remaining_total

-- The counters of the wrapper config's fee tail.
pub record FeeCounters : Type 0 where
  pub lp_accrued : ℕ
  pub lp_withdrawn : ℕ
  pub insurance_accrued : ℕ
  pub insurance_withdrawn : ℕ
  pub protocol_accrued : ℕ
  pub protocol_withdrawn : ℕ

pub record FeeLegClaims : Type 0 where
  pub lp : ℕ
  pub insurance_reserve : ℕ
  pub protocol : ℕ

unfoldable pub read_fee_leg_claims : FeeCounters → FeeLegClaims
unfolding saturating
read_fee_leg_claims c = record {
  lp = saturating c.lp_accrued c.lp_withdrawn;
  insurance_reserve = saturating c.insurance_accrued c.insurance_withdrawn;
  protocol = saturating c.protocol_accrued c.protocol_withdrawn;
}

pub record BackingBucket : Type 0 where
  pub domain : ℕ
  pub status : ℕ
  pub expiry_slot : ℕ
  pub fresh_unliened : ℕ
  pub valid_liened : ℕ
  pub impaired_liened : ℕ

unfoldable pub backing_bucket_off : BucketLayout → ℕ → ℕ
backing_bucket_off l domain =
    l.asset_slots_base_off
    + domain / 2 * l.asset_slot_len
    + l.wrapper_prefix_len
    + (if domain % 2 == 0 then l.backing_long_off else l.backing_short_off)

-- The bytes of the bucket are there.
unfoldable pub has_bucket : BucketLayout → List ℕ → ℕ → Bool
has_bucket l bytes domain = leb (backing_bucket_off l domain + l.bucket_len) (length bytes)

-- The fields lie within the bucket, so the readers do not throw.
unfoldable pub read_bucket : BucketLayout → List ℕ → ℕ → BackingBucket
unfolding backing_bucket_off
read_bucket l bytes domain =
    let base = backing_bucket_off l domain in
    record {
      domain = domain;
      status = byte_at bytes (base + l.status_off);
      expiry_slot = or_zero (read_u64_le bytes (base + l.expiry_slot_off));
      fresh_unliened = or_zero (read_u128_le bytes (base + l.fresh_unliened_off));
      valid_liened = or_zero (read_u128_le bytes (base + l.valid_liened_off));
      impaired_liened = or_zero (read_u128_le bytes (base + l.impaired_liened_off));
    }

unfoldable pub add_bucket : BucketLayout → List ℕ → ℕ → List BackingBucket → List BackingBucket
unfolding has_bucket read_bucket
add_bucket l bytes domain rest =
    if has_bucket l bytes domain then read_bucket l bytes domain ∷ rest else rest

-- The loop over the assets from `asset` on, with `n` rounds left.
unfoldable pub buckets_from : BucketLayout → List ℕ → ℕ → ℕ → List BackingBucket
unfolding add_bucket
buckets_from l bytes zero asset = []
buckets_from l bytes (suc n) asset =
    add_bucket l bytes (asset * 2)
      (add_bucket l bytes (asset * 2 + 1) (buckets_from l bytes n (asset + 1)))

abbrev pub asset_count : MarketGroupState → ℕ
asset_count g = min g.max_market_slots g.asset_slot_count

unfoldable pub read_backing_buckets : BucketLayout → List ℕ → MarketGroupState → List BackingBucket
unfolding buckets_from
read_backing_buckets l bytes g = buckets_from l bytes (asset_count g) 0

abbrev pub bucket_status_fresh : ℕ
bucket_status_fresh = 1

unfoldable pub is_expirable : ℕ → ℕ → BackingBucket → Bool
is_expirable chain_slot engine_slot b =
    let now_slot = if ltb engine_slot chain_slot then chain_slot else engine_slot in
    b.status == bucket_status_fresh && leb b.expiry_slot now_slot

unfoldable pub find_expirable_buckets : List BackingBucket → ℕ → ℕ → List BackingBucket
unfolding is_expirable
find_expirable_buckets buckets chain_slot engine_slot =
    filter (is_expirable chain_slot engine_slot) buckets

unfoldable pub is_lapsing_soon : ℕ → ℕ → ℕ → BackingBucket → Bool
is_lapsing_soon chain_slot engine_slot horizon b =
    let now_slot = if ltb engine_slot chain_slot then chain_slot else engine_slot in
    b.status == bucket_status_fresh
    && (ltb now_slot b.expiry_slot && leb (b.expiry_slot - now_slot) horizon)

unfoldable pub find_lapsing_soon_buckets : List BackingBucket → ℕ → ℕ → ℕ → List BackingBucket
unfolding is_lapsing_soon
find_lapsing_soon_buckets buckets chain_slot engine_slot horizon =
    filter (is_lapsing_soon chain_slot engine_slot horizon) buckets

abbrev pub market_mode_live : ℕ
market_mode_live = 0

unfoldable pub is_live_only_leg_eligible : MarketGroupState → Bool
is_live_only_leg_eligible g = g.mode == market_mode_live

unfoldable pub is_protocol_fee_leg_eligible : MarketGroupState → Bool
is_protocol_fee_leg_eligible g =
    if g.mode == market_mode_live
    then true
    else if not (g.mode == 1)
    then false
    else g.materialized_portfolio_count == 0 && g.c_tot == 0

unfoldable pub is_bucket_expiry_eligible : MarketGroupState → Bool
is_bucket_expiry_eligible g = g.mode == market_mode_live
