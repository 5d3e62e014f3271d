-- ===== src/Tests/ServicesTests.antt =====
-- The fee crank, the fraud detector and the monitor at concrete inputs.
use percolator_keeper.Prelude.{
  ℕ, zero, suc, ◌*◌, ◌≤◌, ◌≡◌, refl, true, Option, none, some, List, [], ◌∷◌, arith, ltb, leb, max,
  ◌==◌, ◌&&◌, if◌then◌else◌, length, count_if, filter, All,
}
use percolator_keeper.Fees.{
  BucketLayout, MarketGroupState, FeeCounters, has_bucket, asset_count, is_bucket_expiry_eligible,
  find_expirable_buckets, is_expirable, read_backing_buckets, buckets_from, add_bucket, read_bucket,
  backing_bucket_off,
}
use percolator_keeper.Risk.{read_u64_le}
use percolator_keeper.Fees.Legs.{
  expire_backing_bucket, lp_vault_crank_fees, found, missing, Snapshot, LegContext, PendingWork,
  detect, detect_expire, bucket_works, LegName, LegSend, landed, threw, run_leg,
  run_legs_for_market, all_legs,
}
use percolator_keeper.Fees.Pass.{load_snapshots, read_singly, chunks_read_singly}
use percolator_keeper.Fees.Buckets.{bit, has_lapsed, expire_once_iff}
use percolator_keeper.Fees.Settling.{of_leg, legs_are_independent}
use percolator_keeper.Fees.Sound.{IsSound, works_of, detect-IsSound}
use percolator_keeper.Fraud.{FraudSettings, FraudMarket, v17_mode, Detector, run_check, selected}
use percolator_keeper.Fraud.Alerting.{IsJustified, alerts_are-IsJustified}
use percolator_keeper.Monitor.{MarketMonitor, v17_market, vault_read, check_one_market}
use percolator_keeper.Monitor.Verdicts.{ok_of, verdict_of, vault_of, time_of, check_records_verdict}
use percolator_keeper.PriorityFee.{
  FeeEntry, FeeQuery, FeeEvent, liquidation, asked, answered, fee_run,
}
use percolator_keeper.PriorityFee.Bounds.{fees_are_bounded}

abbrev bucket_layout : BucketLayout
bucket_layout = record {
  asset_slots_base_off = 0;
  asset_slot_len = 30;
  wrapper_prefix_len = 0;
  backing_long_off = 0;
  backing_short_off = 15;
  bucket_len = 9;
  status_off = 0;
  expiry_slot_off = 1;
  fresh_unliened_off = 0;
  valid_liened_off = 0;
  impaired_liened_off = 0;
}

abbrev zero_bytes : ℕ → List ℕ
zero_bytes zero = []
zero_bytes (suc n) = 0 ∷ zero_bytes n

-- The long bucket of asset 0 is Fresh and expires at slot 7.
abbrev market_bytes : List ℕ
market_bytes = 1 ∷ 7 ∷ zero_bytes 28

abbrev group : MarketGroupState
group = record {
  mode = 0;
  current_slot = 5;
  vault = 0;
  insurance = 0;
  c_tot = 0;
  materialized_portfolio_count = 0;
  credit_reserved_total_atoms = 0;
  domain_budget_remaining_total = 0;
  max_market_slots = 4;
  asset_slot_count = 1;
}

abbrev counters : FeeCounters
counters = record {
  lp_accrued = 900_000;
  lp_withdrawn = 0;
  insurance_accrued = 0;
  insurance_withdrawn = 0;
  protocol_accrued = 0;
  protocol_withdrawn = 0;
}

abbrev snapshot : Snapshot
snapshot = record {
  bytes = market_bytes;
  group = group;
  chain_slot = 7;
  counters = some counters;
  protocol_fee_authority = 3;
  registry = found (record { domain = 1; shares_outstanding = 5_000 });
  stake_pool = missing;
}

abbrev context : LegContext
context = record {
  layout = bucket_layout;
  keeper = 3;
  thresholds = record {
    protocol_atoms = 1_000_000;
    lp_atoms = 100_000;
    insurance_reserve_atoms = 100_000;
  };
  fee_destination = none;
}

abbrev expiry : PendingWork
expiry = record { domain = 0; expected_atoms = none }

expiry_detected : detect_expire context snapshot ≡ some (expiry ∷ [])
unfolding detect_expire is_bucket_expiry_eligible find_expirable_buckets is_expirable bucket_works
    read_backing_buckets buckets_from add_bucket has_bucket read_bucket backing_bucket_off
    read_u64_le
expiry_detected = refl

expire_once_iff_example :
    count_if (λ (w : PendingWork). w.domain == 0) (expiry ∷ [])
    ≡ bit (
        snapshot.group.mode == 0
        && (ltb 0 (asset_count group * 2)
            && (has_bucket bucket_layout market_bytes 0 && has_lapsed context snapshot 0)))
expire_once_iff_example = expire_once_iff context snapshot (expiry ∷ []) 0 expiry_detected

detect-IsSound_example :
    All
      (IsSound lp_vault_crank_fees context snapshot)
      (works_of (detect lp_vault_crank_fees context snapshot))
detect-IsSound_example = detect-IsSound context snapshot lp_vault_crank_fees

abbrev sender : LegName → PendingWork → LegSend
sender expire_backing_bucket w = threw (some 61)
sender leg w = landed 5

legs_are_independent_example :
    filter (of_leg lp_vault_crank_fees) (run_legs_for_market sender context snapshot all_legs)
    ≡ run_leg
        (sender lp_vault_crank_fees)
        lp_vault_crank_fees
        (detect lp_vault_crank_fees context snapshot)
legs_are_independent_example = legs_are_independent sender context snapshot lp_vault_crank_fees

abbrev account_of : ℕ → Option ℕ
account_of key = if key == 2 then none else some (key * 10)

abbrev accounts_of : List ℕ → List (Option ℕ)
accounts_of [] = []
accounts_of (key ∷ keys) = account_of key ∷ accounts_of keys

abbrev markets_to : ℕ → List ℕ
markets_to zero = []
markets_to (suc n) = suc n ∷ markets_to n

abbrev many_markets : List ℕ
many_markets = markets_to 130

abbrev keep : ℕ → ℕ → Option ℕ
keep market account = some account

-- More than 100 keys are rejected.
abbrev limited_fetch : List ℕ → Option (List (Option ℕ))
limited_fetch keys = if leb (length keys) 100 then some (accounts_of keys) else none

within_limit : (keys : List ℕ) → length keys ≤ 100 → limited_fetch keys ≡ some (accounts_of keys)
within_limit keys h = ground (arith, h)

chunks_read_singly_example :
    load_snapshots limited_fetch keep many_markets ≡ read_singly account_of keep many_markets
chunks_read_singly_example =
    chunks_read_singly account_of keep limited_fetch within_limit many_markets

abbrev fraud_settings : FraudSettings
fraud_settings = record {
  threshold_bps = 500;
  cooldown_ms = 1_800_000;
  max_markets_per_cycle = 200;
  negative_ttl_ms = 300_000;
  max_alerts_per_cycle = 20;
}

abbrev hyperp : FraudMarket
hyperp = record {
  is_active = true;
  oracle = v17_mode (some 3);
  authority_price_e6 = some 2_000_000;
  collateral_mint = 4;
  mainnet_ca = none;
}

abbrev detector : Detector
detector = record {
  last_alert_by_mint = (4, 5) ∷ [];
  market_cursor = 0;
  negative_price_cache = λ mint. none;
}

abbrev off_chain : ℕ → Option ℕ
off_chain mint = some 1_000_000

abbrev IsHyperp : FraudMarket → Type 0
IsHyperp m = m.collateral_mint ≡ 4

hyperp-selected : All IsHyperp (selected 200 (hyperp ∷ []) 0)
unfolding selected
hyperp-selected = (refl, tt)

alerts_are-IsJustified_example :
    let after = run_check fraud_settings 9_000_000 off_chain (hyperp ∷ []) detector in
    (length after.alerted ≤ 20)
    × All (IsJustified fraud_settings 9_000_000 off_chain detector IsHyperp) after.alerted
    × (length after.detector.last_alert_by_mint ≤ max 1_000 1)
alerts_are-IsJustified_example =
    alerts_are-IsJustified fraud_settings 9_000_000 off_chain detector IsHyperp (omega arith)
      (hyperp ∷ []) hyperp-selected

abbrev unseen : MarketMonitor
unseen = record {
  last_invariant_alert = 0;
  last_adl_staleness_alert = 0;
  cycle_count_at_last_adl = 0;
  invariant = none;
  adl_staleness = none;
}

check_records_verdict_example :
    let r = v17_market (vault_read 100 90) in
    let after = (check_one_market 400_000 20 3 r unseen).0.invariant in
    (ok_of after ≡ verdict_of (vault_of r)) × (time_of after ≡ 400_000)
check_records_verdict_example =
    check_records_verdict 400_000 20 3 (v17_market (vault_read 100 90)) unseen

abbrev fee_query : ℕ → FeeQuery
fee_query key = record {
  key = key;
  tier = liquidation;
  ceiling_setting = none;
  fallback_setting = none;
}

-- A clamped answer, its use from the cache, an answer that evicts it, and a fallback.
abbrev fee_events : List FeeEvent
fee_events =
    answered 10 (fee_query 1) (some 90_000_000)
    ∷ asked 12 1
    ∷ answered 20 (fee_query 2) (some 700)
    ∷ answered 30 (fee_query 3) none
    ∷ []

abbrev fee_entry : FeeEntry
fee_entry = record { key = 2; value = 700; expires_at = 5_020 }

fee_events_run :
    fee_run 5_000 1 fee_events [] ≡ (fee_entry ∷ [], 10_000_000 ∷ 10_000_000 ∷ 700 ∷ 5_000 ∷ [])
unfolding fee_run
fee_events_run = refl

fees_are_bounded_example :
    let (after, fees) = fee_run 5_000 1 fee_events [] in
    (length after ≤ 1) × All (λ fee. fee ≤ 20_000_000) fees
fees_are_bounded_example = fees_are_bounded 5_000 1 fee_events (omega arith)
