-- ===== src/Fees/Legs.antt =====
-- src/services/fee-crank.ts: the four legs: what each detects on a market, and what becomes of its work.
-- The accounts that a leg reads are arguments; `none` for the counters is a wrapper config that the SDK
-- cannot parse, which throws. The instruction of a work is left out.
use percolator_keeper.Prelude.{
  ℕ, Bool, true, false, not, ◌||◌, Option, none, some, List, [], ◌∷◌, ◌++◌, ltb, leb, ◌==◌,
  if◌then◌else◌,
}
use percolator_keeper.Fees.{
  BucketLayout, MarketGroupState, FeeCounters, read_fee_leg_claims, BackingBucket,
  read_backing_buckets, find_expirable_buckets, is_live_only_leg_eligible,
  is_protocol_fee_leg_eligible, is_bucket_expiry_eligible,
}

pub data LegName : Type 0 where
  expire_backing_bucket lp_vault_crank_fees insurance_reserve_to_stake protocol_fee : LegName

pub record PendingWork : Type 0 where
  pub domain : ℕ
  pub expected_atoms : Option ℕ

pub record Thresholds : Type 0 where
  pub protocol_atoms : ℕ
  pub lp_atoms : ℕ
  pub insurance_reserve_atoms : ℕ

-- An account whose read may throw, that may be missing, or that its decoder refuses.
pub data AccountRead (A : Type 0) : Type 0 where
  failed missing unparsable : AccountRead A
  found : A → AccountRead A

abbrev pub has_failed : {A : Type 0} → AccountRead A → Bool
has_failed failed = true
has_failed _ = false

pub record LpRegistry : Type 0 where
  pub domain : ℕ
  pub shares_outstanding : ℕ

pub record Snapshot : Type 0 where
  pub bytes : List ℕ
  pub group : MarketGroupState
  pub chain_slot : ℕ
  pub counters : Option FeeCounters
  pub protocol_fee_authority : ℕ
  pub registry : AccountRead LpRegistry
  pub stake_pool : AccountRead ℕ

pub record LegContext : Type 0 where
  pub layout : BucketLayout
  pub keeper : ℕ
  pub thresholds : Thresholds
  pub fee_destination : Option ℕ

abbrev pub bucket_work : BackingBucket → PendingWork
bucket_work b = record { domain = b.domain; expected_atoms = none }

unfoldable pub bucket_works : List BackingBucket → List PendingWork
bucket_works [] = []
bucket_works (b ∷ bs) = bucket_work b ∷ bucket_works bs

unfoldable pub detect_expire : LegContext → Snapshot → Option (List PendingWork)
unfolding bucket_works is_bucket_expiry_eligible
detect_expire ctx s =
    if not (is_bucket_expiry_eligible s.group)
    then some []
    else some (
        bucket_works (
          find_expirable_buckets (read_backing_buckets ctx.layout s.bytes s.group) s.chain_slot
            s.group.current_slot))

abbrev pub lp_vault_minimum_liquidity : ℕ
lp_vault_minimum_liquidity = 1_000

unfoldable pub lp_work : ℕ → AccountRead LpRegistry → List PendingWork
lp_work claim failed = []
lp_work claim missing = []
lp_work claim unparsable = []
lp_work claim (found r) =
    if leb r.shares_outstanding lp_vault_minimum_liquidity
    then []
    else record { domain = r.domain; expected_atoms = some claim } ∷ []

unfoldable pub detect_lp_claim :
    Thresholds → AccountRead LpRegistry → Option FeeCounters → Option (List PendingWork)
unfolding lp_work
detect_lp_claim t registry none = none
detect_lp_claim t registry (some c) =
    let claim = (read_fee_leg_claims c).lp in
    if ltb claim t.lp_atoms
    then some []
    else if has_failed registry
    then none
    else some (lp_work claim registry)

unfoldable pub detect_lp : LegContext → Snapshot → Option (List PendingWork)
unfolding detect_lp_claim is_live_only_leg_eligible
detect_lp ctx s =
    if not (is_live_only_leg_eligible s.group)
    then some []
    else detect_lp_claim ctx.thresholds s.registry s.counters

unfoldable pub insurance_work : ℕ → AccountRead ℕ → List PendingWork
insurance_work claim failed = []
insurance_work claim missing = []
insurance_work claim unparsable = []
insurance_work claim (found vault) = record { domain = 0; expected_atoms = some claim } ∷ []

unfoldable pub detect_insurance_claim :
    Thresholds → AccountRead ℕ → Option FeeCounters → Option (List PendingWork)
unfolding insurance_work
detect_insurance_claim t pool none = none
detect_insurance_claim t pool (some c) =
    let claim = (read_fee_leg_claims c).insurance_reserve in
    if ltb claim t.insurance_reserve_atoms
    then some []
    else if has_failed pool
    then none
    else some (insurance_work claim pool)

unfoldable pub detect_insurance : LegContext → Snapshot → Option (List PendingWork)
unfolding detect_insurance_claim is_live_only_leg_eligible
detect_insurance ctx s =
    if not (is_live_only_leg_eligible s.group)
    then some []
    else detect_insurance_claim ctx.thresholds s.stake_pool s.counters

unfoldable pub protocol_work : ℕ → Option ℕ → List PendingWork
protocol_work claim none = []
protocol_work claim (some destination) = record { domain = 0; expected_atoms = some claim } ∷ []

unfoldable pub detect_protocol_claim :
    LegContext → ℕ → Option FeeCounters → Option (List PendingWork)
unfolding protocol_work
detect_protocol_claim ctx authority none = none
detect_protocol_claim ctx authority (some c) =
    let claim = (read_fee_leg_claims c).protocol in
    if not (authority == ctx.keeper)
    then some []
    else if ltb claim ctx.thresholds.protocol_atoms
    then some []
    else some (protocol_work claim ctx.fee_destination)

unfoldable pub detect_protocol : LegContext → Snapshot → Option (List PendingWork)
unfolding detect_protocol_claim is_protocol_fee_leg_eligible
detect_protocol ctx s =
    if not (is_protocol_fee_leg_eligible s.group)
    then some []
    else detect_protocol_claim ctx s.protocol_fee_authority s.counters

abbrev pub detect : LegName → LegContext → Snapshot → Option (List PendingWork)
detect expire_backing_bucket ctx s = detect_expire ctx s
detect lp_vault_crank_fees ctx s = detect_lp ctx s
detect insurance_reserve_to_stake ctx s = detect_insurance ctx s
detect protocol_fee ctx s = detect_protocol ctx s

abbrev pub all_legs : List LegName
all_legs =
    expire_backing_bucket ∷ lp_vault_crank_fees ∷ insurance_reserve_to_stake ∷ protocol_fee ∷ []

-- How a send ends; a throw has the custom code of the program, if there is one.
pub data LegSend : Type 0 where
  landed : ℕ → LegSend
  deferred : LegSend
  threw : Option ℕ → LegSend

unfoldable pub is_benign_program_error : ℕ → Bool
is_benign_program_error code =
    code == 19 || code == 21 || code == 27 || code == 38 || code == 41 || code == 53 || code == 61

unfoldable pub classify_rejection : Option ℕ → Bool
unfolding is_benign_program_error
classify_rejection none = false
classify_rejection (some code) = is_benign_program_error code

pub data LegStatus : Type 0 where
  sent benign_reject error idle : LegStatus

pub record LegOutcome : Type 0 where
  pub leg : LegName
  pub status : LegStatus
  pub atoms_moved : Option ℕ

unfoldable pub send_pending_work : LegName → PendingWork → LegSend → LegOutcome
unfolding classify_rejection
send_pending_work leg work (landed sig) = record {
  leg = leg;
  status = sent;
  atoms_moved = work.expected_atoms;
}
send_pending_work leg work deferred = record { leg = leg; status = idle; atoms_moved = none }
send_pending_work leg work (threw code) = record {
  leg = leg;
  status = if classify_rejection code then benign_reject else error;
  atoms_moved = none;
}

unfoldable pub send_all : (PendingWork → LegSend) → LegName → List PendingWork → List LegOutcome
unfolding send_pending_work
send_all send leg [] = []
send_all send leg (w ∷ ws) = send_pending_work leg w (send w) ∷ send_all send leg ws

-- The outcomes of one leg.
unfoldable pub run_leg :
    (PendingWork → LegSend) → LegName → Option (List PendingWork) → List LegOutcome
unfolding send_all
run_leg send leg none = record { leg = leg; status = error; atoms_moved = none } ∷ []
run_leg send leg (some []) = record { leg = leg; status = idle; atoms_moved = none } ∷ []
run_leg send leg (some (w ∷ ws)) = send_all send leg (w ∷ ws)

unfoldable pub run_legs_for_market :
    (LegName → PendingWork → LegSend) → LegContext → Snapshot → List LegName → List LegOutcome
unfolding run_leg
run_legs_for_market send ctx s [] = []
run_legs_for_market send ctx s (leg ∷ legs) =
    run_leg (send leg) leg (detect leg ctx s) ++ run_legs_for_market send ctx s legs
