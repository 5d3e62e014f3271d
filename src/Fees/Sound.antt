-- ===== src/Fees/Sound.antt =====
-- src/services/fee-crank.ts: what the legs of the fee crank send.
use percolator_keeper.Prelude.{
  ℕ, ◌≤◌, ◌<◌, ◌≡◌, refl, ◌⊎◌, Bool, true, false, not, Option, none, some, List, [], ◌∷◌, ltb, leb,
  ◌==◌, if◌then◌else◌, arith, All,
}
use percolator_keeper.Fees.{
  FeeCounters, FeeLegClaims, read_fee_leg_claims, is_live_only_leg_eligible,
  is_protocol_fee_leg_eligible, is_bucket_expiry_eligible, BackingBucket, find_expirable_buckets,
  read_backing_buckets,
}
use percolator_keeper.Fees.Legs.{
  LegName, expire_backing_bucket, lp_vault_crank_fees, insurance_reserve_to_stake, protocol_fee,
  PendingWork, AccountRead, failed, has_failed, missing, unparsable, found, LpRegistry, Snapshot,
  LegContext, bucket_works, detect_expire, lp_work, detect_lp_claim, detect_lp, insurance_work,
  detect_insurance_claim, detect_insurance, protocol_work, detect_protocol_claim, detect_protocol,
  detect,
}

-- What a work of a leg stands for.
abbrev pub IsClaimed : ℕ → (FeeLegClaims → ℕ) → Snapshot → PendingWork → Type 0
IsClaimed threshold claim s w =
    (c : FeeCounters) × (s.counters ≡ some c)
    × (threshold ≤ claim (read_fee_leg_claims c))
    × (w.expected_atoms ≡ some (claim (read_fee_leg_claims c)))

abbrev pub IsSound : LegName → LegContext → Snapshot → PendingWork → Type 0
IsSound expire_backing_bucket ctx s w = (s.group.mode ≡ 0) × (w.expected_atoms ≡ none)
IsSound lp_vault_crank_fees ctx s w =
    (s.group.mode ≡ 0)
    × IsClaimed ctx.thresholds.lp_atoms (λ c. c.lp) s w
    × ((r : LpRegistry) × (s.registry ≡ found r)
        × (1_000 < r.shares_outstanding)
        × (w.domain ≡ r.domain))
IsSound insurance_reserve_to_stake ctx s w =
    (s.group.mode ≡ 0)
    × IsClaimed ctx.thresholds.insurance_reserve_atoms (λ c. c.insurance_reserve) s w
    × ((vault : ℕ) × (s.stake_pool ≡ found vault))
IsSound protocol_fee ctx s w =
    ((s.group.mode ≡ 0)
      ⊎ ((s.group.mode ≡ 1) × (s.group.materialized_portfolio_count ≡ 0) × (s.group.c_tot ≡ 0)))
    × (s.protocol_fee_authority ≡ ctx.keeper)
    × IsClaimed ctx.thresholds.protocol_atoms (λ c. c.protocol) s w
    × ((destination : ℕ) × (ctx.fee_destination ≡ some destination))

abbrev pub works_of : Option (List PendingWork) → List PendingWork
works_of none = []
works_of (some works) = works

if_detected :
    (P : PendingWork → Type 0) (b : Bool) (o : Option (List PendingWork))
    → (b ≡ false → All P (works_of o))
    → All P (works_of (if b then some [] else o))
if_detected P true o h = tt
if_detected P false o h = h refl

unless_thrown :
    (P : PendingWork → Type 0) (b : Bool) (works : List PendingWork)
    → All P works
    → All P (works_of (if b then none else some works))
unless_thrown P true works h = tt
unless_thrown P false works h = h

if_listed :
    (P : PendingWork → Type 0) (b : Bool) (w : PendingWork)
    → (b ≡ false → P w)
    → All P (if b then [] else w ∷ [])
if_listed P true w h = tt
if_listed P false w h = (h refl, tt)

module _ (ctx : LegContext) (s : Snapshot) where
  bucket_works-IsSound :
      (bs : List BackingBucket)
      → s.group.mode ≡ 0
      → All (IsSound expire_backing_bucket ctx s) (bucket_works bs)
  unfolding bucket_works
  bucket_works-IsSound [] live = tt
  bucket_works-IsSound (b ∷ bs) live = ((live, refl), bucket_works-IsSound bs live)

  expire-IsSound : All (IsSound expire_backing_bucket ctx s) (works_of (detect_expire ctx s))
  unfolding detect_expire is_bucket_expiry_eligible
  expire-IsSound =
      if_detected (IsSound expire_backing_bucket ctx s) (not (s.group.mode == 0)) _ (λ e.
        bucket_works-IsSound
          (find_expirable_buckets (read_backing_buckets ctx.layout s.bytes s.group) s.chain_slot
            s.group.current_slot)
          (ground (arith, e)))

  lp_work-IsSound :
      (c : FeeCounters) (r : AccountRead LpRegistry)
      → s.group.mode ≡ 0
      → s.counters ≡ some c
      → s.registry ≡ r
      → ctx.thresholds.lp_atoms ≤ (read_fee_leg_claims c).lp
      → All (IsSound lp_vault_crank_fees ctx s) (lp_work (read_fee_leg_claims c).lp r)
  unfolding lp_work
  lp_work-IsSound c failed live e f h = tt
  lp_work-IsSound c missing live e f h = tt
  lp_work-IsSound c unparsable live e f h = tt
  lp_work-IsSound c (found r) live e f h =
      if_listed (IsSound lp_vault_crank_fees ctx s) (leb r.shares_outstanding 1_000) _
        (λ k. (live, (c, e, h, refl), (r, f, ground (arith, k), refl)))

  lp_claim-IsSound :
      (o : Option FeeCounters)
      → s.group.mode ≡ 0
      → s.counters ≡ o
      → All
          (IsSound lp_vault_crank_fees ctx s)
          (works_of (detect_lp_claim ctx.thresholds s.registry o))
  unfolding detect_lp_claim
  lp_claim-IsSound none live e = tt
  lp_claim-IsSound (some c) live e =
      if_detected (IsSound lp_vault_crank_fees ctx s)
        (ltb (read_fee_leg_claims c).lp ctx.thresholds.lp_atoms) _
        (λ k.
          unless_thrown (IsSound lp_vault_crank_fees ctx s) (has_failed s.registry) _
            (lp_work-IsSound c s.registry live e refl (ground (arith, k))))

  lp-IsSound : All (IsSound lp_vault_crank_fees ctx s) (works_of (detect_lp ctx s))
  unfolding detect_lp is_live_only_leg_eligible
  lp-IsSound =
      if_detected (IsSound lp_vault_crank_fees ctx s) (not (s.group.mode == 0)) _
        (λ e. lp_claim-IsSound s.counters (ground (arith, e)) refl)

  insurance_work-IsSound :
      (c : FeeCounters) (r : AccountRead ℕ)
      → s.group.mode ≡ 0
      → s.counters ≡ some c
      → s.stake_pool ≡ r
      → ctx.thresholds.insurance_reserve_atoms ≤ (read_fee_leg_claims c).insurance_reserve
      → All
          (IsSound insurance_reserve_to_stake ctx s)
          (insurance_work (read_fee_leg_claims c).insurance_reserve r)
  unfolding insurance_work
  insurance_work-IsSound c failed live e f h = tt
  insurance_work-IsSound c missing live e f h = tt
  insurance_work-IsSound c unparsable live e f h = tt
  insurance_work-IsSound c (found vault) live e f h = ((live, (c, e, h, refl), (vault, f)), tt)

  insurance_claim-IsSound :
      (o : Option FeeCounters)
      → s.group.mode ≡ 0
      → s.counters ≡ o
      → All
          (IsSound insurance_reserve_to_stake ctx s)
          (works_of (detect_insurance_claim ctx.thresholds s.stake_pool o))
  unfolding detect_insurance_claim
  insurance_claim-IsSound none live e = tt
  insurance_claim-IsSound (some c) live e =
      if_detected (IsSound insurance_reserve_to_stake ctx s)
        (ltb (read_fee_leg_claims c).insurance_reserve ctx.thresholds.insurance_reserve_atoms) _
        (λ k.
          unless_thrown (IsSound insurance_reserve_to_stake ctx s) (has_failed s.stake_pool) _
            (insurance_work-IsSound c s.stake_pool live e refl (ground (arith, k))))

  insurance-IsSound :
      All (IsSound insurance_reserve_to_stake ctx s) (works_of (detect_insurance ctx s))
  unfolding detect_insurance is_live_only_leg_eligible
  insurance-IsSound =
      if_detected (IsSound insurance_reserve_to_stake ctx s) (not (s.group.mode == 0)) _
        (λ e. insurance_claim-IsSound s.counters (ground (arith, e)) refl)

  abbrev IsOpen : Type 0
  IsOpen =
      (s.group.mode ≡ 0)
      ⊎ ((s.group.mode ≡ 1) × (s.group.materialized_portfolio_count ≡ 0) × (s.group.c_tot ≡ 0))

  protocol_work-IsSound :
      (c : FeeCounters) (d : Option ℕ)
      → IsOpen
      → s.protocol_fee_authority ≡ ctx.keeper
      → s.counters ≡ some c
      → ctx.fee_destination ≡ d
      → ctx.thresholds.protocol_atoms ≤ (read_fee_leg_claims c).protocol
      → All (IsSound protocol_fee ctx s) (protocol_work (read_fee_leg_claims c).protocol d)
  unfolding protocol_work
  protocol_work-IsSound c none unlocked a e f h = tt
  protocol_work-IsSound c (some d) unlocked a e f h = ((unlocked, a, (c, e, h, refl), (d, f)), tt)

  protocol_claim-IsSound :
      (o : Option FeeCounters)
      → IsOpen
      → s.counters ≡ o
      → All
          (IsSound protocol_fee ctx s)
          (works_of (detect_protocol_claim ctx s.protocol_fee_authority o))
  unfolding detect_protocol_claim
  protocol_claim-IsSound none unlocked e = tt
  protocol_claim-IsSound (some c) unlocked e =
      if_detected (IsSound protocol_fee ctx s) (not (s.protocol_fee_authority == ctx.keeper)) _
        (λ a.
          if_detected (IsSound protocol_fee ctx s)
            (ltb (read_fee_leg_claims c).protocol ctx.thresholds.protocol_atoms) _
            (λ k.
              protocol_work-IsSound c ctx.fee_destination unlocked (ground (arith, a)) e refl
                (ground (arith, k))))

  open_or_not : not (is_protocol_fee_leg_eligible s.group) ≡ false → IsOpen
  unfolding is_protocol_fee_leg_eligible
  open_or_not e = ground (arith, e)

  protocol-IsSound : All (IsSound protocol_fee ctx s) (works_of (detect_protocol ctx s))
  unfolding detect_protocol
  protocol-IsSound =
      if_detected (IsSound protocol_fee ctx s) (not (is_protocol_fee_leg_eligible s.group)) _
        (λ e. protocol_claim-IsSound s.counters (open_or_not e) refl)

  -- Whatever a leg detects on a market is sound: a fee leg is sent only in the market mode it is meant
  -- for, for a claim of at least its threshold, with the claim as its expected amount, and with the
  -- account it pays to; the protocol fee only where the keeper is its authority; an expiry only on a
  -- Live market, and it moves nothing.
  pub detect-IsSound : (leg : LegName) → All (IsSound leg ctx s) (works_of (detect leg ctx s))
  detect-IsSound expire_backing_bucket = expire-IsSound
  detect-IsSound lp_vault_crank_fees = lp-IsSound
  detect-IsSound insurance_reserve_to_stake = insurance-IsSound
  detect-IsSound protocol_fee = protocol-IsSound
