-- ===== src/PriorityFee.antt =====
-- src/lib/priority-fee.ts: the estimate of the priority fee with its cache. An entry's key is a number
-- that stands for the tier and the sorted accounts. A setting is what the environment gives as a whole
-- number, `none` where it is unset, negative or not whole; the answer of the provider is the rounded fee,
-- `none` where the request fails or the fee is none.
pub mod Bounds
use percolator_keeper.Prelude.{
  ℕ, zero, suc, ◌+◌, ◌-◌, ◌≤◌, ◌<◌, ◌≡◌, refl, Bool, true, false, not, ◌&&◌, ◌||◌, Option, none,
  some, List, [], ◌∷◌, ltb, leb, ◌==◌, if◌then◌else◌, length, filter, All, arith,
}

pub data PriorityFeeTier : Type 0 where
  crank liquidation oracle adl : PriorityFeeTier

abbrev pub default_fallback_microlamports : PriorityFeeTier → ℕ
default_fallback_microlamports liquidation = 5_000
default_fallback_microlamports adl = 5_000
default_fallback_microlamports crank = 1_000
default_fallback_microlamports oracle = 1_000

abbrev pub priority_fee_fallback_max : ℕ
priority_fee_fallback_max = 1_000_000

abbrev pub priority_fee_estimate_max : ℕ
priority_fee_estimate_max = 10_000_000

abbrev pub priority_fee_fallback_min : ℕ
priority_fee_fallback_min = 1_000

abbrev pub priority_fee_estimate_ceiling_hard_max : ℕ
priority_fee_estimate_ceiling_hard_max = 20_000_000

unfoldable pub bounded_setting : Option ℕ → ℕ → ℕ → ℕ → ℕ
bounded_setting none fallback least most = fallback
bounded_setting (some v) fallback least most = if ltb v least || ltb most v then fallback else v

unfoldable pub resolve_estimate_ceiling : Option ℕ → ℕ
unfolding bounded_setting
resolve_estimate_ceiling raw =
    bounded_setting raw priority_fee_estimate_max priority_fee_fallback_min
      priority_fee_estimate_ceiling_hard_max

unfoldable pub resolve_fallback : PriorityFeeTier → Option ℕ → ℕ
unfolding bounded_setting
resolve_fallback tier raw =
    bounded_setting raw (default_fallback_microlamports tier) priority_fee_fallback_min
      priority_fee_fallback_max

pub record FeeEntry : Type 0 where
  pub key : ℕ
  pub value : ℕ
  pub expires_at : ℕ

unfoldable pub drop_oldest : ℕ → List FeeEntry → List FeeEntry
drop_oldest cache_max [] = []
drop_oldest cache_max (e ∷ es) =
    if leb cache_max (length (e ∷ es)) then drop_oldest cache_max es else e ∷ es

unfoldable pub evict_stale_entries : ℕ → ℕ → List FeeEntry → List FeeEntry
unfolding drop_oldest
evict_stale_entries now cache_max cache =
    drop_oldest cache_max (filter (λ e. ltb now e.expires_at) cache)

-- An entry keeps its place where its key is set again.
unfoldable pub set_entry : FeeEntry → List FeeEntry → List FeeEntry
set_entry new [] = new ∷ []
set_entry new (e ∷ es) = if e.key == new.key then new ∷ es else e ∷ set_entry new es

unfoldable pub cached_fee : ℕ → ℕ → List FeeEntry → Option ℕ
cached_fee now key [] = none
cached_fee now key (e ∷ es) =
    let rest = cached_fee now key es in
    if e.key == key then (if ltb now e.expires_at then some e.value else none) else rest

pub record FeeQuery : Type 0 where
  pub key : ℕ
  pub tier : PriorityFeeTier
  pub ceiling_setting : Option ℕ
  pub fallback_setting : Option ℕ

-- From the answer of the provider on: the cache and the fee.
unfoldable pub fee_answered : ℕ → ℕ → ℕ → FeeQuery → Option ℕ → List FeeEntry → List FeeEntry × ℕ
unfolding resolve_estimate_ceiling resolve_fallback evict_stale_entries set_entry
fee_answered now cache_ms cache_max q none cache =
    (cache, resolve_fallback q.tier q.fallback_setting)
fee_answered now cache_ms cache_max q (some raw) cache =
    let ceiling = resolve_estimate_ceiling q.ceiling_setting in
    let value = if ltb ceiling raw then ceiling else raw in
    (
      set_entry (record { key = q.key; value = value; expires_at = now + cache_ms })
          (evict_stale_entries now cache_max cache),
      value,
    )

-- A call that finds its fee in the cache, or an answer that comes in for a call that did not.
pub data FeeEvent : Type 0 where
  asked : ℕ → ℕ → FeeEvent
  answered : ℕ → FeeQuery → Option ℕ → FeeEvent

abbrev pub add_fee : Option ℕ → List ℕ → List ℕ
add_fee none fees = fees
add_fee (some fee) fees = fee ∷ fees

-- The cache and all fees along the events, where other calls may come between a call and its answer.
unfoldable pub fee_run : ℕ → ℕ → List FeeEvent → List FeeEntry → List FeeEntry × List ℕ
unfolding fee_answered cached_fee
fee_run cache_ms cache_max [] cache = (cache, [])
fee_run cache_ms cache_max (asked now key ∷ es) cache =
    let (after, fees) = fee_run cache_ms cache_max es cache in
    (after, add_fee (cached_fee now key cache) fees)
fee_run cache_ms cache_max (answered now q raw ∷ es) cache =
    let (kept, fee) = fee_answered now cache_ms cache_max q raw cache in
    let (after, fees) = fee_run cache_ms cache_max es kept in (after, fee ∷ fees)
