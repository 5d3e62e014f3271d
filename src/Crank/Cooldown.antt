-- ===== src/Crank/Cooldown.antt =====
-- src/services/crank.ts: how long a market with the wrong slab length is left alone.
use percolator_keeper.Prelude.{
  ℕ, ◌+◌, ◌*◌, ◌≤◌, ◌<◌, ◌≡◌, min, Bool, true, false, ◌&&◌, Option, none, some, List, [], ◌∷◌, ltb,
  arith,
}
use percolator_keeper.Crank.{
  MarketCrankState, CrankError, crank_failed, count_failure, skip_permanently, skip_hour_ms,
  skip_cooldown, reset_failures, reset_permanent_skip, reset_recoverable_market_state,
}

-- Discoveries that find the market, at these times.
abbrev pub rediscoveries : List ℕ → MarketCrankState → MarketCrankState
rediscoveries [] s = s
rediscoveries (now ∷ later) s = rediscoveries later (reset_recoverable_market_state now s)

abbrev pub all_before : ℕ → List ℕ → Bool
all_before limit [] = true
all_before limit (t ∷ ts) = ltb t limit && all_before limit ts

-- A market that was skipped at this time, for the `n`-th time.
abbrev pub IsSkippedAt : ℕ → ℕ → MarketCrankState → Type 0
IsSkippedAt at n s =
    (s.permanently_skipped ≡ true) × (s.permanently_skipped_at ≡ some at) × (s.skip_count ≡ some n)

abbrev pub cooldown : ℕ → ℕ
cooldown n = min (n * skip_hour_ms) (24 * skip_hour_ms)

reset-keeps :
    (at n now : ℕ) (s : MarketCrankState)
    → now < at + cooldown n
    → IsSkippedAt at n s
    → IsSkippedAt at n (reset_recoverable_market_state now s)
unfolding reset_recoverable_market_state reset_failures reset_permanent_skip skip_cooldown
reset-keeps at n now s early (h, t, c) = ground (arith, h, t, c, early)

rediscoveries-keep :
    (at n : ℕ) (times : List ℕ) (s : MarketCrankState)
    → all_before (at + cooldown n) times ≡ true
    → IsSkippedAt at n s
    → IsSkippedAt at n (rediscoveries times s)
rediscoveries-keep at n [] s b h = h
rediscoveries-keep at n (t ∷ ts) s b h =
    rediscoveries-keep at n ts (reset_recoverable_market_state t s) (ground (arith, b))
      (reset-keeps at n t s (ground (arith, b)) h)

reset-ends :
    (at n now : ℕ) (s : MarketCrankState)
    → 0 < at
    → at + cooldown n ≤ now
    → IsSkippedAt at n s
    → (reset_recoverable_market_state now s).permanently_skipped ≡ false
unfolding reset_recoverable_market_state reset_failures reset_permanent_skip skip_cooldown
reset-ends at n now s z late (h, t, c) = ground (arith, h, t, c, late, z)

abbrev pub skips_of : Option ℕ → ℕ
skips_of none = 0
skips_of (some n) = n

skipped_now :
    (at : ℕ) (e : CrankError) (s : MarketCrankState)
    → e.is_invalid_slab_len ≡ true
    → IsSkippedAt at (skips_of s.skip_count + 1) (crank_failed at e s).0
unfolding crank_failed count_failure skip_permanently
skipped_now at e s w = ground (arith, w)

-- A market whose crank fails with the wrong slab length for the n-th time is skipped for n hours, 24 at
-- most: every discovery before leaves it skipped, and the first one after that takes it in again.
pub skip_lasts_cooldown :
    (at later : ℕ) (e : CrankError) (s : MarketCrankState) (times : List ℕ)
    → e.is_invalid_slab_len ≡ true
    → 0 < at
    → let until = at + cooldown (skips_of s.skip_count + 1) in
      all_before until times ≡ true
      → until ≤ later
      → let left = rediscoveries times (crank_failed at e s).0 in
        (left.permanently_skipped ≡ true)
        × ((reset_recoverable_market_state later left).permanently_skipped ≡ false)
skip_lasts_cooldown at later e s times w z b late =
    let n = skips_of s.skip_count + 1 in
    let start = skipped_now at e s w in
    let left = rediscoveries times (crank_failed at e s).0 in
    let kept = rediscoveries-keep at n times (crank_failed at e s).0 b start in
    (kept.0, reset-ends at n later left z late kept)
