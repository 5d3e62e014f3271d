-- ===== src/Crank/Streaks.antt =====
-- src/services/crank.ts: what the failures of a market in a row lead to.
use percolator_keeper.Prelude.{
  ℕ, ◌+◌, ◌≤◌, ◌<◌, ◌≡◌, refl, ap, ◌∙◌, Bool, true, false, not, ◌&&◌, List, [], ◌∷◌, if◌then◌else◌,
  length, arith,
}
use percolator_keeper.Crank.{
  MarketCrankState, CrankEnd, no_portfolio, no_slot, not_sent, sent, threw, crank_ended,
  crank_failed, crank_succeeded, count_failure, skip_permanently, deactivate_failing,
  reset_failures, reset_permanent_skip, reset_recoverable_market_state,
}
use percolator_keeper.Crank.Choice.{Intervals, is_foreign, has_portfolio, paused, place}

-- A crank that ends, or a discovery that finds the market.
pub data MarketTurn : Type 0 where
  cranked : ℕ → CrankEnd → MarketTurn
  rediscovered : ℕ → MarketTurn

unfoldable pub turn : MarketTurn → MarketCrankState → MarketCrankState
turn (cranked now e) s = (crank_ended now e s).0
turn (rediscovered now) s = reset_recoverable_market_state now s

abbrev pub alerts_of : MarketTurn → MarketCrankState → ℕ
alerts_of (cranked now e) s = if (crank_ended now e s).2 then 1 else 0
alerts_of (rediscovered now) s = 0

abbrev pub alerts : List MarketTurn → MarketCrankState → ℕ
alerts [] s = 0
alerts (t ∷ ts) s = alerts_of t s + alerts ts (turn t s)

abbrev pub turns : List MarketTurn → MarketCrankState → MarketCrankState
turns [] s = s
turns (t ∷ ts) s = turns ts (turn t s)

abbrev pub is_success : MarketTurn → Bool
is_success (cranked now sent) = true
is_success _ = false

abbrev pub no_success : List MarketTurn → Bool
no_success [] = true
no_success (t ∷ ts) = not (is_success t) && no_success ts

abbrev pub latch : MarketCrankState → ℕ
latch s = if s.alerted_at5 then 1 else 0

turn-latch :
    (t : MarketTurn) (s : MarketCrankState)
    → is_success t ≡ false
    → alerts_of t s + latch s ≡ latch (turn t s)
unfolding turn crank_ended crank_failed count_failure skip_permanently deactivate_failing
    reset_recoverable_market_state reset_failures reset_permanent_skip
turn-latch (cranked now no_portfolio) s h = omega arith
turn-latch (cranked now no_slot) s h = omega arith
turn-latch (cranked now not_sent) s h = omega arith
turn-latch (cranked now sent) s h = absurd (ground (arith, h))
turn-latch (cranked now (threw e)) s h = ground arith
turn-latch (rediscovered now) s h = ground arith

turns-latch :
    (ts : List MarketTurn) (s : MarketCrankState)
    → no_success ts ≡ true
    → alerts ts s + latch s ≡ latch (turns ts s)
turns-latch [] s h = omega arith
turns-latch (t ∷ ts) s h =
    omega (arith, turn-latch t s (ground (arith, h)), turns-latch ts (turn t s) (ground (arith, h)))

-- Without a successful crank in between, a market raises at most one alert, whatever its cranks throw
-- and however often it is discovered again.
pub streak_alerts_once :
    (ts : List MarketTurn) (s : MarketCrankState) → no_success ts ≡ true → alerts ts s ≤ 1
streak_alerts_once ts s h = ground (arith, turns-latch ts s h)

-- A turn that throws nothing but transient errors.
abbrev pub is_harmless : MarketTurn → Bool
is_harmless (cranked now (threw e)) = e.is_transient && not e.is_invalid_slab_len
is_harmless _ = true

abbrev pub all_harmless : List MarketTurn → Bool
all_harmless [] = true
all_harmless (t ∷ ts) = is_harmless t && all_harmless ts

abbrev pub IsInUse : MarketCrankState → Type 0
IsInUse s = (s.is_active ≡ true) × (s.permanently_skipped ≡ false) × (s.consecutive_failures < 10)

harmless-IsInUse :
    (t : MarketTurn) (s : MarketCrankState) → is_harmless t ≡ true → IsInUse s → IsInUse (turn t s)
unfolding turn crank_ended crank_succeeded crank_failed count_failure deactivate_failing
    reset_recoverable_market_state reset_failures reset_permanent_skip
harmless-IsInUse (cranked now no_portfolio) s h u = u
harmless-IsInUse (cranked now no_slot) s h u = u
harmless-IsInUse (cranked now not_sent) s h u = u
harmless-IsInUse (cranked now sent) s h u = ground (arith, u)
harmless-IsInUse (cranked now (threw e)) s h u = ground (arith, h, u)
harmless-IsInUse (rediscovered now) s h u = ground (arith, u)

-- Transient errors, however many, do not deactivate, skip or pause a market that is in use.
pub transient_errors_deactivate_none :
    (ts : List MarketTurn) (s : MarketCrankState)
    → all_harmless ts ≡ true
    → IsInUse s
    → IsInUse (turns ts s)
transient_errors_deactivate_none [] s h u = u
transient_errors_deactivate_none (t ∷ ts) s h u =
    transient_errors_deactivate_none ts (turn t s) (ground (arith, h))
      (harmless-IsInUse t s (ground (arith, h)) u)

-- A turn that throws an error which counts.
abbrev pub counts : MarketTurn → Bool
counts (cranked now (threw e)) = not e.is_transient && not e.is_invalid_slab_len
counts _ = false

abbrev pub all_count : List MarketTurn → Bool
all_count [] = true
all_count (t ∷ ts) = counts t && all_count ts

-- What the failures leave as it is.
abbrev pub IsAlike : MarketCrankState → MarketCrankState → Type 0
IsAlike a b =
    (a.permanently_skipped ≡ b.permanently_skipped)
    × (a.market.oracle_authority ≡ b.market.oracle_authority)
    × (a.keeper_portfolio ≡ b.keeper_portfolio)

counting-turn :
    (t : MarketTurn) (s : MarketCrankState)
    → counts t ≡ true
    → let u = turn t s in
      (u.consecutive_failures ≡ s.consecutive_failures + 1)
      × (IsAlike u s)
      × ((10 ≤ s.consecutive_failures + 1) → u.is_active ≡ false)
unfolding turn crank_ended crank_failed count_failure deactivate_failing
counting-turn (cranked now no_portfolio) s h = absurd (ground (arith, h))
counting-turn (cranked now no_slot) s h = absurd (ground (arith, h))
counting-turn (cranked now not_sent) s h = absurd (ground (arith, h))
counting-turn (cranked now sent) s h = absurd (ground (arith, h))
counting-turn (cranked now (threw e)) s h =
    (ground (arith, h), ground (arith, h), λ big. ground (arith, h, big))
counting-turn (rediscovered now) s h = absurd (ground (arith, h))

counting-turns :
    (ts : List MarketTurn) (s : MarketCrankState)
    → all_count ts ≡ true
    → ((turns ts s).consecutive_failures ≡ s.consecutive_failures + length ts)
      × (IsAlike (turns ts s) s)
counting-turns [] s h = (omega arith, (refl, refl, refl))
counting-turns (t ∷ ts) s h =
    let (more, alike, off) = counting-turn t s (ground (arith, h)) in
    let (all, rest) = counting-turns ts (turn t s) (ground (arith, h)) in
    (omega (arith, more, all), (rest.0 ∙ alike.0, rest.1 ∙ alike.1, rest.2 ∙ alike.2))

-- Ten failures in a row that count pause a market which could be cranked: the next cycle leaves it out,
-- at any time.
pub ten_failures_pause :
    (ts : List MarketTurn) (s : MarketCrankState) (iv : Intervals) (now keeper : ℕ)
    → all_count ts ≡ true
    → 10 ≤ length ts
    → s.permanently_skipped ≡ false
    → is_foreign keeper s.market.oracle_authority ≡ false
    → has_portfolio s.keeper_portfolio ≡ true
    → place iv now keeper (turns ts s) ≡ paused
unfolding place
ten_failures_pause ts s iv now keeper h n a b c =
    let (failures, (skips, owner, portfolio)) = counting-turns ts s h in
    ground (
      arith,
      failures,
      n,
      skips ∙ a,
      ap (is_foreign keeper) owner ∙ b,
      ap has_portfolio portfolio ∙ c,
    )
