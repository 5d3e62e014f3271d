-- ===== src/Tests/CrankTests.antt =====
-- The crank service at concrete inputs.
use percolator_keeper.Prelude.{
  ℕ, ◌+◌, ◌≤◌, ◌<◌, ◌≡◌, refl, ◌↔◌, true, false, none, some, List, [], ◌∷◌, arith, ◌==◌, length,
  if◌then◌else◌, NumberSet,
}
use percolator_keeper.Crank.{
  MarketInfo, MarketCrankState, new_market, CrankError, sent, not_sent, threw, success,
  crank_failed, reset_recoverable_market_state,
}
use percolator_keeper.Crank.Choice.{
  Intervals, Place, place, is_foreign, has_portfolio, select_markets, new_tally, skipped_of,
  process_batched, select_markets,
}
use percolator_keeper.Crank.Registry.{Registry}
use percolator_keeper.Crank.Selection.{ended_of, interval_of, place-cranks_iff, cycle_totals}
use percolator_keeper.Crank.Streaks.{
  MarketTurn, cranked, rediscovered, turns, IsInUse, transient_errors_deactivate_none,
  ten_failures_pause,
}
use percolator_keeper.Crank.Cooldown.{rediscoveries, skip_lasts_cooldown}
use percolator_keeper.Crank.Eviction.{Round, discoveries, watched, view, discovery_refines_watch}
use percolator_keeper.Crank.Watchdog.{
  WatchdogConfig, Cycling, CycleEvent, ticked, discovery_done, cycle_run, crank_tick, budget_ms,
  idle, ticks_at, watchdog_grace_ms, exit_needs_hang, hung_cycle_exits, cycle_step, begin_cycling,
  discovery_ended, watch,
}

abbrev info : MarketInfo
info = record {
  slab_address = 5;
  program_id = 2;
  oracle_authority = none;
  has_raw_v17_config = true;
  header = none;
}

abbrev ready : MarketCrankState
ready = record (new_market info none) { keeper_portfolio = some 9 }

abbrev intervals : Intervals
intervals = record { interval_ms = 30_000; inactive_interval_ms = 120_000 }

place-cranks_iff_example : (place intervals 40_000 7 ready ≡ Place.to_crank) ↔ (
    (ready.permanently_skipped ≡ false)
    × (is_foreign 7 ready.market.oracle_authority ≡ false)
    × (has_portfolio ready.keeper_portfolio ≡ true)
    × (ready.consecutive_failures < 10)
    × (ready.last_crank_time + interval_of intervals ready ≤ 40_000))
place-cranks_iff_example = place-cranks_iff intervals 40_000 7 ready

abbrev tracked : List (ℕ × MarketCrankState)
tracked = (5, ready) ∷ (6, new_market info none) ∷ (8, ready) ∷ []

cycle_totals_example :
    let tally = (select_markets intervals 40_000 7 tracked new_tally).1 in
    ended_of (process_batched (λ key. if key == 5 then some success else none) 10 tally.to_crank)
      + skipped_of tally
    ≡ length tracked
cycle_totals_example =
    cycle_totals intervals 40_000 7 10 tracked (λ key. if key == 5 then some success else none)
      (omega arith)

abbrev hard : ℕ → MarketTurn
hard now = cranked now (threw (record { is_transient = false; is_invalid_slab_len = false }))

abbrev soft : ℕ → MarketTurn
soft now = cranked now (threw (record { is_transient = true; is_invalid_slab_len = false }))

abbrev ten : List MarketTurn
ten = hard 1 ∷ hard 2 ∷ hard 3 ∷ hard 4 ∷ hard 5 ∷ hard 6 ∷ hard 7 ∷ hard 8 ∷ hard 9 ∷ hard 10 ∷ []

abbrev unlucky : List MarketTurn
unlucky =
    hard 1 ∷ hard 2 ∷ hard 3 ∷ hard 4 ∷ hard 5 ∷ rediscovered 6 ∷ hard 7 ∷ cranked 8 not_sent ∷ []

transient_errors_deactivate_none_example :
    IsInUse (turns (soft 1 ∷ soft 2 ∷ cranked 3 sent ∷ []) ready)
transient_errors_deactivate_none_example =
    transient_errors_deactivate_none (soft 1 ∷ soft 2 ∷ cranked 3 sent ∷ []) ready refl
      (refl, refl, omega arith)

ten_failures_pause_example : place intervals 900_000 7 (turns ten ready) ≡ Place.paused
ten_failures_pause_example =
    ten_failures_pause ten ready intervals 900_000 7 refl (omega arith) refl refl refl

abbrev wrong_len : CrankError
wrong_len = record { is_transient = false; is_invalid_slab_len = true }

skip_lasts_cooldown_example :
    let left = rediscoveries (2_000_000 ∷ []) (crank_failed 1_000_000 wrong_len ready).0 in
    (left.permanently_skipped ≡ true)
    × ((reset_recoverable_market_state 4_600_000 left).permanently_skipped ≡ false)
skip_lasts_cooldown_example =
    skip_lasts_cooldown 1_000_000 4_600_000 wrong_len ready (2_000_000 ∷ []) refl (omega arith) refl
      (omega arith)

abbrev all_scanned : NumberSet
all_scanned program = true

abbrev round : List MarketInfo → Round
round found = record { now = 50; db = λ key. none; found = found; succeeded = all_scanned }

abbrev rounds : List Round
rounds = round [] ∷ round (info ∷ []) ∷ round [] ∷ []

abbrev registry : Registry
registry key = if key == 5 then some ready else none

discovery_refines_watch_example : view (discoveries rounds registry 5) ≡ watched 5 2 rounds (some 0)
discovery_refines_watch_example = discovery_refines_watch 5 2 rounds registry refl refl

abbrev watchdog : WatchdogConfig
watchdog = record { interval_ms = 30_000; discovery_interval_ms = 300_000; program_count = 1 }

abbrev hang : List CycleEvent
hang = ticked 1_000_000 0 ∷ discovery_done 1_050_000 ∷ ticked 1_360_000 0 ∷ []

exits_now : (crank_tick watchdog 1_391_000 0 (cycle_run watchdog hang idle)).1 ≡ true
unfolding crank_tick cycle_step begin_cycling discovery_ended watch
exits_now = refl

exit_needs_hang_example :
    let s = cycle_run watchdog hang idle in
    (s.cycling ≡ true)
    × (s.cycle_started_at + budget_ms watchdog s.discovering + watchdog_grace_ms < 1_391_000)
exit_needs_hang_example = exit_needs_hang watchdog hang 1_391_000 0 exits_now

abbrev hanging : Cycling
hanging = record {
  cycling = true;
  cycle_started_at = 1_000;
  watchdog_armed_at = 0;
  discovering = false;
}

hung_cycle_exits_example :
    (crank_tick watchdog 340_000 0
      (ticks_at watchdog 0 (320_000 ∷ []) (crank_tick watchdog 302_000 0 hanging).0)).1
    ≡ true
hung_cycle_exits_example =
    hung_cycle_exits watchdog 302_000 340_000 0 0 (320_000 ∷ []) hanging refl refl (omega arith)
      (omega arith)
