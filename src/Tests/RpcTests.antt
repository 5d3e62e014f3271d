-- ===== src/Tests/RpcTests.antt =====
-- The health of a provider and the pool at concrete inputs.
use percolator_keeper.Prelude.{ℕ, ◌+◌, ◌≤◌, ◌≡◌, refl, true, false, some, List, [], ◌∷◌, arith}
use percolator_keeper.Rpc.{
  HealthConfig, ProviderHealth, new_health, evaluate, breaches, is_any, pruned, percentile_of,
  compute_percentile, compute_slot_lag, prune_samples, record_success, record_slot, insert_sorted,
  sort_ascending, rank,
}
use percolator_keeper.Rpc.Recovering.{
  Operation, succeeds, is_evaluated, perform_all, breach_outlasts_window,
}
use percolator_keeper.Rpc.Pooling.{
  alchemy, PoolConfig, Pool, new_pool, pick_provider, slot_served, slot_or_zero, is_below_highwater,
  read_ended, raise_highwater, on_health, probe_provider,
}
use percolator_keeper.Rpc.Failover.{PoolEvent, probed, pool_run, pool_step, failover_not_backwards}

abbrev config : HealthConfig
config = record {
  window_ms = 60_000;
  unhealthy_p99_ms = 2_000;
  unhealthy_slot_lag = 50;
  unhealthy_consecutive_fails = 5;
  recovery_window_ms = 60_000;
  recovery_p99_ms = 1_000;
  recovery_slot_lag = 10;
}

abbrev latencies : List ℕ
latencies = 40 ∷ 10 ∷ 30 ∷ 20 ∷ []

median : percentile_of 50 latencies ≡ some 20
unfolding percentile_of sort_ascending insert_sorted rank
median = refl

abbrev failing : ProviderHealth
failing = record new_health { consecutive_fails = 5; last_seen_slot = some 9 }

failing-breaches : is_any (breaches config (some 9) (pruned config 100 failing)) ≡ true
unfolding breaches is_any compute_percentile compute_slot_lag prune_samples percentile_of
failing-breaches = ground arith

abbrev later : List (ℕ × Operation)
later = (200, succeeds 3) ∷ (300, is_evaluated (some 9)) ∷ []

breach_outlasts_window_example :
    (perform_all config later (evaluate config 100 (some 9) failing).0).is_healthy ≡ false
breach_outlasts_window_example =
    breach_outlasts_window config 100 (some 9) failing later failing-breaches
      ((omega arith, omega arith), ((omega arith, omega arith), tt))

abbrev pooled : PoolConfig
pooled = record {
  enabled = true;
  force_alchemy_gpa = false;
  failover_slot_floor_slack = 10;
  health = config;
}

-- Helius is unhealthy, and a probe of Alchemy has seen a slot near the served one.
abbrev degraded : Pool
degraded = record new_pool { helius_health = record new_health { is_healthy = false } }

abbrev events : List (ℕ × PoolEvent)
events = (5, probed alchemy (some (20, 995))) ∷ []

routed_to_alchemy :
    pick_provider pooled false
      (pool_run pooled events (slot_served pooled 1 alchemy 30 1_000 degraded))
    ≡ alchemy
unfolding pick_provider is_below_highwater pool_run pool_step slot_served read_ended raise_highwater
    on_health probe_provider record_success record_slot prune_samples
routed_to_alchemy = refl

failover_not_backwards_example :
    let p = pool_run pooled events (slot_served pooled 1 alchemy 30 1_000 degraded) in
    1_000 ≤ slot_or_zero p.alchemy_health.last_seen_slot + 10
failover_not_backwards_example =
    failover_not_backwards pooled degraded 1 30 1_000 alchemy events routed_to_alchemy
