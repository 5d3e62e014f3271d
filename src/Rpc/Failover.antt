-- ===== src/Rpc/Failover.antt =====
-- src/lib/rpc-pool.ts: the failover and the high-water mark of slots.
use percolator_keeper.Prelude.{
  ℕ, ◌+◌, ◌≤◌, ◌≡◌, refl, ◌↔◌, max, true, false, Option, none, some, List, [], ◌∷◌, arith,
}
use percolator_keeper.Rpc.Pooling.{
  Provider, helius, alchemy, PoolConfig, Pool, slot_or_zero, is_below_highwater, pick_provider,
  on_health, read_ended, raise_highwater, slot_served, probe_provider, evaluate_both, switch_active,
  evaluate_and_transition,
}

-- A read that is not a forced getProgramAccounts goes to Alchemy exactly if the pool is enabled, Helius
-- is unhealthy, Alchemy is healthy, and Alchemy's last slot is at most the slack below the highest slot
-- that the pool has seen.
pub failover_iff :
    (cfg : PoolConfig) (p : Pool)
    → (pick_provider cfg false p ≡ alchemy) ↔ (
        (cfg.enabled ≡ true)
        × (p.helius_health.is_healthy ≡ false)
        × (p.alchemy_health.is_healthy ≡ true)
        × (p.highest_served_slot
            ≤ slot_or_zero p.alchemy_health.last_seen_slot + cfg.failover_slot_floor_slack))
unfolding pick_provider is_below_highwater
failover_iff cfg p = ground arith

-- The events of a pool: the end of a read with no slot, a slot served, and the parts of a tick, which
-- other events may come between.
pub data PoolEvent : Type 0 where
  ended : Provider → Option ℕ → PoolEvent
  served : Provider → ℕ → ℕ → PoolEvent
  probed : Provider → Option (ℕ × ℕ) → PoolEvent
  transitioned : PoolEvent

unfoldable pub pool_step : PoolConfig → ℕ × PoolEvent → Pool → Pool
unfolding read_ended slot_served probe_provider evaluate_and_transition
pool_step cfg (now, ended provider o) p = read_ended cfg now provider o p
pool_step cfg (now, served provider latency slot) p = slot_served cfg now provider latency slot p
pool_step cfg (now, probed provider o) p = probe_provider cfg now provider o p
pool_step cfg (now, transitioned) p = evaluate_and_transition cfg now p

unfoldable pub pool_run : PoolConfig → List (ℕ × PoolEvent) → Pool → Pool
unfolding pool_step
pool_run cfg [] p = p
pool_run cfg (e ∷ es) p = pool_run cfg es (pool_step cfg e p)

raise-highest :
    (slot : ℕ) (p : Pool)
    → (slot ≤ (raise_highwater slot p).highest_served_slot)
      × (p.highest_served_slot ≤ (raise_highwater slot p).highest_served_slot)
unfolding raise_highwater
raise-highest slot p = ground arith

ended-highest :
    (cfg : PoolConfig) (now : ℕ) (provider : Provider) (o : Option ℕ) (p : Pool)
    → (read_ended cfg now provider o p).highest_served_slot ≡ p.highest_served_slot
unfolding read_ended on_health
ended-highest cfg now provider o p = ground arith

probe-highest :
    (cfg : PoolConfig) (now : ℕ) (provider : Provider) (o : Option (ℕ × ℕ)) (p : Pool)
    → (probe_provider cfg now provider o p).highest_served_slot ≡ p.highest_served_slot
unfolding probe_provider on_health
probe-highest cfg now helius none p = refl
probe-highest cfg now helius (some (l, s)) p = refl
probe-highest cfg now alchemy none p = refl
probe-highest cfg now alchemy (some (l, s)) p = refl

switch-highest :
    (cfg : PoolConfig) (now : ℕ) (p : Pool)
    → (switch_active cfg (evaluate_both cfg now p)).highest_served_slot ≡ p.highest_served_slot
unfolding switch_active evaluate_both
switch-highest cfg now p = ground arith

transition-highest :
    (cfg : PoolConfig) (now : ℕ) (p : Pool)
    → p.highest_served_slot ≤ (evaluate_and_transition cfg now p).highest_served_slot
unfolding evaluate_and_transition
transition-highest cfg now p =
    let probed_max =
      max (slot_or_zero p.helius_health.last_seen_slot)
        (slot_or_zero p.alchemy_health.last_seen_slot) in
    omega
      (arith, switch-highest cfg now (raise_highwater probed_max p), (raise-highest probed_max p).1)

served-highest :
    (cfg : PoolConfig) (now : ℕ) (provider : Provider) (latency slot : ℕ) (p : Pool)
    → let q = slot_served cfg now provider latency slot p in
      (slot ≤ q.highest_served_slot) × (p.highest_served_slot ≤ q.highest_served_slot)
unfolding slot_served
served-highest cfg now provider latency slot p =
    let (reached, grown) = raise-highest slot (read_ended cfg now provider (some latency) p) in
    (reached, omega (arith, grown, ended-highest cfg now provider (some latency) p))

step-highest :
    (cfg : PoolConfig) (e : ℕ × PoolEvent) (p : Pool)
    → p.highest_served_slot ≤ (pool_step cfg e p).highest_served_slot
unfolding pool_step
step-highest cfg (now, ended provider o) p = omega (arith, ended-highest cfg now provider o p)
step-highest cfg (now, served provider latency slot) p =
    (served-highest cfg now provider latency slot p).1
step-highest cfg (now, probed provider o) p = omega (arith, probe-highest cfg now provider o p)
step-highest cfg (now, transitioned) p = transition-highest cfg now p

run-highest :
    (cfg : PoolConfig) (es : List (ℕ × PoolEvent)) (p : Pool)
    → p.highest_served_slot ≤ (pool_run cfg es p).highest_served_slot
unfolding pool_run
run-highest cfg [] p = omega arith
run-highest cfg (e ∷ es) p =
    omega (arith, step-highest cfg e p, run-highest cfg es (pool_step cfg e p))

-- However reads, slots, probes and evaluations follow one another after a slot was served, a read that
-- is routed to Alchemy and is not a forced getProgramAccounts finds Alchemy's last slot at most the
-- slack below the served one.
pub failover_not_backwards :
    (cfg : PoolConfig) (p : Pool) (now latency slot : ℕ) (provider : Provider)
    (es : List (ℕ × PoolEvent))
    → let q = pool_run cfg es (slot_served cfg now provider latency slot p) in
      pick_provider cfg false q ≡ alchemy
      → slot ≤ slot_or_zero q.alchemy_health.last_seen_slot + cfg.failover_slot_floor_slack
failover_not_backwards cfg p now latency slot provider es pick =
    let after = slot_served cfg now provider latency slot p in
    let (_, _, _, near) = (failover_iff cfg (pool_run cfg es after)).0 pick in
    omega
      (arith, near, run-highest cfg es after, (served-highest cfg now provider latency slot p).0)
