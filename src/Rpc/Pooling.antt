-- ===== src/Rpc/Pooling.antt =====
-- src/lib/rpc-pool.ts: the routing of reads between two providers and the tick of the health check. A
-- provider's answers are inputs; metrics and alerts are left out.
use percolator_keeper.Prelude.{
  ℕ, ◌+◌, max, Bool, true, false, not, ◌&&◌, Option, none, some, ltb, if◌then◌else◌,
}
use percolator_keeper.Rpc.{
  HealthConfig, ProviderHealth, new_health, record_success, record_failure, record_slot, evaluate,
}

pub data Provider : Type 0 where
  helius alchemy : Provider

abbrev pub is_same : Provider → Provider → Bool
is_same helius helius = true
is_same alchemy alchemy = true
is_same _ _ = false

pub record PoolConfig : Type 0 where
  pub enabled : Bool
  pub force_alchemy_gpa : Bool
  pub failover_slot_floor_slack : ℕ
  pub health : HealthConfig

pub record Pool : Type 0 where
  pub helius_health : ProviderHealth
  pub alchemy_health : ProviderHealth
  pub active_provider : Provider
  pub highest_served_slot : ℕ
  pub failover_count : ℕ

abbrev pub new_pool : Pool
new_pool = record {
  helius_health = new_health;
  alchemy_health = new_health;
  active_provider = helius;
  highest_served_slot = 0;
  failover_count = 0;
}

abbrev pub slot_or_zero : Option ℕ → ℕ
slot_or_zero none = 0
slot_or_zero (some n) = n

-- `alchemySlot < highest - slack`, where a difference below 0 is above no slot.
unfoldable pub is_below_highwater : PoolConfig → Pool → Bool
is_below_highwater cfg p =
    ltb 0 p.highest_served_slot
    && ltb (slot_or_zero p.alchemy_health.last_seen_slot + cfg.failover_slot_floor_slack)
        p.highest_served_slot

-- `is_gpa` says whether the method is getProgramAccounts.
unfoldable pub pick_provider : PoolConfig → Bool → Pool → Provider
unfolding is_below_highwater
pick_provider cfg is_gpa p =
    if not cfg.enabled
    then helius
    else if is_gpa && cfg.force_alchemy_gpa
    then (if p.alchemy_health.is_healthy then alchemy else helius)
    else if p.helius_health.is_healthy
    then helius
    else if p.alchemy_health.is_healthy
    then (if is_below_highwater cfg p then helius else alchemy)
    else helius

unfoldable pub on_health : Provider → (ProviderHealth → ProviderHealth) → Pool → Pool
on_health helius f p = record p { helius_health = f p.helius_health }
on_health alchemy f p = record p { alchemy_health = f p.alchemy_health }

-- The end of a read that the provider at hand answered after `latency`, or that threw.
unfoldable pub read_ended : PoolConfig → ℕ → Provider → Option ℕ → Pool → Pool
unfolding on_health record_success record_failure
read_ended cfg now provider none p = on_health provider record_failure p
read_ended cfg now provider (some latency) p =
    on_health provider (record_success cfg.health now latency) p

unfoldable pub raise_highwater : ℕ → Pool → Pool
raise_highwater slot p =
    if ltb p.highest_served_slot slot then record p { highest_served_slot = slot } else p

-- `getSlot` once its read has returned `slot`.
unfoldable pub slot_served : PoolConfig → ℕ → Provider → ℕ → ℕ → Pool → Pool
unfolding read_ended raise_highwater
slot_served cfg now provider latency slot p =
    raise_highwater slot (read_ended cfg now provider (some latency) p)

-- A probe: the latency and the slot, or a failure.
unfoldable pub probe_provider : PoolConfig → ℕ → Provider → Option (ℕ × ℕ) → Pool → Pool
unfolding on_health record_success record_failure record_slot
probe_provider cfg now provider none p = on_health provider record_failure p
probe_provider cfg now provider (some (latency, slot)) p =
    on_health provider (λ h. record_slot slot (record_success cfg.health now latency h)) p

unfoldable pub evaluate_both : PoolConfig → ℕ → Pool → Pool
unfolding evaluate
evaluate_both cfg now p = record p {
  helius_health = (evaluate cfg.health now p.alchemy_health.last_seen_slot p.helius_health).0;
  alchemy_health = (evaluate cfg.health now p.helius_health.last_seen_slot p.alchemy_health).0;
}

unfoldable pub switch_active : PoolConfig → Pool → Pool
unfolding pick_provider
switch_active cfg p =
    if is_same (pick_provider cfg false p) p.active_provider then p else record p {
      failover_count = p.failover_count + 1;
      active_provider = pick_provider cfg false p;
    }

unfoldable pub evaluate_and_transition : PoolConfig → ℕ → Pool → Pool
unfolding raise_highwater evaluate_both switch_active
evaluate_and_transition cfg now p =
    let probed_max =
      max (slot_or_zero p.helius_health.last_seen_slot)
        (slot_or_zero p.alchemy_health.last_seen_slot) in
    switch_active cfg (evaluate_both cfg now (raise_highwater probed_max p))

abbrev pub with_latency : ℕ → Option ℕ → Option (ℕ × ℕ)
with_latency latency none = none
with_latency latency (some slot) = some (latency, slot)

-- The scripted tick: the slots of the two probes, or null, with one latency.
unfoldable pub tick_for_test : PoolConfig → ℕ → Option ℕ → Option ℕ → ℕ → Pool → Pool
unfolding probe_provider evaluate_and_transition
tick_for_test cfg now helius_slot alchemy_slot latency p = evaluate_and_transition cfg now (
    probe_provider cfg now alchemy (with_latency latency alchemy_slot)
      (probe_provider cfg now helius (with_latency latency helius_slot) p))
