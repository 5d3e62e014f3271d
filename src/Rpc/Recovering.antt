-- ===== src/Rpc/Recovering.antt =====
-- src/lib/rpc-health.ts: when a provider changes its health.
use percolator_keeper.Prelude.{
  ℕ, ◌+◌, ◌≤◌, ◌<◌, ◌≡◌, ◌↔◌, ◌⊎◌, Bool, true, false, not, ◌&&◌, Option, none, some, List, [], ◌∷◌,
  arith, leb, All,
}
use percolator_keeper.Rpc.{
  HealthConfig, ProviderHealth, record_success, record_failure, record_slot, evaluate, judge,
  recover, breaches, is_any, is_clean, pruned, or_now,
}

-- The calls that change a provider's health.
pub data Operation : Type 0 where
  succeeds : ℕ → Operation
  fails : Operation
  sees_slot : ℕ → Operation
  is_evaluated : Option ℕ → Operation

unfoldable pub perform : HealthConfig → ℕ → Operation → ProviderHealth → ProviderHealth
unfolding record_success record_failure record_slot evaluate
perform cfg now (succeeds latency) h = record_success cfg now latency h
perform cfg now fails h = record_failure h
perform cfg now (sees_slot slot) h = record_slot slot h
perform cfg now (is_evaluated other) h = (evaluate cfg now other h).0

unfoldable pub perform_all : HealthConfig → List (ℕ × Operation) → ProviderHealth → ProviderHealth
unfolding perform
perform_all cfg [] h = h
perform_all cfg ((now, op) ∷ ops) h = perform_all cfg ops (perform cfg now op h)

-- Unhealthy, and clean since `from` at the earliest.
abbrev waits_from : ℕ → ProviderHealth → Bool
waits_from from h =
    not h.is_healthy && elim h.recovery_start_ms [ none ↦ true | some s ↦ leb from s ]

recover-waits :
    (cfg : HealthConfig) (from now : ℕ) (other : Option ℕ) (h : ProviderHealth)
    → from ≤ now
    → now < from + cfg.recovery_window_ms
    → waits_from from h ≡ true
    → waits_from from (recover cfg now other h).0 ≡ true
unfolding recover
recover-waits cfg from now other h a b w = ground arith

perform-waits :
    (cfg : HealthConfig) (from now : ℕ) (op : Operation) (h : ProviderHealth)
    → from ≤ now
    → now < from + cfg.recovery_window_ms
    → waits_from from h ≡ true
    → waits_from from (perform cfg now op h) ≡ true
unfolding perform record_success record_failure record_slot evaluate judge
perform-waits cfg from now (succeeds l) h a b w = ground arith
perform-waits cfg from now fails h a b w = ground arith
perform-waits cfg from now (sees_slot s) h a b w = ground arith
perform-waits cfg from now (is_evaluated other) h a b w =
    ground (arith, recover-waits cfg from now other (pruned cfg now h) a b)

perform_all-waits :
    (cfg : HealthConfig) (from : ℕ) (ops : List (ℕ × Operation)) (h : ProviderHealth)
    → All (λ o. (from ≤ o.0) × (o.0 < from + cfg.recovery_window_ms)) ops
    → waits_from from h ≡ true
    → waits_from from (perform_all cfg ops h) ≡ true
unfolding perform_all
perform_all-waits cfg from [] h a w = w
perform_all-waits cfg from ((now, op) ∷ ops) h (a, rest) w =
    perform_all-waits cfg from ops (perform cfg now op h) rest
      (perform-waits cfg from now op h a.0 a.1 w)

-- A provider that an evaluation finds in breach is unhealthy after every sequence of calls and
-- evaluations within the recovery window from then.
pub breach_outlasts_window :
    (cfg : HealthConfig) (from : ℕ) (other : Option ℕ) (h : ProviderHealth)
    (ops : List (ℕ × Operation))
    → is_any (breaches cfg other (pruned cfg from h)) ≡ true
    → All (λ o. (from ≤ o.0) × (o.0 < from + cfg.recovery_window_ms)) ops
    → (perform_all cfg ops (evaluate cfg from other h).0).is_healthy ≡ false
unfolding evaluate judge
breach_outlasts_window cfg from other h ops b a =
    ground (arith, perform_all-waits cfg from ops (evaluate cfg from other h).0 a)

-- An evaluation leaves a provider healthy exactly if nothing is in breach and the provider was healthy
-- or is clean and its recovery, from now if none is under way, has lasted the window; and the flag is
-- set exactly if an unhealthy provider has become healthy.
pub evaluate-healthy_iff :
    (cfg : HealthConfig) (now : ℕ) (other : Option ℕ) (h : ProviderHealth)
    → let h₀ = pruned cfg now h in
      let (h', recovered) = evaluate cfg now other h in
      ((h'.is_healthy ≡ true) ↔ (
        (is_any (breaches cfg other h₀) ≡ false)
        × ((h.is_healthy ≡ true)
            ⊎ ((is_clean cfg other h₀ ≡ true)
                × (or_now now h.recovery_start_ms + cfg.recovery_window_ms ≤ now)))))
      × ((recovered ≡ true) ↔ ((h.is_healthy ≡ false) × (h'.is_healthy ≡ true)))
unfolding evaluate judge recover
evaluate-healthy_iff cfg now other h = ground arith
