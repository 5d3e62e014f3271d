-- ===== src/Rpc.antt =====
-- src/lib/rpc-health.ts: the latency window and the health of one provider. Times, latencies and slots
-- are whole numbers; the time is an argument, and logging is left out.
pub mod Percentile
pub mod Recovering
pub mod Pooling
pub mod Failover
use percolator_keeper.Prelude.{
  ℕ, suc, ◌+◌, ◌-◌, ◌*◌, ◌/◌, min, ℤ, pos, negsuc, ◌-ℤ◌, pos_part, neg_part, Bool, true, false, not,
  ◌&&◌, ◌||◌, Option, none, some, List, [], ◌∷◌, ◌++◌, ltb, leb, ◌==◌, if◌then◌else◌, map, length,
  get_elem?,
}

pub record Sample : Type 0 where
  pub ts : ℕ
  pub latency_ms : ℕ

pub record HealthConfig : Type 0 where
  pub window_ms : ℕ
  pub unhealthy_p99_ms : ℕ
  pub unhealthy_slot_lag : ℕ
  pub unhealthy_consecutive_fails : ℕ
  pub recovery_window_ms : ℕ
  pub recovery_p99_ms : ℕ
  pub recovery_slot_lag : ℕ

-- The conditions that the text of the reason names.
pub record Breaches : Type 0 where
  pub p99_breach : Bool
  pub lag_breach : Bool
  pub fail_breach : Bool

pub record ProviderHealth : Type 0 where
  pub samples : List Sample
  pub consecutive_fails : ℕ
  pub last_seen_slot : Option ℕ
  pub is_healthy : Bool
  pub unhealthy_reason : Option Breaches
  pub recovery_start_ms : Option ℕ

abbrev pub new_health : ProviderHealth
new_health = record {
  samples = [];
  consecutive_fails = 0;
  last_seen_slot = none;
  is_healthy = true;
  unhealthy_reason = none;
  recovery_start_ms = none;
}

-- The samples from the first that is not older than the window.
unfoldable pub prune_samples : ℕ → ℕ → List Sample → List Sample
prune_samples window now [] = []
prune_samples window now (s ∷ ss) =
    let rest = prune_samples window now ss in if ltb (s.ts + window) now then rest else s ∷ ss

unfoldable pub record_success : HealthConfig → ℕ → ℕ → ProviderHealth → ProviderHealth
unfolding prune_samples
record_success cfg now latency h = record h {
  samples =
      prune_samples cfg.window_ms now (h.samples ++ record { ts = now; latency_ms = latency } ∷ []);
  consecutive_fails = 0;
}

unfoldable pub record_failure : ProviderHealth → ProviderHealth
record_failure h = record h { consecutive_fails = h.consecutive_fails + 1; samples = [] }

unfoldable pub record_slot : ℕ → ProviderHealth → ProviderHealth
record_slot slot h = record h { last_seen_slot = some slot }

-- The ascending sort of the latencies.
unfoldable pub insert_sorted : ℕ → List ℕ → List ℕ
insert_sorted x [] = x ∷ []
insert_sorted x (y ∷ ys) = let rest = insert_sorted x ys in if leb x y then x ∷ y ∷ ys else y ∷ rest

unfoldable pub sort_ascending : List ℕ → List ℕ
unfolding insert_sorted
sort_ascending [] = []
sort_ascending (x ∷ xs) = insert_sorted x (sort_ascending xs)

-- `min(ceil(pct / 100 * n) - 1, n - 1)`, for a percentage above 0 and a list that is not empty; the
-- product is taken exactly.
unfoldable pub rank : ℕ → ℕ → ℕ
rank pct n = min ((pct * n + 99) / 100 - 1) (n - 1)

unfoldable pub percentile_of : ℕ → List ℕ → Option ℕ
unfolding sort_ascending rank
percentile_of pct [] = none
percentile_of pct (x ∷ xs) = get_elem? (sort_ascending (x ∷ xs)) (rank pct (length (x ∷ xs)))

unfoldable pub compute_percentile : ℕ → ProviderHealth → Option ℕ
unfolding percentile_of
compute_percentile pct h = percentile_of pct (map (λ s. s.latency_ms) h.samples)

-- Above 0 where this provider is behind.
unfoldable pub compute_slot_lag : Option ℕ → Option ℕ → Option ℤ
compute_slot_lag (some mine) (some other) = some (pos other -ℤ pos mine)
compute_slot_lag _ _ = none

abbrev pub abs_lag : ℤ → ℕ
abs_lag z = pos_part z + neg_part z

-- The tests of an optional number: `x !== null && x > limit`, and `x === null || x < limit`.
abbrev pub above : ℕ → Option ℕ → Bool
above limit none = false
above limit (some v) = ltb limit v

abbrev pub none_or_below : ℕ → Option ℕ → Bool
none_or_below limit none = true
none_or_below limit (some v) = ltb v limit

abbrev pub lag_above : ℕ → Option ℤ → Bool
lag_above limit none = false
lag_above limit (some z) = ltb limit (abs_lag z)

abbrev pub lag_below : ℕ → Option ℤ → Bool
lag_below limit none = false
lag_below limit (some z) = ltb (abs_lag z) limit

unfoldable pub breaches : HealthConfig → Option ℕ → ProviderHealth → Breaches
unfolding compute_slot_lag compute_percentile
breaches cfg other h = record {
  p99_breach = above cfg.unhealthy_p99_ms (compute_percentile 99 h);
  lag_breach = lag_above cfg.unhealthy_slot_lag (compute_slot_lag h.last_seen_slot other);
  fail_breach = leb cfg.unhealthy_consecutive_fails h.consecutive_fails;
}

unfoldable pub is_any : Breaches → Bool
is_any r = r.p99_breach || r.lag_breach || r.fail_breach

unfoldable pub is_clean : HealthConfig → Option ℕ → ProviderHealth → Bool
unfolding compute_slot_lag compute_percentile
is_clean cfg other h =
    none_or_below cfg.recovery_p99_ms (compute_percentile 99 h)
    && (lag_below cfg.recovery_slot_lag (compute_slot_lag h.last_seen_slot other)
        && h.consecutive_fails == 0)

abbrev pub or_now : ℕ → Option ℕ → ℕ
or_now now none = now
or_now now (some t) = t

-- An unhealthy provider without a breach.
unfoldable pub recover : HealthConfig → ℕ → Option ℕ → ProviderHealth → ProviderHealth × Bool
unfolding is_clean
recover cfg now other h =
    if is_clean cfg other h
    then if leb (or_now now h.recovery_start_ms + cfg.recovery_window_ms) now
      then (record h { is_healthy = true; unhealthy_reason = none; recovery_start_ms = none }, true)
      else (record h { recovery_start_ms = some (or_now now h.recovery_start_ms) }, false)
    else (record h { recovery_start_ms = none }, false)

-- Behind the pruning of the window. The flag is whether the provider recovers.
unfoldable pub judge : HealthConfig → ℕ → Option ℕ → ProviderHealth → ProviderHealth × Bool
unfolding breaches is_any recover
judge cfg now other h =
    if is_any (breaches cfg other h)
    then (
      record h {
        is_healthy = false;
        unhealthy_reason = some (breaches cfg other h);
        recovery_start_ms = none;
      },
      false,
    )
    else if h.is_healthy
    then (h, false)
    else recover cfg now other h

abbrev pub pruned : HealthConfig → ℕ → ProviderHealth → ProviderHealth
pruned cfg now h = record h { samples = prune_samples cfg.window_ms now h.samples }

unfoldable pub evaluate : HealthConfig → ℕ → Option ℕ → ProviderHealth → ProviderHealth × Bool
unfolding judge prune_samples
evaluate cfg now other h = judge cfg now other (pruned cfg now h)
