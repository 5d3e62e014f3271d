-- ===== src/Alerts/Conservation.antt =====
-- src/lib/alert-aggregator.ts: no alert is lost or sent twice, and the buffer is bounded.
use percolator_keeper.Prelude.{
  ℕ, ◌+◌, ◌≤◌, ◌<◌, ◌≡◌, ◌↔◌, none, List, [], ◌∷◌, ◌++◌, arith, ◌==◌, if◌then◌else◌, length,
}
use percolator_keeper.Alerts.{
  Aggregator, new_aggregator, bump, flush, arm_timer, add_alert, AlertEvent, added, flushed,
  alert_step, alert_run,
}

-- The alerts of a key in a list of buckets, and in a list of events.
abbrev pub alerts_of : ℕ → List (ℕ × ℕ) → ℕ
alerts_of key [] = 0
alerts_of key ((k, n) ∷ rest) = (if k == key then n else 0) + alerts_of key rest

abbrev pub added_of : ℕ → List AlertEvent → ℕ
added_of key [] = 0
added_of key (added now k ∷ es) = (if k == key then 1 else 0) + added_of key es
added_of key (flushed ∷ es) = added_of key es

alerts_of-bump :
    (key k : ℕ) (bs : List (ℕ × ℕ))
    → alerts_of key (bump k bs) ≡ (if k == key then 1 else 0) + alerts_of key bs
unfolding bump
alerts_of-bump key k [] = ground arith
alerts_of-bump key k ((j, n) ∷ bs) = ground (arith, alerts_of-bump key k bs)

alerts_of-append :
    (key : ℕ) (xs ys : List (ℕ × ℕ))
    → alerts_of key (xs ++ ys) ≡ alerts_of key xs + alerts_of key ys
alerts_of-append key [] ys = omega arith
alerts_of-append key ((k, n) ∷ xs) ys = ground (arith, alerts_of-append key xs ys)

step_keeps :
    (key buffer_ms max_buckets : ℕ) (e : AlertEvent) (a : Aggregator)
    → let (b, out) = alert_step buffer_ms max_buckets e a in
      alerts_of key out + alerts_of key b.buckets ≡ added_of key (e ∷ []) + alerts_of key a.buckets
unfolding alert_step add_alert flush arm_timer
step_keeps key buffer_ms max_buckets (added now k) a =
    ground (arith, alerts_of-bump key k a.buckets)
step_keeps key buffer_ms max_buckets flushed a = ground arith

added_of-cons :
    (key : ℕ) (e : AlertEvent) (es : List AlertEvent)
    → added_of key (e ∷ es) ≡ added_of key (e ∷ []) + added_of key es
added_of-cons key (added now k) es = omega arith
added_of-cons key flushed es = omega arith

run_keeps :
    (key buffer_ms max_buckets : ℕ) (es : List AlertEvent) (a : Aggregator)
    → let (b, out) = alert_run buffer_ms max_buckets es a in
      alerts_of key out + alerts_of key b.buckets ≡ added_of key es + alerts_of key a.buckets
unfolding alert_run
run_keeps key buffer_ms max_buckets [] a = omega arith
run_keeps key buffer_ms max_buckets (e ∷ es) a =
    let (b, out) = alert_step buffer_ms max_buckets e a in
    let (c, later) = alert_run buffer_ms max_buckets es b in
    omega (
      arith,
      alerts_of-append key out later,
      step_keeps key buffer_ms max_buckets e a,
      run_keeps key buffer_ms max_buckets es b,
      added_of-cons key e es,
    )

-- From a new aggregator, for each key, the alerts handed to the sink and those still in the buffer are
-- together exactly those that were added.
pub alerts_are_conserved :
    (key buffer_ms max_buckets : ℕ) (es : List AlertEvent)
    → let (a, out) = alert_run buffer_ms max_buckets es new_aggregator in
      alerts_of key out + alerts_of key a.buckets ≡ added_of key es
alerts_are_conserved key buffer_ms max_buckets es =
    omega (arith, run_keeps key buffer_ms max_buckets es new_aggregator)

abbrev IsArmed : ℕ → Aggregator → Type 0
IsArmed max_buckets a =
    (length a.buckets ≤ max_buckets) × ((a.timer_due ≡ none) ↔ (length a.buckets ≡ 0))

length-bump : (k : ℕ) (bs : List (ℕ × ℕ)) → 0 < length (bump k bs)
unfolding bump
length-bump k [] = omega arith
length-bump k ((j, n) ∷ bs) = ground arith

alert_step-IsArmed :
    (buffer_ms max_buckets : ℕ) (e : AlertEvent) (a : Aggregator)
    → IsArmed max_buckets a
    → IsArmed max_buckets (alert_step buffer_ms max_buckets e a).0
unfolding alert_step add_alert flush arm_timer
alert_step-IsArmed buffer_ms max_buckets (added now k) a h = ground (arith, length-bump k a.buckets)
alert_step-IsArmed buffer_ms max_buckets flushed a h = ground arith

alert_run-IsArmed :
    (buffer_ms max_buckets : ℕ) (es : List AlertEvent) (a : Aggregator)
    → IsArmed max_buckets a
    → IsArmed max_buckets (alert_run buffer_ms max_buckets es a).0
unfolding alert_run
alert_run-IsArmed buffer_ms max_buckets [] a h = h
alert_run-IsArmed buffer_ms max_buckets (e ∷ es) a h =
    alert_run-IsArmed buffer_ms max_buckets es (alert_step buffer_ms max_buckets e a).0
      (alert_step-IsArmed buffer_ms max_buckets e a h)

-- From a new aggregator, after any events there are at most the maximal number of buckets, and a flush
-- is scheduled exactly if a bucket waits for it.
pub buffer_is_bounded :
    (buffer_ms max_buckets : ℕ) (es : List AlertEvent)
    → let a = (alert_run buffer_ms max_buckets es new_aggregator).0 in
      (length a.buckets ≤ max_buckets) × ((a.timer_due ≡ none) ↔ (length a.buckets ≡ 0))
buffer_is_bounded buffer_ms max_buckets es =
    alert_run-IsArmed buffer_ms max_buckets es new_aggregator (omega arith, ground arith)
