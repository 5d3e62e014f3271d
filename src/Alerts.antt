-- ===== src/Alerts.antt =====
-- src/lib/alert-aggregator.ts: the buffer of alerts. A key is a number that stands for its string; the
-- map is a list in the order of insertion; a flush hands its snapshot to the sink, which is left out.
pub mod Conservation
use percolator_keeper.Prelude.{
  ℕ, ◌+◌, Bool, true, false, Option, none, some, List, [], ◌∷◌, ◌++◌, ltb, ◌==◌, if◌then◌else◌,
  length,
}

pub record Aggregator : Type 0 where
  pub buckets : List (ℕ × ℕ)
  pub timer_due : Option ℕ

abbrev pub new_aggregator : Aggregator
new_aggregator = record { buckets = []; timer_due = none }

-- `buckets.set(key, (buckets.get(key) ?? 0) + 1)`
unfoldable pub bump : ℕ → List (ℕ × ℕ) → List (ℕ × ℕ)
bump key [] = (key, 1) ∷ []
bump key ((k, n) ∷ rest) =
    let bumped = bump key rest in if k == key then (k, n + 1) ∷ rest else (k, n) ∷ bumped

-- The state and the snapshot that goes to the sink.
unfoldable pub flush : Aggregator → Aggregator × List (ℕ × ℕ)
flush a = (record { buckets = []; timer_due = none }, a.buckets)

unfoldable pub arm_timer : ℕ → ℕ → Aggregator → Aggregator
arm_timer buffer_ms now a = elim a.timer_due [
  | none ↦ record a { timer_due = some (now + buffer_ms) }
  | some due ↦ a
]

unfoldable pub add_alert : ℕ → ℕ → ℕ → ℕ → Aggregator → Aggregator × List (ℕ × ℕ)
unfolding bump flush arm_timer
add_alert buffer_ms max_buckets now key a =
    let grown = record a { buckets = bump key a.buckets } in
    if ltb max_buckets (length grown.buckets)
    then flush grown
    else (arm_timer buffer_ms now grown, [])

-- Calls of the public methods but `stop`; the timer's callback is a flush.
pub data AlertEvent : Type 0 where
  added : ℕ → ℕ → AlertEvent
  flushed : AlertEvent

unfoldable pub alert_step : ℕ → ℕ → AlertEvent → Aggregator → Aggregator × List (ℕ × ℕ)
unfolding add_alert flush
alert_step buffer_ms max_buckets (added now key) a = add_alert buffer_ms max_buckets now key a
alert_step buffer_ms max_buckets flushed a = flush a

-- The state after the events, and all that went to the sink.
unfoldable pub alert_run : ℕ → ℕ → List AlertEvent → Aggregator → Aggregator × List (ℕ × ℕ)
unfolding alert_step
alert_run buffer_ms max_buckets [] a = (a, [])
alert_run buffer_ms max_buckets (e ∷ es) a =
    let (b, out) = alert_step buffer_ms max_buckets e a in
    let (c, later) = alert_run buffer_ms max_buckets es b in (c, out ++ later)
