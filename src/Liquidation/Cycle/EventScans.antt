-- ===== src/Liquidation/Cycle/EventScans.antt =====
-- src/services/liquidation.ts: the scans that account updates trigger.
use percolator_keeper.Prelude.{
  ℕ, ◌+◌, ◌≤◌, ◌≡◌, Bool, true, false, ◌&&◌, Option, none, some, List, [], ◌∷◌, arith, leb,
  if◌then◌else◌, ◌⊎◌, inr,
}
use percolator_keeper.Liquidation.Cycle.{
  EventScan, account_updated, maybe_run_event_scan, min_event_scan_interval_ms,
}

-- An account update, or the time at which the debounce timer is looked at.
pub data MarketEvent : Type 0 where
  updated : ℕ → MarketEvent
  wakes : ℕ → MarketEvent

abbrev pub timer_due : ℕ → Option ℕ → Bool
timer_due now none = false
timer_due now (some due) = leb due now

unfoldable pub market_step : ℕ → MarketEvent → EventScan → EventScan × Bool
market_step debounce_ms (updated now) s = (account_updated debounce_ms now s, false)
market_step debounce_ms (wakes now) s =
    if timer_due now s.debounce_timer then maybe_run_event_scan now s else (s, false)

abbrev pub is_armed : Option ℕ → Bool
is_armed none = false
is_armed (some due) = true

abbrev pub time_of : MarketEvent → ℕ
time_of (updated now) = now
time_of (wakes now) = now

-- The times of the scans.
abbrev pub add_scan : Bool → ℕ → List ℕ → List ℕ
add_scan true now ts = now ∷ ts
add_scan false now ts = ts

unfoldable pub scan_times : ℕ → List MarketEvent → EventScan → List ℕ
unfolding market_step
scan_times debounce_ms [] s = []
scan_times debounce_ms (e ∷ es) s =
    add_scan (market_step debounce_ms e s).1 (time_of e)
      (scan_times debounce_ms es (market_step debounce_ms e s).0)

-- No scan is less than the interval after the last one.
abbrev pub is_spaced : ℕ → List ℕ → Bool
is_spaced last [] = true
is_spaced last (t ∷ ts) = leb (last + min_event_scan_interval_ms) t && is_spaced t ts

module _ (debounce_ms : ℕ) where
  -- A step with a scan leaves its time as the last one, which is late enough; one without leaves it.
  step-last :
      (e : MarketEvent) (s : EventScan) (last : ℕ) (after : EventScan) (ran : Bool)
      → market_step debounce_ms e s ≡ (after, ran)
      → s.last_scan_at ≡ some last
      → ((ran ≡ false) × (after.last_scan_at ≡ some last))
        ⊎ ((ran ≡ true)
            × (after.last_scan_at ≡ some (time_of e))
            × (last + min_event_scan_interval_ms ≤ time_of e))
  unfolding market_step maybe_run_event_scan
  step-last (updated now) s last after ran e h = ground (arith, e, h)
  step-last (wakes now) s last after ran e h = ground (arith, e, h)

  add_scan-spaced :
      (now last : ℕ) (after : EventScan) (ran : Bool) (ts : List ℕ)
      → ((ran ≡ false) × (after.last_scan_at ≡ some last))
        ⊎ ((ran ≡ true)
            × (after.last_scan_at ≡ some now)
            × (last + min_event_scan_interval_ms ≤ now))
      → ((l : ℕ) → after.last_scan_at ≡ some l → is_spaced l ts ≡ true)
      → is_spaced last (add_scan ran now ts) ≡ true
  add_scan-spaced now last after false ts d ih = ground (arith, d, ih last)
  add_scan-spaced now last after true ts d ih = ground (arith, d, ih now)

  -- The scans of one market that updates trigger are at least five seconds apart, the one before the
  -- events included, however the updates and the timer come.
  pub event_scans_are_spaced :
      (es : List MarketEvent) (s : EventScan) (last : ℕ)
      → s.last_scan_at ≡ some last
      → is_spaced last (scan_times debounce_ms es s) ≡ true
  unfolding scan_times
  event_scans_are_spaced [] s last h = λ i. true
  event_scans_are_spaced (e ∷ es) s last h =
      let (after, ran) = market_step debounce_ms e s in
      add_scan-spaced (time_of e) last after ran (scan_times debounce_ms es after)
        (step-last e s last after ran (λ i. market_step debounce_ms e s) h)
        (λ l k. event_scans_are_spaced es after l k)

  -- An armed timer stays armed until a scan runs: no update is dropped.
  pub trigger_is_kept :
      (e : MarketEvent) (s : EventScan) (due : ℕ)
      → s.debounce_timer ≡ some due
      → ((market_step debounce_ms e s).1 ≡ true)
        ⊎ (is_armed (market_step debounce_ms e s).0.debounce_timer ≡ true)
  unfolding market_step maybe_run_event_scan
  trigger_is_kept (updated now) s due h = inr (λ i. true)
  trigger_is_kept (wakes now) s due h = ground (arith, h)
