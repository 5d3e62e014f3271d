-- ===== src/Tests/AlertsTests.antt =====
-- The alert aggregator at concrete inputs: three alerts of two keys, and a flush.
use percolator_keeper.Prelude.{◌+◌, ◌≡◌, refl, List, [], ◌∷◌}
use percolator_keeper.Alerts.{
  AlertEvent, added, flushed, alert_run, new_aggregator, alert_step, add_alert, bump, flush,
  arm_timer,
}
use percolator_keeper.Alerts.Conservation.{alerts_of, alerts_are_conserved}

abbrev cascade : List AlertEvent
cascade = added 1 7 ∷ added 2 8 ∷ added 3 7 ∷ flushed ∷ added 4 7 ∷ []

alerts_are_conserved_example :
    let (a, out) = alert_run 5_000 10 cascade new_aggregator in
    alerts_of 7 out + alerts_of 7 a.buckets ≡ 3
alerts_are_conserved_example = alerts_are_conserved 7 5_000 10 cascade

sent_once : (alert_run 5_000 10 cascade new_aggregator).1 ≡ (7, 2) ∷ (8, 1) ∷ []
unfolding alert_run alert_step add_alert bump flush arm_timer
sent_once = refl
