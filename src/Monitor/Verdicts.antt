-- ===== src/Monitor/Verdicts.antt =====
-- src/services/monitor.ts: what the checks of a market record, and when they alert.
use percolator_keeper.Prelude.{
  ℕ, ◌+◌, ◌<◌, ◌≡◌, refl, ap, ◌∙◌, ◌⊎◌, inl, inr, Bool, true, false, ◌&&◌, ◌||◌, Option, none, some,
  List, [], ◌∷◌, ◌++◌, ltb, leb, if◌then◌else◌, arith,
}
use percolator_keeper.Monitor.{
  alert_cooldown_ms, InvariantResult, MarketMonitor, MonitorAlert, LegacyRead, MarketRead,
  record_unchecked, conservation_result, check_conservation, check_v17_conservation, check_adl,
  and_then, check_legacy, check_one_market, unreadable, vault_read, slab_failed, v17_market,
  legacy_market, vault_underfunded, adl_overdue,
}

-- What was read of the vault: what is accounted for, and the balance.
abbrev pub vault_of : MarketRead → Option (ℕ × ℕ)
vault_of slab_failed = none
vault_of (v17_market unreadable) = none
vault_of (v17_market (vault_read accounted balance)) = some (accounted, balance)
vault_of (legacy_market r none) = none
vault_of (legacy_market r (some balance)) = some (r.engine_vault, balance)

-- The verdict on the vault: none where it was not read.
abbrev pub verdict_of : Option (ℕ × ℕ) → Option Bool
verdict_of none = none
verdict_of (some v) = some (leb v.0 v.1)

abbrev pub ok_of : Option InvariantResult → Option Bool
ok_of none = none
ok_of (some r) = r.ok

abbrev pub time_of : Option InvariantResult → ℕ
time_of none = 0
time_of (some r) = r.checked_at

adl-invariant :
    (now threshold cycles : ℕ) (r : LegacyRead) (m : MarketMonitor)
    → (check_adl now threshold cycles r m).0.invariant ≡ m.invariant
unfolding check_adl
adl-invariant now threshold cycles r m = ground arith

conservation-invariant :
    (now accounted balance : ℕ) (m : MarketMonitor)
    → (check_conservation now accounted balance m).0.invariant
      ≡ some (conservation_result now accounted balance)
unfolding check_conservation
conservation-invariant now accounted balance m = ground arith

and_then-invariant :
    (p : MarketMonitor × List MonitorAlert) (f : MarketMonitor → MarketMonitor × List MonitorAlert)
    → ((m : MarketMonitor) → (f m).0.invariant ≡ m.invariant)
    → (and_then p f).0.invariant ≡ p.0.invariant
and_then-invariant (m, alerts) f h = h m

-- After a check of a market its result is the one of this check, whatever fails on the way: passing
-- exactly if the vault was read and holds what is accounted for, violated exactly if it was read and
-- holds less, and unchecked otherwise.
pub check_records_verdict :
    (now threshold cycles : ℕ) (r : MarketRead) (m : MarketMonitor)
    → let after = (check_one_market now threshold cycles r m).0.invariant in
      (ok_of after ≡ verdict_of (vault_of r)) × (time_of after ≡ now)
unfolding check_one_market check_v17_conservation check_legacy record_unchecked
check_records_verdict now threshold cycles slab_failed m = (refl, refl)
check_records_verdict now threshold cycles (v17_market unreadable) m = (refl, refl)
check_records_verdict now threshold cycles (v17_market (vault_read accounted balance)) m =
    let e = conservation-invariant now accounted balance m in (ap ok_of e, ap time_of e)
check_records_verdict now threshold cycles (legacy_market r none) m = (refl, refl)
check_records_verdict now threshold cycles (legacy_market r (some balance)) m =
    let e =
      and_then-invariant (check_conservation now r.engine_vault balance m)
        (check_adl now threshold cycles r) (adl-invariant now threshold cycles r)
      ∙ conservation-invariant now r.engine_vault balance m in
    (ap ok_of e, ap time_of e)

abbrev pub alerts_vault : List MonitorAlert → Bool
alerts_vault [] = false
alerts_vault (vault_underfunded ∷ rest) = true
alerts_vault (adl_overdue ∷ rest) = alerts_vault rest

-- The times of the alerts of a violation, over checks of one market.
abbrev pub alert_times : ℕ → List (ℕ × ℕ × MarketRead) → MarketMonitor → List ℕ
alert_times threshold [] m = []
alert_times threshold ((now, cycles, r) ∷ rest) m =
    let (after, alerts) = check_one_market now threshold cycles r m in
    let later = alert_times threshold rest after in
    if alerts_vault alerts then now ∷ later else later

abbrev pub are_apart : ℕ → List ℕ → Bool
are_apart last [] = true
are_apart last (t ∷ ts) = ltb (last + alert_cooldown_ms) t && are_apart t ts

-- Whether a check alerts, and the time of the last alert behind it.
abbrev pub IsTimed : ℕ → ℕ → MarketMonitor × List MonitorAlert → Type 0
IsTimed now last p =
    ((alerts_vault p.1 ≡ true)
      × (last + alert_cooldown_ms < now)
      × (p.0.last_invariant_alert ≡ now))
    ⊎ ((alerts_vault p.1 ≡ false) × (p.0.last_invariant_alert ≡ last))

conservation-IsTimed :
    (now accounted balance : ℕ) (m : MarketMonitor)
    → IsTimed now m.last_invariant_alert (check_conservation now accounted balance m)
unfolding check_conservation
conservation-IsTimed now accounted balance m = ground arith

adl-quiet :
    (now threshold cycles : ℕ) (r : LegacyRead) (m : MarketMonitor)
    → let p = check_adl now threshold cycles r m in
      (alerts_vault p.1 ≡ false) × (p.0.last_invariant_alert ≡ m.last_invariant_alert)
unfolding check_adl
adl-quiet now threshold cycles r m = (ground arith, ground arith)

alerts_vault-append :
    (xs ys : List MonitorAlert) → alerts_vault (xs ++ ys) ≡ (alerts_vault xs || alerts_vault ys)
alerts_vault-append [] ys = refl
alerts_vault-append (vault_underfunded ∷ xs) ys = refl
alerts_vault-append (adl_overdue ∷ xs) ys = alerts_vault-append xs ys

and_then-IsTimed :
    (now last : ℕ) (p : MarketMonitor × List MonitorAlert)
    (f : MarketMonitor → MarketMonitor × List MonitorAlert)
    → IsTimed now last p
    → ((m : MarketMonitor)
        → (alerts_vault (f m).1 ≡ false) × ((f m).0.last_invariant_alert ≡ m.last_invariant_alert))
    → IsTimed now last (and_then p f)
and_then-IsTimed now last (m, alerts) f t q =
    ground (arith, t, q m, alerts_vault-append alerts (f m).1)

apart_step :
    (now last : ℕ) (p : MarketMonitor × List MonitorAlert) (later : List ℕ)
    → IsTimed now last p
    → are_apart p.0.last_invariant_alert later ≡ true
    → are_apart last (if alerts_vault p.1 then now ∷ later else later) ≡ true
apart_step now last p later (inl (e, apart, same)) h =
    rw e (ground (arith, apart, ap (λ t. are_apart t later) same, h))
apart_step now last p later (inr (e, same)) h =
    rw e (ground (arith, ap (λ t. are_apart t later) same, h))

check-IsTimed :
    (now threshold cycles : ℕ) (r : MarketRead) (m : MarketMonitor)
    → IsTimed now m.last_invariant_alert (check_one_market now threshold cycles r m)
unfolding check_one_market check_v17_conservation check_legacy record_unchecked
check-IsTimed now threshold cycles slab_failed m = inr (refl, refl)
check-IsTimed now threshold cycles (v17_market unreadable) m = inr (refl, refl)
check-IsTimed now threshold cycles (v17_market (vault_read accounted balance)) m =
    conservation-IsTimed now accounted balance m
check-IsTimed now threshold cycles (legacy_market r none) m = inr (refl, refl)
check-IsTimed now threshold cycles (legacy_market r (some balance)) m =
    and_then-IsTimed now m.last_invariant_alert (check_conservation now r.engine_vault balance m)
      (check_adl now threshold cycles r) (conservation-IsTimed now r.engine_vault balance m)
      (adl-quiet now threshold cycles r)

-- The alerts of a market's violation are more than the cooldown apart, and so is the first one from the
-- last alert before, over any checks.
pub alerts_are_apart :
    (threshold : ℕ) (checks : List (ℕ × ℕ × MarketRead)) (m : MarketMonitor)
    → are_apart m.last_invariant_alert (alert_times threshold checks m) ≡ true
alerts_are_apart threshold [] m = refl
alerts_are_apart threshold ((now, cycles, r) ∷ rest) m =
    apart_step now m.last_invariant_alert (check_one_market now threshold cycles r m)
      (alert_times threshold rest (check_one_market now threshold cycles r m).0)
      (check-IsTimed now threshold cycles r m)
      (alerts_are_apart threshold rest (check_one_market now threshold cycles r m).0)
