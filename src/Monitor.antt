-- ===== src/Monitor.antt =====
-- src/services/monitor.ts: the checks of one market: that its vault holds what the program accounts for,
-- and whether a legacy market waits for an auto-deleveraging. The reads of the chain are an argument.
pub mod Verdicts
use percolator_keeper.Prelude.{
  ℕ, zero, suc, ◌+◌, ◌-◌, ◌≤◌, ◌<◌, ◌≡◌, refl, ap, ◌∙◌, ◌↔◌, ◌⊎◌, inl, inr, Bool, true, false, not,
  ◌&&◌, ◌||◌, Option, none, some, List, [], ◌∷◌, ◌++◌, ltb, leb, ◌==◌, if◌then◌else◌, arith,
}

abbrev pub alert_cooldown_ms : ℕ
alert_cooldown_ms = 300_000

-- `ok` is `none` for a check that could not be made.
pub record InvariantResult : Type 0 where
  pub ok : Option Bool
  pub vault_token_balance : Option ℕ
  pub engine_vault : Option ℕ
  pub shortfall : Option ℕ
  pub checked_at : ℕ

pub record AdlStaleness : Type 0 where
  pub adl_needed : Bool
  pub cycle_since_last_adl : ℕ
  pub stale : Bool
  pub checked_at : ℕ

-- What the service keeps of one market. A time of 0 is one before all alerts.
pub record MarketMonitor : Type 0 where
  pub last_invariant_alert : ℕ
  pub last_adl_staleness_alert : ℕ
  pub cycle_count_at_last_adl : ℕ
  pub invariant : Option InvariantResult
  pub adl_staleness : Option AdlStaleness

pub data MonitorAlert : Type 0 where
  vault_underfunded adl_overdue : MonitorAlert

-- What the two reads of a v17 market give: of one snapshot, the vault that the program accounts for and
-- the balance of the token account; or anything that fails on the way.
pub data ConservationRead : Type 0 where
  unreadable : ConservationRead
  vault_read : ℕ → ℕ → ConservationRead

pub record LegacyRead : Type 0 where
  pub engine_vault : ℕ
  pub pnl_pos_tot : ℕ
  pub insurance_balance : ℕ
  pub max_pnl_cap : ℕ

-- The read of a market: a failure, a v17 market, or a legacy market with its token balance, whose read
-- may fail.
pub data MarketRead : Type 0 where
  slab_failed : MarketRead
  v17_market : ConservationRead → MarketRead
  legacy_market : LegacyRead → Option ℕ → MarketRead

unfoldable pub record_unchecked : ℕ → MarketMonitor → MarketMonitor
record_unchecked now m = record m {
  invariant = some (record {
    ok = none;
    vault_token_balance = none;
    engine_vault = none;
    shortfall = none;
    checked_at = now;
  });
}

abbrev pub conservation_result : ℕ → ℕ → ℕ → InvariantResult
conservation_result now accounted balance = record {
  ok = some (leb accounted balance);
  vault_token_balance = some balance;
  engine_vault = some accounted;
  shortfall = some (if leb accounted balance then 0 else accounted - balance);
  checked_at = now;
}

-- `now - last > cooldown` is written without the subtraction.
abbrev pub may_alert : ℕ → ℕ → Bool
may_alert now last = ltb (last + alert_cooldown_ms) now

-- The result is recorded before the alert; the alerts are the second part.
unfoldable pub check_conservation : ℕ → ℕ → ℕ → MarketMonitor → MarketMonitor × List MonitorAlert
check_conservation now accounted balance m =
    let recorded = record m { invariant = some (conservation_result now accounted balance) } in
    if not (leb accounted balance) && may_alert now m.last_invariant_alert
    then (record recorded { last_invariant_alert = now }, vault_underfunded ∷ [])
    else (recorded, [])

unfoldable pub check_v17_conservation :
    ℕ → ConservationRead → MarketMonitor → MarketMonitor × List MonitorAlert
unfolding record_unchecked check_conservation
check_v17_conservation now unreadable m = (record_unchecked now m, [])
check_v17_conservation now (vault_read accounted balance) m =
    check_conservation now accounted balance m

abbrev pub not_applicable : ℕ → AdlStaleness
not_applicable now = record {
  adl_needed = false;
  cycle_since_last_adl = 0;
  stale = false;
  checked_at = now;
}

abbrev pub is_adl_needed : LegacyRead → Bool
is_adl_needed r =
    r.insurance_balance == 0 && (ltb 0 r.max_pnl_cap && ltb r.max_pnl_cap r.pnl_pos_tot)

unfoldable pub check_adl :
    ℕ → ℕ → ℕ → LegacyRead → MarketMonitor → MarketMonitor × List MonitorAlert
check_adl now threshold cycles r m =
    let needed = is_adl_needed r in
    let since = if needed then cycles - m.cycle_count_at_last_adl else 0 in
    let stale = needed && leb threshold since in
    let recorded = record m {
      adl_staleness = some (record {
        adl_needed = needed;
        cycle_since_last_adl = since;
        stale = stale;
        checked_at = now;
      });
    } in
    if stale && may_alert now m.last_adl_staleness_alert
    then (record recorded { last_adl_staleness_alert = now }, adl_overdue ∷ [])
    else (recorded, [])

abbrev pub and_then :
    MarketMonitor × List MonitorAlert
    → (MarketMonitor → MarketMonitor × List MonitorAlert)
    → MarketMonitor × List MonitorAlert
and_then (m, alerts) f = let (m', more) = f m in (m', alerts ++ more)

unfoldable pub check_legacy :
    ℕ → ℕ → ℕ → LegacyRead → Option ℕ → MarketMonitor → MarketMonitor × List MonitorAlert
unfolding record_unchecked check_conservation check_adl
check_legacy now threshold cycles r none m = (record_unchecked now m, [])
check_legacy now threshold cycles r (some balance) m =
    and_then (check_conservation now r.engine_vault balance m) (check_adl now threshold cycles r)

unfoldable pub check_one_market :
    ℕ → ℕ → ℕ → MarketRead → MarketMonitor → MarketMonitor × List MonitorAlert
unfolding check_v17_conservation check_legacy record_unchecked
check_one_market now threshold cycles slab_failed m = (record_unchecked now m, [])
check_one_market now threshold cycles (v17_market r) m =
    let (checked, alerts) = check_v17_conservation now r m in
    (record checked { adl_staleness = some (not_applicable now) }, alerts)
check_one_market now threshold cycles (legacy_market r balance) m =
    check_legacy now threshold cycles r balance m

unfoldable pub notify_adl_tx : ℕ → MarketMonitor → MarketMonitor
notify_adl_tx cycles m = record m { cycle_count_at_last_adl = cycles }
