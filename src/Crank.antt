-- ===== src/Crank.antt =====
-- src/services/crank.ts, with the state type of src/services/crank-types.ts: the state of a market, what
-- a crank does to it, which markets a cycle takes, and how discovery changes the tracked markets. A
-- market, a program, a key and a portfolio are numbers. The transaction and the SDK's parsers are
-- arguments: what comes of them is given to the handlers.
pub mod Choice
pub mod Registry
pub mod Watchdog
pub mod Streaks
pub mod Selection
pub mod Cooldown
pub mod Eviction
use percolator_keeper.Prelude.{
  ℕ, zero, suc, ◌+◌, ◌-◌, ◌*◌, ◌%◌, min, Bool, true, false, not, ◌&&◌, ◌||◌, Option, none, some,
  List, [], ◌∷◌, ◌++◌, ltb, leb, ◌==◌, if◌then◌else◌, length, take, drop, update, NumberSet,
}

pub data CrankResult : Type 0 where
  success skipped failed : CrankResult

-- The fields of a discovered market that the service looks at. The oracle authority is `none` for the
-- default key.
pub record MarketInfo : Type 0 where
  pub slab_address : ℕ
  pub program_id : ℕ
  pub oracle_authority : Option ℕ
  pub has_raw_v17_config : Bool
  pub header : Option (ℕ × ℕ)

pub record MarketCrankState : Type 0 where
  pub market : MarketInfo
  pub last_crank_time : ℕ
  pub success_count : ℕ
  pub failure_count : ℕ
  pub consecutive_failures : ℕ
  pub is_active : Bool
  pub missing_discovery_count : ℕ
  pub permanently_skipped : Bool
  pub permanently_skipped_at : Option ℕ
  pub skip_count : Option ℕ
  pub alerted_at5 : Bool
  pub mainnet_ca : Option ℕ
  pub foreign_oracle_skipped : Bool
  pub keeper_portfolio : Option ℕ

-- A market that discovery or the registration adds.
abbrev pub new_market : MarketInfo → Option ℕ → MarketCrankState
new_market info mainnet_ca = record {
  market = info;
  last_crank_time = 0;
  success_count = 0;
  failure_count = 0;
  consecutive_failures = 0;
  is_active = true;
  missing_discovery_count = 0;
  permanently_skipped = false;
  permanently_skipped_at = none;
  skip_count = none;
  alerted_at5 = false;
  mainnet_ca = mainnet_ca;
  foreign_oracle_skipped = false;
  keeper_portfolio = none;
}

unfoldable pub is_v17_discovered_market : MarketInfo → Bool
is_v17_discovered_market m =
    if m.has_raw_v17_config
    then true
    else elim m.header [ none ↦ false | some h ↦ h.0 == 16 && h.1 == 1 ]

abbrev pub skip_hour_ms : ℕ
skip_hour_ms = 3_600_000

abbrev pub or_one : Option ℕ → ℕ
or_one none = 1
or_one (some n) = n

unfoldable pub skip_cooldown : MarketCrankState → ℕ
skip_cooldown s = min (or_one s.skip_count * skip_hour_ms) (24 * skip_hour_ms)

-- The truth of an optional time: 0 counts as absent.
abbrev pub is_time : Option ℕ → Bool
is_time none = false
is_time (some t) = ltb 0 t

abbrev pub or_epoch : Option ℕ → ℕ
or_epoch none = 0
or_epoch (some t) = t

unfoldable pub reset_failures : MarketCrankState → MarketCrankState
reset_failures s =
    if ltb 0 s.consecutive_failures
    then record s { consecutive_failures = 0; is_active = true }
    else s

-- `elapsed >= cooldown` is written without the subtraction.
unfoldable pub reset_permanent_skip : ℕ → MarketCrankState → MarketCrankState
unfolding skip_cooldown
reset_permanent_skip now s =
    if s.permanently_skipped
      && (is_time s.permanently_skipped_at
          && leb (or_epoch s.permanently_skipped_at + skip_cooldown s) now)
    then record s { permanently_skipped = false; consecutive_failures = 0 }
    else s

unfoldable pub reset_recoverable_market_state : ℕ → MarketCrankState → MarketCrankState
unfolding reset_failures reset_permanent_skip
reset_recoverable_market_state now s =
    reset_permanent_skip now (record (reset_failures s) { foreign_oracle_skipped = false })

-- What a thrown error is, by its message.
pub record CrankError : Type 0 where
  pub is_transient : Bool
  pub is_invalid_slab_len : Bool

-- How the part of `crankMarket` between its guards and its `finally` comes out. `not_sent` is a send
-- that keeperSend declines.
pub data CrankEnd : Type 0 where
  no_portfolio no_slot not_sent sent : CrankEnd
  threw : CrankError → CrankEnd

unfoldable pub crank_succeeded : ℕ → MarketCrankState → MarketCrankState
unfolding reset_recoverable_market_state
crank_succeeded now s = record (reset_recoverable_market_state now s) {
  last_crank_time = now;
  success_count = s.success_count + 1;
  consecutive_failures = 0;
  alerted_at5 = false;
  is_active = true;
}

-- The start of the `catch`.
unfoldable pub count_failure : ℕ → CrankError → MarketCrankState → MarketCrankState
count_failure now e s = record s {
  failure_count = s.failure_count + 1;
  consecutive_failures = s.consecutive_failures + (if e.is_transient then 0 else 1);
  last_crank_time = now;
}

abbrev pub or_none_yet : Option ℕ → ℕ
or_none_yet none = 0
or_none_yet (some n) = n

unfoldable pub skip_permanently : ℕ → MarketCrankState → MarketCrankState
skip_permanently now s = record s {
  permanently_skipped = true;
  permanently_skipped_at = some now;
  skip_count = some (or_none_yet s.skip_count + 1);
  is_active = false;
}

unfoldable pub deactivate_failing : MarketCrankState → MarketCrankState
deactivate_failing s = if leb 10 s.consecutive_failures then record s { is_active = false } else s

abbrev pub needs_alert : MarketCrankState → Bool
needs_alert s = leb 5 s.consecutive_failures && not s.alerted_at5

-- The state, the result and whether an alert is sent.
unfoldable pub crank_failed :
    ℕ → CrankError → MarketCrankState → MarketCrankState × CrankResult × Bool
unfolding count_failure skip_permanently deactivate_failing
crank_failed now e s =
    let counted = count_failure now e s in
    if e.is_invalid_slab_len
    then (skip_permanently now counted, skipped, false)
    else let judged = deactivate_failing counted in
      (
        record judged { alerted_at5 = judged.alerted_at5 || needs_alert judged },
        failed,
        needs_alert judged,
      )

unfoldable pub crank_ended : ℕ → CrankEnd → MarketCrankState → MarketCrankState × CrankResult × Bool
unfolding crank_succeeded crank_failed
crank_ended now no_portfolio s = (s, skipped, false)
crank_ended now no_slot s = (s, skipped, false)
crank_ended now not_sent s = (s, failed, false)
crank_ended now sent s = (crank_succeeded now s, success, false)
crank_ended now (threw e) s = crank_failed now e s

pub record CrankCall : Type 0 where
  pub state : Option MarketCrankState
  pub result : CrankResult
  pub alerts : Bool

unfoldable pub crank_tracked : ℕ → CrankEnd → Option MarketCrankState → CrankCall
unfolding crank_ended
crank_tracked now e none = record { state = none; result = skipped; alerts = false }
crank_tracked now e (some s) =
    let (after, result, alerts) = crank_ended now e s in
    record { state = some after; result = result; alerts = alerts }

-- The guard against a second call for a market that is in flight.
unfoldable pub crank_market : Bool → ℕ → CrankEnd → Option MarketCrankState → CrankCall
unfolding crank_tracked
crank_market is_in_flight now e o =
    if is_in_flight
    then record { state = o; result = skipped; alerts = false }
    else crank_tracked now e o
