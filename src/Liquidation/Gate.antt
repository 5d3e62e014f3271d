-- ===== src/Liquidation/Gate.antt =====
-- src/services/liquidation.ts: gatedLiquidate, which every liquidation passes: the polling scan's and
-- the event path's. Positions and owners are numbers that stand for their strings. `liquidate` runs
-- between `enter` and `leave`, and other calls may come between.
pub mod Interleaving
pub mod Limits
pub mod Backoff
use percolator_keeper.Prelude.{
  ℕ, zero, suc, ◌+◌, ◌-◌, ◌*◌, ◌^◌, min, Bool, true, false, not, ◌&&◌, ◌||◌, Option, none, some,
  List, [], ◌∷◌, ltb, leb, ◌==◌, if◌then◌else◌, update, NumberSet, empty_set,
}

pub data Source : Type 0 where
  polling laserstream : Source

pub record Cooldown : Type 0 where
  pub failures : ℕ
  pub retry_after : ℕ

-- The two caps of an owner. `none` is a cap that is NaN, which no count reaches.
pub record Caps : Type 0 where
  pub per_cycle : Option ℕ
  pub per_cycle_event : Option ℕ

pub record GateState : Type 0 where
  pub cycle_seen_positions : NumberSet
  pub cycle_owner_counts : ℕ → ℕ
  pub event_cycle_owner_counts : ℕ → ℕ
  pub in_flight_positions : NumberSet
  pub position_backoff : ℕ → Option Cooldown
  pub submit_attempts : ℕ

abbrev pub new_gate : GateState
new_gate = record {
  cycle_seen_positions = empty_set;
  cycle_owner_counts = λ _. 0;
  event_cycle_owner_counts = λ _. 0;
  in_flight_positions = empty_set;
  position_backoff = λ _. none;
  submit_attempts = 0;
}

abbrev pub position_backoff_base_ms : ℕ
position_backoff_base_ms = 5_000

abbrev pub position_backoff_max_ms : ℕ
position_backoff_max_ms = 60_000

-- The start of scanAndLiquidateAll.
unfoldable pub begin_cycle_gate : GateState → GateState
begin_cycle_gate g = record g {
  cycle_seen_positions = empty_set;
  cycle_owner_counts = λ _. 0;
  event_cycle_owner_counts = λ _. 0;
}

abbrev pub is_cooling : ℕ → Option Cooldown → Bool
is_cooling now none = false
is_cooling now (some b) = ltb now b.retry_after

abbrev pub reaches_cap : ℕ → Option ℕ → Bool
reaches_cap count none = false
reaches_cap count (some cap) = leb cap count

abbrev pub owner_count : Source → GateState → ℕ → ℕ
owner_count polling g owner = g.cycle_owner_counts owner
owner_count laserstream g owner = g.event_cycle_owner_counts owner

abbrev pub owner_cap : Source → Caps → Option ℕ
owner_cap polling caps = caps.per_cycle
owner_cap laserstream caps = caps.per_cycle_event

unfoldable pub count_owner : Source → ℕ → GateState → GateState
count_owner polling owner g = record g {
  cycle_owner_counts = update g.cycle_owner_counts owner (g.cycle_owner_counts owner + 1);
}
count_owner laserstream owner g = record g {
  event_cycle_owner_counts =
      update g.event_cycle_owner_counts owner (g.event_cycle_owner_counts owner + 1);
}

-- The guards, in their order.
unfoldable pub is_refused : Caps → ℕ → Source → ℕ → ℕ → GateState → Bool
is_refused caps now source position owner g =
    if g.in_flight_positions position
    then true
    else if is_cooling now (g.position_backoff position)
    then true
    else if g.cycle_seen_positions position
    then true
    else reaches_cap (owner_count source g owner) (owner_cap source caps)

-- Up to the call of `liquidate`; `none` is an early return.
unfoldable pub enter : Caps → ℕ → Source → ℕ → ℕ → GateState → Option GateState
unfolding is_refused count_owner
enter caps now source position owner g =
    if is_refused caps now source position owner g
    then none
    else some (record (count_owner source owner g) {
      cycle_seen_positions = update g.cycle_seen_positions position true;
      in_flight_positions = update g.in_flight_positions position true;
    })

unfoldable pub retry_delay : ℕ → ℕ
retry_delay failures =
    if leb failures 1
    then 0
    else min (position_backoff_base_ms * 2 ^ (failures - 2)) position_backoff_max_ms

abbrev pub failures_of : Option Cooldown → ℕ
failures_of none = 0
failures_of (some b) = b.failures

-- How `liquidate` has ended: with a signature, or without one while the budget is halted or not.
pub data Ending : Type 0 where
  signed : Ending
  unsigned : Bool → Ending

unfoldable pub note_ending : ℕ → ℕ → Ending → ℕ → GateState → GateState
unfolding retry_delay
note_ending now attempts_before signed position g = record g {
  position_backoff = update g.position_backoff position none;
}
note_ending now attempts_before (unsigned halted) position g =
    let failures = failures_of (g.position_backoff position) + 1 in
    if ltb attempts_before g.submit_attempts && not halted
    then record g {
      position_backoff =
          update g.position_backoff position
            (some (record { failures = failures; retry_after = now + retry_delay failures }));
    }
    else g

-- After the call of `liquidate`, the `finally` included.
unfoldable pub leave : ℕ → ℕ → Ending → ℕ → GateState → GateState
unfolding note_ending
leave now attempts_before ending position g =
    let noted = note_ending now attempts_before ending position g in
    record noted { in_flight_positions = update noted.in_flight_positions position false }

-- `recordAttempt`'s line in `liquidate`.
unfoldable pub count_attempt_made : GateState → GateState
count_attempt_made g = record g { submit_attempts = g.submit_attempts + 1 }

-- The LRU cache may drop an entry.
unfoldable pub evict : ℕ → GateState → GateState
evict position g = record g { position_backoff = update g.position_backoff position none }
