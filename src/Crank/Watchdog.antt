-- ===== src/Crank/Watchdog.antt =====
-- src/services/crank.ts: the interval of `start` with its watchdog. A cycle begins and ends at other
-- times than the ticks; its discovery is a phase of it.
use percolator_keeper.Prelude.{
  ℕ, ◌+◌, ◌*◌, ◌<◌, ◌≡◌, refl, ap, ◌∙◌, max, Bool, true, false, List, [], ◌∷◌, ltb, leb, ◌==◌,
  if◌then◌else◌, arith,
}

pub record Cycling : Type 0 where
  pub cycling : Bool
  pub cycle_started_at : ℕ
  pub watchdog_armed_at : ℕ
  pub discovering : Bool

pub record WatchdogConfig : Type 0 where
  pub interval_ms : ℕ
  pub discovery_interval_ms : ℕ
  pub program_count : ℕ

abbrev pub watchdog_grace_ms : ℕ
watchdog_grace_ms = 30_000

abbrev pub per_program_discovery_budget_ms : ℕ
per_program_discovery_budget_ms = 240_000

abbrev pub max_cycle_ms : WatchdogConfig → ℕ
max_cycle_ms c = max (c.interval_ms * 10) (4 * 60_000)

abbrev pub budget_ms : WatchdogConfig → Bool → ℕ
budget_ms c discovering =
    if discovering
    then max (max_cycle_ms c) (max 1 c.program_count * per_program_discovery_budget_ms)
    else max_cycle_ms c

unfoldable pub begin_cycling : WatchdogConfig → ℕ → ℕ → Cycling
begin_cycling c now last_discovery_time = record {
  cycling = true;
  cycle_started_at = now;
  watchdog_armed_at = 0;
  discovering = leb (last_discovery_time + c.discovery_interval_ms) now;
}

-- The state and whether the process exits.
unfoldable pub watch : WatchdogConfig → ℕ → Cycling → Cycling × Bool
watch c now s =
    if ltb (s.cycle_started_at + budget_ms c s.discovering) now
    then if s.watchdog_armed_at == 0
      then (record s { watchdog_armed_at = now }, false)
      else (s, ltb (s.watchdog_armed_at + watchdog_grace_ms) now)
    else (s, false)

unfoldable pub crank_tick : WatchdogConfig → ℕ → ℕ → Cycling → Cycling × Bool
unfolding begin_cycling watch
crank_tick c now last_discovery_time s =
    if s.cycling then watch c now s else (begin_cycling c now last_discovery_time, false)

unfoldable pub discovery_ended : ℕ → Cycling → Cycling
discovery_ended now s = record s {
  discovering = false;
  cycle_started_at = now;
  watchdog_armed_at = 0;
}

unfoldable pub cycle_ended : Cycling → Cycling
cycle_ended s = record s { cycling = false; watchdog_armed_at = 0 }

pub data CycleEvent : Type 0 where
  ticked : ℕ → ℕ → CycleEvent
  discovery_done : ℕ → CycleEvent
  cycle_done : CycleEvent

unfoldable pub cycle_step : WatchdogConfig → CycleEvent → Cycling → Cycling × Bool
unfolding crank_tick discovery_ended cycle_ended
cycle_step c (ticked now last) s = crank_tick c now last s
cycle_step c (discovery_done now) s = (discovery_ended now s, false)
cycle_step c cycle_done s = (cycle_ended s, false)

abbrev pub cycle_run : WatchdogConfig → List CycleEvent → Cycling → Cycling
cycle_run c [] s = s
cycle_run c (e ∷ es) s = cycle_run c es (cycle_step c e s).0

abbrev pub idle : Cycling
idle = record { cycling = false; cycle_started_at = 0; watchdog_armed_at = 0; discovering = false }

-- An armed watchdog was armed after the budget of the phase had passed.
abbrev pub IsLate : WatchdogConfig → Cycling → Type 0
IsLate c s =
    0 < s.watchdog_armed_at → s.cycle_started_at + budget_ms c s.discovering < s.watchdog_armed_at

step-IsLate :
    (c : WatchdogConfig) (e : CycleEvent) (s : Cycling) → IsLate c s → IsLate c (cycle_step c e s).0
unfolding cycle_step crank_tick begin_cycling watch discovery_ended cycle_ended
step-IsLate c (ticked now last) s h armed = ground (arith, h, armed)
step-IsLate c (discovery_done now) s h armed = absurd (ground (arith, armed))
step-IsLate c cycle_done s h armed = absurd (ground (arith, armed))

run-IsLate :
    (c : WatchdogConfig) (es : List CycleEvent) (s : Cycling)
    → IsLate c s
    → IsLate c (cycle_run c es s)
run-IsLate c [] s h = h
run-IsLate c (e ∷ es) s h = run-IsLate c es (cycle_step c e s).0 (step-IsLate c e s h)

-- The process exits only while a cycle runs whose phase, since its start or since the end of its
-- discovery, is over its budget by more than the grace period.
pub exit_needs_hang :
    (c : WatchdogConfig) (es : List CycleEvent) (now last : ℕ)
    → let s = cycle_run c es idle in
      (crank_tick c now last s).1 ≡ true
      → (s.cycling ≡ true)
        × (s.cycle_started_at + budget_ms c s.discovering + watchdog_grace_ms < now)
unfolding crank_tick watch
exit_needs_hang c es now last x =
    ground (arith, x, run-IsLate c es idle (λ armed. absurd (ground (arith, armed))))

abbrev pub ticks_at : WatchdogConfig → ℕ → List ℕ → Cycling → Cycling
ticks_at c last [] s = s
ticks_at c last (t ∷ ts) s = ticks_at c last ts (crank_tick c t last s).0

-- Ticks leave a cycle and an armed watchdog as they are.
armed_tick :
    (c : WatchdogConfig) (now last : ℕ) (s : Cycling)
    → s.cycling ≡ true
    → 0 < s.watchdog_armed_at
    → (crank_tick c now last s).0 ≡ s
unfolding crank_tick watch
armed_tick c now last s r a = ground (arith, r, a)

ticks-keep :
    (c : WatchdogConfig) (last : ℕ) (ts : List ℕ) (s : Cycling)
    → s.cycling ≡ true
    → 0 < s.watchdog_armed_at
    → ticks_at c last ts s ≡ s
ticks-keep c last [] s r a = refl
ticks-keep c last (t ∷ ts) s r a =
    ap (ticks_at c last ts) (armed_tick c t last s r a) ∙ ticks-keep c last ts s r a

hang_is_noted :
    (c : WatchdogConfig) (now last : ℕ) (s : Cycling)
    → s.cycling ≡ true
    → s.watchdog_armed_at ≡ 0
    → s.cycle_started_at + budget_ms c s.discovering < now
    → let u = (crank_tick c now last s).0 in
      (u.cycling ≡ true)
      × (u.watchdog_armed_at ≡ now)
      × (u.cycle_started_at + budget_ms c u.discovering < now)
unfolding crank_tick watch
hang_is_noted c now last s r d over =
    (ground (arith, r, d, over), ground (arith, r, d, over), ground (arith, r, d, over))

armed_exits :
    (c : WatchdogConfig) (first now last : ℕ) (s : Cycling)
    → s.cycling ≡ true
    → s.watchdog_armed_at ≡ first
    → s.cycle_started_at + budget_ms c s.discovering < first
    → first + watchdog_grace_ms < now
    → (crank_tick c now last s).1 ≡ true
unfolding crank_tick watch
armed_exits c first now last s r a over late = ground (arith, r, a, over, late)

-- A cycle that hangs ends the process: once it is over its budget at a tick, every tick that comes more
-- than the grace period later exits, whatever ticks lie between.
pub hung_cycle_exits :
    (c : WatchdogConfig) (first now last last' : ℕ) (between : List ℕ) (s : Cycling)
    → s.cycling ≡ true
    → s.watchdog_armed_at ≡ 0
    → s.cycle_started_at + budget_ms c s.discovering < first
    → first + watchdog_grace_ms < now
    → (crank_tick c now last (ticks_at c last' between (crank_tick c first last s).0)).1 ≡ true
hung_cycle_exits c first now last last' between s r d over late =
    let noted = (crank_tick c first last s).0 in
    let (on, armed, same) = hang_is_noted c first last s r d over in
    let kept = ticks-keep c last' between noted on (ground (arith, armed, over)) in
    ap (λ u. (crank_tick c now last u).1) kept
    ∙ armed_exits c first now last noted on armed same late
