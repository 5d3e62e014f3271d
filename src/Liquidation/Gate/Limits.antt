-- ===== src/Liquidation/Gate/Limits.antt =====
-- src/services/liquidation.ts: what gatedLiquidate admits within one cycle.
use percolator_keeper.Prelude.{
  ℕ, ◌+◌, ◌≤◌, ◌≡◌, refl, ap, ◌↔◌, ◌⊎◌, Bool, true, false, not, ◌&&◌, Option, none, some, List, [],
  ◌∷◌, ◌++◌, arith, ◌==◌, ==_iff, if◌then◌else◌, count_if, count_if-append,
}
use percolator_keeper.Liquidation.Gate.{
  Source, polling, laserstream, Caps, GateState, begin_cycle_gate, is_refused, count_owner, enter,
  note_ending, leave, count_attempt_made, evict, Ending, owner_count, owner_cap, is_cooling,
}
use percolator_keeper.Liquidation.Gate.Interleaving.{
  GateEvent, cycle_begins, proposed, attempts, ends, evicts, Running, ActiveCall, gate_step,
  admit_call, end_call, call_of,
}

pub record Admission : Type 0 where
  pub source : Source
  pub position : ℕ
  pub owner : ℕ

abbrev pub logged : Source → ℕ → ℕ → Option GateState → List Admission
logged source position owner none = []
logged source position owner (some g) =
    record { source = source; position = position; owner = owner } ∷ []

abbrev pub admitted_by : Caps → GateEvent → Running → List Admission
admitted_by caps (proposed now source position owner) w =
    logged source position owner (enter caps now source position owner w.gate)
admitted_by caps cycle_begins w = []
admitted_by caps attempts w = []
admitted_by caps (ends now position ending) w = []
admitted_by caps (evicts position) w = []

-- All that is admitted along the events.
abbrev pub admissions : Caps → List GateEvent → Running → List Admission
admissions caps [] w = []
admissions caps (e ∷ es) w = admitted_by caps e w ++ admissions caps es (gate_step caps e w)

abbrev pub begins_cycle : GateEvent → Bool
begins_cycle cycle_begins = true
begins_cycle (proposed now source position owner) = false
begins_cycle attempts = false
begins_cycle (ends now position ending) = false
begins_cycle (evicts position) = false

-- No new cycle begins.
abbrev pub stays_in_cycle : List GateEvent → Bool
stays_in_cycle [] = true
stays_in_cycle (e ∷ es) = not (begins_cycle e) && stays_in_cycle es

abbrev pub is_source : Source → Source → Bool
is_source polling polling = true
is_source laserstream laserstream = true
is_source _ _ = false

abbrev pub of_owner : Source → ℕ → Admission → Bool
of_owner source owner a = is_source a.source source && a.owner == owner

abbrev pub of_position : ℕ → Admission → Bool
of_position position a = a.position == position

same_at : {A : Type 0} (f : ℕ → A) (a b : ℕ) → (a == b) ≡ true → f a ≡ f b
same_at f a b e = ap f ((==_iff a b).0 e)

-- A candidate is refused exactly if its position is in flight, cooling down or targeted before in this
-- cycle, or its owner has reached the cap of the source.
pub enter-refuses_iff :
    (caps : Caps) (now : ℕ) (source : Source) (position owner : ℕ) (g : GateState) (limit : ℕ)
    → owner_cap source caps ≡ some limit
    → (enter caps now source position owner g ≡ none) ↔ (
        (g.in_flight_positions position ≡ true)
        ⊎ (is_cooling now (g.position_backoff position) ≡ true)
        ⊎ (g.cycle_seen_positions position ≡ true)
        ⊎ (limit ≤ owner_count source g owner))
unfolding enter is_refused
enter-refuses_iff caps now source position owner g limit e = ground (arith, e)

enter-counts :
    (caps : Caps) (now : ℕ) (source : Source) (position owner : ℕ) (g g' : GateState) (s : Source)
    (o limit : ℕ)
    → enter caps now source position owner g ≡ some g'
    → owner_cap s caps ≡ some limit
    → owner_count s g o ≤ limit
    → (owner_count s g' o ≡ (if is_source source s && owner == o then 1 else 0) + owner_count s g o)
      × (owner_count s g' o ≤ limit)
unfolding enter is_refused count_owner
enter-counts caps now polling position owner g g' polling o limit h c b =
    ground (arith, h, c, same_at g.cycle_owner_counts o owner)
enter-counts caps now polling position owner g g' laserstream o limit h c b = ground (arith, h, c)
enter-counts caps now laserstream position owner g g' polling o limit h c b = ground (arith, h, c)
enter-counts caps now laserstream position owner g g' laserstream o limit h c b =
    ground (arith, h, c, same_at g.event_cycle_owner_counts o owner)

enter-seen :
    (caps : Caps) (now : ℕ) (source : Source) (position owner : ℕ) (g g' : GateState) (p : ℕ)
    → enter caps now source position owner g ≡ some g'
    → (if g'.cycle_seen_positions p then 1 else 0)
      ≡ (if position == p then 1 else 0) + (if g.cycle_seen_positions p then 1 else 0)
unfolding enter is_refused count_owner
enter-seen caps now source position owner g g' p h =
    ground (arith, h, same_at g.cycle_seen_positions p position)

logged-counts :
    (caps : Caps) (now : ℕ) (source : Source) (position owner : ℕ) (w : Running) (s : Source)
    (o limit : ℕ) (r : Option GateState)
    → enter caps now source position owner w.gate ≡ r
    → owner_cap s caps ≡ some limit
    → owner_count s w.gate o ≤ limit
    → (count_if (of_owner s o) (logged source position owner r) + owner_count s w.gate o
        ≡ owner_count s (admit_call position r w).gate o)
      × (owner_count s (admit_call position r w).gate o ≤ limit)
unfolding admit_call
logged-counts caps now source position owner w s o limit none e c b = (omega arith, b)
logged-counts caps now source position owner w s o limit (some g) e c b =
    let (grown, within) = enter-counts caps now source position owner w.gate g s o limit e c b in
    (ground (arith, grown), within)

leave-counts :
    (now before : ℕ) (ending : Ending) (position : ℕ) (g : GateState) (s : Source) (o : ℕ)
    → owner_count s (leave now before ending position g) o ≡ owner_count s g o
unfolding leave note_ending
leave-counts now before ending position g s o = ground arith

end_call-counts :
    (now position : ℕ) (ending : Ending) (c : Option ActiveCall) (w : Running) (s : Source) (o : ℕ)
    → owner_count s (end_call now position ending c w).gate o ≡ owner_count s w.gate o
unfolding end_call
end_call-counts now position ending none w s o = refl
end_call-counts now position ending (some c) w s o =
    leave-counts now c.attempts_before ending position w.gate s o

abbrev seen_once : Running → ℕ → ℕ
seen_once w p = if w.gate.cycle_seen_positions p then 1 else 0

logged-seen :
    (caps : Caps) (now : ℕ) (source : Source) (position owner : ℕ) (w : Running) (p : ℕ)
    (r : Option GateState)
    → enter caps now source position owner w.gate ≡ r
    → count_if (of_position p) (logged source position owner r) + seen_once w p
      ≡ seen_once (admit_call position r w) p
unfolding admit_call
logged-seen caps now source position owner w p none e = omega arith
logged-seen caps now source position owner w p (some g) e =
    omega (arith, enter-seen caps now source position owner w.gate g p e)

-- An attempt, an eviction and the end of a call leave the counts and the positions of the cycle.
attempt-counts :
    (g : GateState) (s : Source) (o : ℕ)
    → 0 + owner_count s g o ≡ owner_count s (count_attempt_made g) o
unfolding count_attempt_made
attempt-counts g s o = ground arith

attempt-bound :
    (g : GateState) (s : Source) (o limit : ℕ)
    → owner_count s g o ≤ limit
    → owner_count s (count_attempt_made g) o ≤ limit
attempt-bound g s o limit b = omega (arith, attempt-counts g s o)

attempt-seen :
    (w : Running) (p : ℕ)
    → 0 + seen_once w p ≡ seen_once (record w { gate = count_attempt_made w.gate }) p
unfolding count_attempt_made
attempt-seen w p = omega arith

evict-counts :
    (position : ℕ) (g : GateState) (s : Source) (o : ℕ)
    → 0 + owner_count s g o ≡ owner_count s (evict position g) o
unfolding evict
evict-counts position g s o = ground arith

evict-bound :
    (position : ℕ) (g : GateState) (s : Source) (o limit : ℕ)
    → owner_count s g o ≤ limit
    → owner_count s (evict position g) o ≤ limit
evict-bound position g s o limit b = omega (arith, evict-counts position g s o)

evict-seen :
    (position : ℕ) (w : Running) (p : ℕ)
    → 0 + seen_once w p ≡ seen_once (record w { gate = evict position w.gate }) p
unfolding evict
evict-seen position w p = omega arith

end_call-seen :
    (now position : ℕ) (ending : Ending) (c : Option ActiveCall) (w : Running) (p : ℕ)
    → 0 + seen_once w p ≡ seen_once (end_call now position ending c w) p
unfolding end_call leave note_ending
end_call-seen now position ending none w p = omega arith
end_call-seen now position ending (some c) w p = ground arith

begun-bound :
    (w : Running) (caps : Caps) (s : Source) (o limit : ℕ)
    → owner_count s (gate_step caps cycle_begins w).gate o ≤ limit
unfolding gate_step begin_cycle_gate
begun-bound w caps s o limit = ground arith

step-counts :
    (caps : Caps) (e : GateEvent) (w : Running) (s : Source) (o limit : ℕ)
    → begins_cycle e ≡ false
    → owner_cap s caps ≡ some limit
    → owner_count s w.gate o ≤ limit
    → (count_if (of_owner s o) (admitted_by caps e w) + owner_count s w.gate o
        ≡ owner_count s (gate_step caps e w).gate o)
      × (owner_count s (gate_step caps e w).gate o ≤ limit)
unfolding gate_step
step-counts caps cycle_begins w s o limit n c b = absurd (ground (arith, n))
step-counts caps (proposed now source position owner) w s o limit n c b =
    logged-counts caps now source position owner w s o limit
      (enter caps now source position owner w.gate) refl c b
step-counts caps attempts w s o limit n c b =
    (attempt-counts w.gate s o, attempt-bound w.gate s o limit b)
step-counts caps (ends now position ending) w s o limit n c b =
    let e = end_call-counts now position ending (call_of position w.calls) w s o in
    (omega (arith, e), omega (arith, e))
step-counts caps (evicts position) w s o limit n c b =
    (evict-counts position w.gate s o, evict-bound position w.gate s o limit b)

run-counts :
    (caps : Caps) (es : List GateEvent) (w : Running) (s : Source) (o limit : ℕ)
    → stays_in_cycle es ≡ true
    → owner_cap s caps ≡ some limit
    → owner_count s w.gate o ≤ limit
    → count_if (of_owner s o) (admissions caps es w) + owner_count s w.gate o ≤ limit
run-counts caps [] w s o limit k c b = omega arith
run-counts caps (e ∷ es) w s o limit k c b =
    let (kept, within) = step-counts caps e w s o limit (ground (arith, k)) c b in
    omega (
      arith,
      kept,
      count_if-append (of_owner s o) (admitted_by caps e w)
          (admissions caps es (gate_step caps e w)),
      run-counts caps es (gate_step caps e w) s o limit (ground (arith, k)) c within,
    )

step-seen :
    (caps : Caps) (e : GateEvent) (w : Running) (p : ℕ)
    → begins_cycle e ≡ false
    → count_if (of_position p) (admitted_by caps e w) + seen_once w p
      ≡ seen_once (gate_step caps e w) p
unfolding gate_step
step-seen caps cycle_begins w p n = absurd (ground (arith, n))
step-seen caps (proposed now source position owner) w p n =
    logged-seen caps now source position owner w p (enter caps now source position owner w.gate)
      refl
step-seen caps attempts w p n = attempt-seen w p
step-seen caps (ends now position ending) w p n =
    end_call-seen now position ending (call_of position w.calls) w p
step-seen caps (evicts position) w p n = evict-seen position w p

run-seen :
    (caps : Caps) (es : List GateEvent) (w : Running) (p : ℕ)
    → stays_in_cycle es ≡ true
    → count_if (of_position p) (admissions caps es w) + seen_once w p ≤ 1
run-seen caps [] w p k = ground arith
run-seen caps (e ∷ es) w p k = omega (
  arith,
  step-seen caps e w p (ground (arith, k)),
  count_if-append (of_position p) (admitted_by caps e w) (admissions caps es (gate_step caps e w)),
  run-seen caps es (gate_step caps e w) p (ground (arith, k)),
)

-- Within one cycle, whatever calls of both paths overlap: a position is admitted at most once, and an
-- owner at most as often per source as the cap of that source says.
pub cycle_limits :
    (caps : Caps) (es : List GateEvent) (w : Running) (source : Source) (position owner limit : ℕ)
    → stays_in_cycle es ≡ true
    → owner_cap source caps ≡ some limit
    → let log = admissions caps es (gate_step caps cycle_begins w) in
      (count_if (of_position position) log ≤ 1) × (count_if (of_owner source owner) log ≤ limit)
cycle_limits caps es w source position owner limit k c =
    let w' = gate_step caps cycle_begins w in
    (
      omega (arith, run-seen caps es w' position k),
      omega (
        arith,
        run-counts caps es w' source owner limit k c (begun-bound w caps source owner limit),
      ),
    )
