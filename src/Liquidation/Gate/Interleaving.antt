-- ===== src/Liquidation/Gate/Interleaving.antt =====
-- src/services/liquidation.ts: calls of gatedLiquidate that overlap, over one gate.
use percolator_keeper.Prelude.{
  ℕ, ◌+◌, ◌≤◌, ◌<◌, ◌≡◌, refl, sym, subst, Bool, true, false, Option, none, some, List, [], ◌∷◌,
  arith, ◌==◌, ==_iff, if◌then◌else◌, count_if,
}
use percolator_keeper.Liquidation.Gate.{
  Source, Caps, GateState, new_gate, begin_cycle_gate, is_refused, count_owner, enter, note_ending,
  leave, count_attempt_made, evict, Ending,
}

-- A call that awaits `liquidate`.
pub record ActiveCall : Type 0 where
  pub position : ℕ
  pub attempts_before : ℕ

pub record Running : Type 0 where
  pub gate : GateState
  pub calls : List ActiveCall

-- A cycle starts; a candidate is proposed; an active call counts its attempt, or ends; the cache drops
-- an entry.
pub data GateEvent : Type 0 where
  cycle_begins : GateEvent
  proposed : ℕ → Source → ℕ → ℕ → GateEvent
  attempts : GateEvent
  ends : ℕ → ℕ → Ending → GateEvent
  evicts : ℕ → GateEvent

unfoldable pub without_call : ℕ → List ActiveCall → List ActiveCall
without_call position [] = []
without_call position (c ∷ cs) =
    let rest = without_call position cs in if c.position == position then cs else c ∷ rest

unfoldable pub call_of : ℕ → List ActiveCall → Option ActiveCall
call_of position [] = none
call_of position (c ∷ cs) =
    let rest = call_of position cs in if c.position == position then some c else rest

unfoldable pub admit_call : ℕ → Option GateState → Running → Running
admit_call position none w = w
admit_call position (some g) w = record {
  gate = g;
  calls = record { position = position; attempts_before = w.gate.submit_attempts } ∷ w.calls;
}

unfoldable pub end_call : ℕ → ℕ → Ending → Option ActiveCall → Running → Running
unfolding leave without_call
end_call now position ending none w = w
end_call now position ending (some c) w = record {
  gate = leave now c.attempts_before ending position w.gate;
  calls = without_call position w.calls;
}

unfoldable pub gate_step : Caps → GateEvent → Running → Running
unfolding begin_cycle_gate enter count_attempt_made evict call_of admit_call end_call
gate_step caps cycle_begins w = record w { gate = begin_cycle_gate w.gate }
gate_step caps (proposed now source position owner) w =
    admit_call position (enter caps now source position owner w.gate) w
gate_step caps attempts w = record w { gate = count_attempt_made w.gate }
gate_step caps (ends now position ending) w =
    end_call now position ending (call_of position w.calls) w
gate_step caps (evicts position) w = record w { gate = evict position w.gate }

unfoldable pub gate_run : Caps → List GateEvent → Running → Running
unfolding gate_step
gate_run caps [] w = w
gate_run caps (e ∷ es) w = gate_run caps es (gate_step caps e w)

abbrev pub calls_for : ℕ → List ActiveCall → ℕ
calls_for position = count_if (λ c. c.position == position)

-- A position is marked in flight exactly while one call for it is active, and none else.
abbrev IsTracked : ℕ → Running → Type 0
IsTracked p w = calls_for p w.calls ≡ (if w.gate.in_flight_positions p then 1 else 0)

calls_for-without_call :
    (p position : ℕ) (cs : List ActiveCall) (c : ActiveCall)
    → call_of position cs ≡ some c
    → calls_for p (without_call position cs) + (if position == p then 1 else 0) ≡ calls_for p cs
unfolding without_call call_of
calls_for-without_call p position [] c h = ground (arith, h)
calls_for-without_call p position (d ∷ cs) c h =
    ground (arith, h, calls_for-without_call p position cs c)

enter-in_flight :
    (caps : Caps) (now : ℕ) (source : Source) (position owner : ℕ) (g g' : GateState) (p : ℕ)
    → enter caps now source position owner g ≡ some g'
    → (g.in_flight_positions position ≡ false)
      × (g'.in_flight_positions p ≡ (if p == position then true else g.in_flight_positions p))
unfolding enter is_refused count_owner
enter-in_flight caps now source position owner g g' p h = ground (arith, h)

free_at :
    (f : ℕ → Bool) (position p : ℕ) → f position ≡ false → (p == position) ≡ true → f p ≡ false
free_at f position p h e = subst (λ q. f q ≡ false) (sym ((==_iff p position).0 e)) h

leave-in_flight :
    (now before : ℕ) (ending : Ending) (position : ℕ) (g : GateState) (p : ℕ)
    → (leave now before ending position g).in_flight_positions p
      ≡ (if p == position then false else g.in_flight_positions p)
unfolding leave note_ending
leave-in_flight now before ending position g p = ground arith

call_of-marked :
    (position : ℕ) (cs : List ActiveCall) (c : ActiveCall)
    → call_of position cs ≡ some c
    → 0 < calls_for position cs
unfolding call_of
call_of-marked position [] c h = ground (arith, h)
call_of-marked position (d ∷ cs) c h = ground (arith, h, call_of-marked position cs c)

some_call :
    (position p : ℕ) (cs : List ActiveCall)
    → 0 < calls_for position cs
    → (p == position) ≡ true
    → 0 < calls_for p cs
some_call position p cs h e = subst (λ q. 0 < calls_for q cs) (sym ((==_iff p position).0 e)) h

admit_call-IsTracked :
    (caps : Caps) (now : ℕ) (source : Source) (position owner : ℕ) (w : Running) (p : ℕ)
    (o : Option GateState)
    → enter caps now source position owner w.gate ≡ o
    → IsTracked p w
    → IsTracked p (admit_call position o w)
unfolding admit_call
admit_call-IsTracked caps now source position owner w p none e h = h
admit_call-IsTracked caps now source position owner w p (some g) e h =
    let (free, marked) = enter-in_flight caps now source position owner w.gate g p e in
    ground (arith, free_at w.gate.in_flight_positions position p free, marked, h)

end_call-IsTracked :
    (now position : ℕ) (ending : Ending) (w : Running) (p : ℕ) (o : Option ActiveCall)
    → call_of position w.calls ≡ o
    → IsTracked p w
    → IsTracked p (end_call now position ending o w)
unfolding end_call
end_call-IsTracked now position ending w p none e h = h
end_call-IsTracked now position ending w p (some c) e h = ground (
  arith,
  leave-in_flight now c.attempts_before ending position w.gate p,
  calls_for-without_call p position w.calls c e,
  some_call position p w.calls (call_of-marked position w.calls c e),
  h,
)

step-IsTracked :
    (caps : Caps) (e : GateEvent) (w : Running) (p : ℕ)
    → IsTracked p w
    → IsTracked p (gate_step caps e w)
unfolding gate_step begin_cycle_gate count_attempt_made evict
step-IsTracked caps cycle_begins w p h = h
step-IsTracked caps (proposed now source position owner) w p h =
    admit_call-IsTracked caps now source position owner w p
      (enter caps now source position owner w.gate) refl h
step-IsTracked caps attempts w p h = h
step-IsTracked caps (ends now position ending) w p h =
    end_call-IsTracked now position ending w p (call_of position w.calls) refl h
step-IsTracked caps (evicts position) w p h = h

pub run-IsTracked :
    (caps : Caps) (es : List GateEvent) (w : Running) (p : ℕ)
    → IsTracked p w
    → IsTracked p (gate_run caps es w)
unfolding gate_run
run-IsTracked caps [] w p h = h
run-IsTracked caps (e ∷ es) w p h =
    run-IsTracked caps es (gate_step caps e w) p (step-IsTracked caps e w p h)

marked_refuses :
    (caps : Caps) (now : ℕ) (source : Source) (position owner : ℕ) (g : GateState)
    → g.in_flight_positions position ≡ true
    → enter caps now source position owner g ≡ none
unfolding enter is_refused
marked_refuses caps now source position owner g h = ground (arith, h)

-- However calls of both paths overlap, and wherever new cycles begin in between: at most one call for
-- a position is active, and while one is, each proposal of that position is refused.
pub one_call_per_position :
    (caps : Caps) (es : List GateEvent) (position : ℕ)
    → let w = gate_run caps es (record { gate = new_gate; calls = [] }) in
      (calls_for position w.calls ≤ 1)
      × (0 < calls_for position w.calls
          → (now owner : ℕ) (source : Source) → enter caps now source position owner w.gate ≡ none)
one_call_per_position caps es position =
    let w = gate_run caps es (record { gate = new_gate; calls = [] }) in
    let tracked = run-IsTracked caps es (record { gate = new_gate; calls = [] }) position refl in
    (
      ground (arith, tracked),
      λ active now owner source.
          marked_refuses caps now source position owner w.gate (ground (arith, tracked, active)),
    )
