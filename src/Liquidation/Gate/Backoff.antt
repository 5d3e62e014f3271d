-- ===== src/Liquidation/Gate/Backoff.antt =====
-- src/services/liquidation.ts: the cooldown of a position whose liquidation was sent and failed.
use native.Mathlib.Nat.{two-pow-succ}
use percolator_keeper.Prelude.{
  ℕ, zero, suc, ◌+◌, ◌-◌, ◌*◌, ◌^◌, ◌≤◌, ◌≡◌, refl, sym, ap, subst, min, all, Bool, true, false,
  Option, none, some, List, [], ◌∷◌, arith, leb,
}
use percolator_keeper.Liquidation.Gate.{
  Source, Caps, Cooldown, GateState, new_gate, begin_cycle_gate, count_owner, enter, retry_delay,
  note_ending, leave, count_attempt_made, evict, Ending, signed, unsigned, is_cooling, failures_of,
}
use percolator_keeper.Liquidation.Gate.Interleaving.{
  GateEvent, cycle_begins, proposed, attempts, ends, evicts, Running, ActiveCall, gate_step,
  gate_run, admit_call, end_call, call_of,
}

delay_after : (n : ℕ) → retry_delay (suc (suc n)) ≡ min (5_000 * 2 ^ n) 60_000
unfolding retry_delay
delay_after n =
    let e : suc (suc n) - 2 ≡ n = omega arith in ground (arith, ap (λ k. 5_000 * 2 ^ k) e)

delay_doubles : (n : ℕ) → min (5_000 * 2 ^ n) 60_000 ≤ min (5_000 * 2 ^ suc n) 60_000
delay_doubles n = omega (arith, two-pow-succ n)

first_delays : (retry_delay 1 ≡ 0) × (retry_delay 0 ≤ retry_delay 1) × (retry_delay 0 ≤ 60_000)
unfolding retry_delay
first_delays = omega arith

second_delays : (retry_delay 1 ≡ 0) × (retry_delay 1 ≤ retry_delay 2) × (retry_delay 1 ≤ 60_000)
unfolding retry_delay
second_delays = omega arith

-- The first failure is retried at once, the delays never shrink from one failure to the next, and none
-- is above a minute.
pub retry_delay_grows :
    (n : ℕ) → (retry_delay 1 ≡ 0) × (retry_delay n ≤ retry_delay (suc n)) × (retry_delay n ≤ 60_000)
retry_delay_grows zero = first_delays
retry_delay_grows (suc zero) = second_delays
retry_delay_grows (suc (suc n)) = (
  first_delays.0,
  rw (delay_after n, delay_after (suc n)) (delay_doubles n),
  rw (delay_after n) (omega arith),
)

-- No cooldown lasts beyond `limit`.
abbrev AllExpire : ℕ → GateState → Type 0
AllExpire limit g = (p : ℕ) (b : Cooldown) → g.position_backoff p ≡ some b → b.retry_after ≤ limit

-- The times of the events are up to `now`.
abbrev pub ends_by : ℕ → GateEvent → Bool
ends_by now (ends time position ending) = leb time now
ends_by now (proposed time source position owner) = true
ends_by now cycle_begins = true
ends_by now attempts = true
ends_by now (evicts position) = true

none-ne-some : (b : Cooldown) → ¬ (none ≡ some b)
none-ne-some b h = cc

leave-AllExpire :
    (limit now before : ℕ) (ending : Ending) (position : ℕ) (g : GateState)
    → now + 60_000 ≤ limit
    → AllExpire limit g
    → AllExpire limit (leave now before ending position g)
unfolding leave note_ending
leave-AllExpire limit now before signed position g h a p b e =
    ground (arith, e, a p b, none-ne-some b)
leave-AllExpire limit now before (unsigned halted) position g h a p b e =
    ground (arith, e, a p b, retry_delay_grows (failures_of (g.position_backoff position) + 1))

enter-backoff :
    (caps : Caps) (now : ℕ) (source : Source) (position owner : ℕ) (w : Running)
    (o : Option GateState)
    → enter caps now source position owner w.gate ≡ o
    → (admit_call position o w).gate.position_backoff ≡ w.gate.position_backoff
unfolding enter count_owner admit_call
enter-backoff caps now source position owner w none e = refl
enter-backoff caps now source position owner w (some g) e = ground (arith, e)

end_call-AllExpire :
    (limit now position : ℕ) (ending : Ending) (c : Option ActiveCall) (w : Running)
    → now + 60_000 ≤ limit
    → AllExpire limit w.gate
    → AllExpire limit (end_call now position ending c w).gate
unfolding end_call
end_call-AllExpire limit now position ending none w h a = a
end_call-AllExpire limit now position ending (some c) w h a =
    leave-AllExpire limit now c.attempts_before ending position w.gate h a

step-AllExpire :
    (caps : Caps) (now : ℕ) (e : GateEvent) (w : Running)
    → ends_by now e ≡ true
    → AllExpire (now + 60_000) w.gate
    → AllExpire (now + 60_000) (gate_step caps e w).gate
unfolding gate_step begin_cycle_gate count_attempt_made evict
step-AllExpire caps now cycle_begins w h a = a
step-AllExpire caps now (proposed time source position owner) w h a =
    subst (λ f. (p : ℕ) (b : Cooldown) → f p ≡ some b → b.retry_after ≤ now + 60_000)
      (sym (enter-backoff caps time source position owner w _ refl)) a
step-AllExpire caps now attempts w h a = a
step-AllExpire caps now (ends time position ending) w h a =
    end_call-AllExpire (now + 60_000) time position ending (call_of position w.calls) w
      (ground (arith, h)) a
step-AllExpire caps now (evicts position) w h a = λ p b e. ground (arith, e, a p b, none-ne-some b)

run-AllExpire :
    (caps : Caps) (now : ℕ) (es : List GateEvent) (w : Running)
    → all (ends_by now) es ≡ true
    → AllExpire (now + 60_000) w.gate
    → AllExpire (now + 60_000) (gate_run caps es w).gate
unfolding gate_run
run-AllExpire caps now [] w h a = a
run-AllExpire caps now (e ∷ es) w h a =
    run-AllExpire caps now es (gate_step caps e w) (ground (arith, h))
      (step-AllExpire caps now e w (ground (arith, h)) a)

not_cooling :
    (limit later : ℕ) (o : Option Cooldown)
    → ((b : Cooldown) → o ≡ some b → b.retry_after ≤ limit)
    → limit ≤ later
    → is_cooling later o ≡ false
not_cooling limit later none a h = refl
not_cooling limit later (some b) a h = ground (arith, a b refl)

-- Whatever calls have ended by a time, and however often they failed: a minute later no position is
-- cooling down, so none is left out of the scans for longer.
pub cooldowns_expire :
    (caps : Caps) (es : List GateEvent) (now later position : ℕ)
    → all (ends_by now) es ≡ true
    → now + 60_000 ≤ later
    → let w = gate_run caps es (record { gate = new_gate; calls = [] }) in
      is_cooling later (w.gate.position_backoff position) ≡ false
cooldowns_expire caps es now later position h le =
    let w = gate_run caps es (record { gate = new_gate; calls = [] }) in
    not_cooling (now + 60_000) later (w.gate.position_backoff position)
      (run-AllExpire caps now es (record { gate = new_gate; calls = [] }) h
        (λ p b e. absurd (none-ne-some b e)) position)
      le
