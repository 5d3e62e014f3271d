-- ===== src/Tests/LiquidatingTests.antt =====
-- The scan, the gate, the checks before sending and the cycle of the liquidation service at concrete
-- inputs.
use percolator_keeper.Prelude.{
  ℕ, ◌+◌, ◌/◌, ◌≤◌, ◌<◌, ◌≡◌, refl, pos, true, false, none, some, List, [], ◌∷◌, arith, leb, ◌==◌,
  length, count_if, all,
}
use percolator_keeper.Liquidation.Gate.{
  Source, Caps, polling, laserstream, new_gate, enter, unsigned,
}
use percolator_keeper.Liquidation.Gate.Interleaving.{
  GateEvent, cycle_begins, proposed, attempts, ends, Running, gate_step, gate_run, calls_for,
  one_call_per_position,
}
use percolator_keeper.Liquidation.Gate.Limits.{
  stays_in_cycle, admissions, of_position, of_owner, cycle_limits,
}
use percolator_keeper.Liquidation.Gate.Backoff.{ends_by}
use percolator_keeper.Liquidation.Portfolios.{Candidate, rank_candidates, rotating_window}
use percolator_keeper.Liquidation.Portfolios.Rotation.{times, cursor_after, rotation_reaches_all}
use percolator_keeper.Liquidation.Portfolios.Ranking.{left_out, rank_keeps_largest}

abbrev caps : Caps
caps = record { per_cycle = some 3; per_cycle_event = some 2 }

-- Two calls for position 7 overlap; the first one fails after an attempt.
abbrev events : List GateEvent
events =
    proposed 100 polling 7 1
    ∷ proposed 101 laserstream 7 1
    ∷ attempts
    ∷ ends 102 7 (unsigned false)
    ∷ proposed 103 laserstream 8 1
    ∷ []

abbrev idle_service : Running
idle_service = record { gate = new_gate; calls = [] }

one_call_per_position_example :
    (calls_for 8 (gate_run caps events idle_service).calls ≤ 1)
    × (0 < calls_for 8 (gate_run caps events idle_service).calls
        → (now owner : ℕ) (source : Source)
        → enter caps now source 8 owner (gate_run caps events idle_service).gate ≡ none)
one_call_per_position_example = one_call_per_position caps events 8

events_in_cycle : stays_in_cycle events ≡ true
events_in_cycle = refl

cycle_limits_example :
    (count_if (of_position 7) (admissions caps events (gate_step caps cycle_begins idle_service))
      ≤ 1)
    × (count_if
          (of_owner laserstream 1)
          (admissions caps events (gate_step caps cycle_begins idle_service))
        ≤ 2)
cycle_limits_example = cycle_limits caps events idle_service laserstream 7 1 2 events_in_cycle refl

events_over : all (ends_by 102) events ≡ true
events_over = refl

abbrev three_keys : List ℕ
three_keys = 5 ∷ 9 ∷ 4 ∷ []

key_there : 0 < times 9 three_keys
key_there = omega arith

rotation_reaches_all_example :
    (m : ℕ) × (m ≤ length three_keys / 512)
    × (0 < times 9 (rotating_window three_keys (cursor_after three_keys m (some 2))))
rotation_reaches_all_example = rotation_reaches_all three_keys (some 2) 9 key_there

abbrev candidate : ℕ → ℕ → Candidate
candidate key deficit = record {
  portfolio_pubkey = key;
  owner = 1;
  asset_index = pos 0;
  close_q = 1;
  deficit = deficit;
}

abbrev scored : List Candidate
scored = candidate 1 10 ∷ candidate 2 30 ∷ candidate 3 20 ∷ []

rank_keeps_largest_example :
    (length (rank_candidates scored) ≤ 64)
    × (count_if (λ c. c.owner == 1) (rank_candidates scored)
          + count_if (λ c. c.owner == 1) (left_out scored)
        ≡ count_if (λ c. c.owner == 1) scored)
    × (all (λ c. all (λ d. leb d.deficit c.deficit) (left_out scored)) (rank_candidates scored)
        ≡ true)
rank_keeps_largest_example = rank_keeps_largest scored (λ c. c.owner == 1)
