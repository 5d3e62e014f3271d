-- ===== src/Liquidation/Cycle.antt =====
-- src/services/liquidation.ts: scanAndLiquidateAll, the timer around it and the scans that an account
-- update triggers. A market is the number of its slab address. scanMarket and gatedLiquidate are
-- arguments here; `none` is a scan that is rejected.
pub mod Log
pub mod Dealing
pub mod Accounting
pub mod Coverage
pub mod SingleFlight
pub mod EventScans
use percolator_keeper.Prelude.{
  ℕ, zero, suc, ◌+◌, ◌-◌, ◌*◌, ◌/◌, ◌%◌, ◌^◌, min, Bool, true, false, not, ◌&&◌, ◌||◌, Option, none,
  some, List, [], ◌∷◌, ltb, leb, ◌==◌, if◌then◌else◌, length, take, drop, NumberSet, empty_set,
}
use percolator_keeper.Risk.{or_zero}
use percolator_keeper.Liquidation.Gate.{GateState, begin_cycle_gate}

abbrev pub max_candidates_per_global_cycle : ℕ
max_candidates_per_global_cycle = 256

abbrev pub batch_size : ℕ
batch_size = 10

pub record Keeper : Type 0 where
  pub gate : GateState
  pub permanently_skipped : NumberSet
  pub scan_count : ℕ

-- What one call of scanAndLiquidateAll counts.
pub record Cycle : Type 0 where
  pub keeper : Keeper
  pub scanned : ℕ
  pub candidate_count : ℕ
  pub liquidated : ℕ
  pub processed : ℕ

-- The test that the set is not empty is left out: clearing an empty set changes nothing.
unfoldable pub begin_scan_cycle : Keeper → Keeper
begin_scan_cycle k = record k {
  gate = begin_cycle_gate k.gate;
  permanently_skipped =
      if ltb 0 k.scan_count && k.scan_count % 10 == 0 then empty_set else k.permanently_skipped;
}

abbrev pub new_cycle : Keeper → Cycle
new_cycle k = record { keeper = k; scanned = 0; candidate_count = 0; liquidated = 0; processed = 0 }

unfoldable pub without_skipped : NumberSet → List ℕ → List ℕ
without_skipped skipped [] = []
without_skipped skipped (m ∷ ms) =
    let rest = without_skipped skipped ms in if skipped m then rest else m ∷ rest

module _ {C : Type 0} (scan : ℕ → Keeper → Keeper × Option (List C)) where
  unfoldable pub scan_batch : List ℕ → Keeper → Keeper × List (ℕ × Option (List C))
  scan_batch [] k = (k, [])
  scan_batch (m ∷ ms) k =
      let (k1, result) = scan m k in let (k2, rest) = scan_batch ms k1 in (k2, (m, result) ∷ rest)

module _ {C : Type 0} (gated : ℕ → C → Keeper → Keeper × Bool) where
  unfoldable pub process_one : ℕ → C → Cycle → Cycle
  process_one m x c =
      let (k, has_sig) = gated m x c.keeper in
      record c {
        keeper = k;
        processed = c.processed + 1;
        liquidated = c.liquidated + (if has_sig then 1 else 0);
      }

  -- The loop over the candidates of a market, which the cap ends.
  unfoldable pub process_candidates : ℕ → List C → Cycle → Cycle
  unfolding process_one
  process_candidates m [] c = c
  process_candidates m (x ∷ xs) c =
      if leb max_candidates_per_global_cycle c.processed
      then c
      else process_candidates m xs (process_one m x c)

  unfoldable pub count_scan : List C → Cycle → Cycle
  count_scan xs c = record c {
    scanned = c.scanned + 1;
    candidate_count = c.candidate_count + length xs;
  }

  unfoldable pub process_results : List (ℕ × Option (List C)) → Cycle → Cycle
  unfolding process_candidates count_scan
  process_results [] c = c
  process_results ((m, none) ∷ rest) c = process_results rest c
  process_results ((m, some xs) ∷ rest) c =
      process_results rest (process_candidates m xs (count_scan xs c))

module _ {C : Type 0} (scan : ℕ → Keeper → Keeper × Option (List C))
    (gated : ℕ → C → Keeper → Keeper × Bool) where
  unfoldable pub run_batch : List ℕ → Cycle → Cycle
  unfolding scan_batch process_results without_skipped
  run_batch batch c =
      let (k, results) =
        scan_batch scan (without_skipped c.keeper.permanently_skipped batch) c.keeper in
      process_results gated results (record c { keeper = k })

  -- The loop over the batches, with `n` rounds left.
  unfoldable pub run_batches : ℕ → List ℕ → Cycle → Cycle
  unfolding run_batch
  run_batches zero entries c = c
  run_batches (suc n) entries c =
      run_batches n (drop batch_size entries) (run_batch (take batch_size entries) c)

  unfoldable pub scan_and_liquidate_all : List ℕ → Keeper → Cycle
  unfolding run_batches begin_scan_cycle
  scan_and_liquidate_all entries k =
      let c =
        run_batches ((length entries + 9) / batch_size) entries (new_cycle (begin_scan_cycle k)) in
      record c { keeper = record c.keeper { scan_count = c.keeper.scan_count + 1 } }

abbrev pub max_backoff_ms : ℕ
max_backoff_ms = 300_000

-- The timer of `start`, the scan in flight with the time of its start, and the retries that wait.
pub record Runner : Type 0 where
  pub timer : Bool
  pub in_flight : Option ℕ
  pub consecutive_failures : ℕ
  pub retries : List ℕ

abbrev pub new_runner : Runner
new_runner = record { timer = false; in_flight = none; consecutive_failures = 0; retries = [] }

unfoldable pub run_cycle : ℕ → Runner → Runner
run_cycle now r = elim r.in_flight [ some started ↦ r | none ↦ record r { in_flight = some now } ]

unfoldable pub cycle_backoff : ℕ → ℕ → ℕ
cycle_backoff interval_ms failures = min (interval_ms * 2 ^ (failures - 1)) max_backoff_ms

-- The end of the scan in flight, with or without a throw.
unfoldable pub scan_settled : ℕ → ℕ → Bool → Runner → Runner
unfolding cycle_backoff
scan_settled interval_ms now true r = record r { in_flight = none; consecutive_failures = 0 }
scan_settled interval_ms now false r =
    let failures = r.consecutive_failures + 1 in
    let backoff = cycle_backoff interval_ms failures in
    record r {
      in_flight = none;
      consecutive_failures = failures;
      retries =
          if ltb interval_ms backoff && r.timer
          then (now + (backoff - interval_ms)) ∷ r.retries
          else r.retries;
    }

unfoldable pub tick : ℕ → Runner → Runner
unfolding run_cycle
tick now r = if r.timer then run_cycle now r else r

abbrev pub start_runner : Runner → Runner
start_runner r = record r { timer = true }

abbrev pub stop_runner : Runner → Runner
stop_runner r = record r { timer = false }

-- The event path of one market: the last scan and the debounce timer.
pub record EventScan : Type 0 where
  pub last_scan_at : Option ℕ
  pub debounce_timer : Option ℕ

abbrev pub min_event_scan_interval_ms : ℕ
min_event_scan_interval_ms = 5_000

-- The handler of an account update, which replaces the timer.
abbrev pub account_updated : ℕ → ℕ → EventScan → EventScan
account_updated debounce_ms now s = record s { debounce_timer = some (now + debounce_ms) }

-- The state and whether a scan runs. `elapsed < interval` is written without the subtraction.
unfoldable pub maybe_run_event_scan : ℕ → EventScan → EventScan × Bool
maybe_run_event_scan now s =
    let next = or_zero s.last_scan_at + min_event_scan_interval_ms in
    if ltb now next
    then (record s { debounce_timer = some (now + (next - now)) }, false)
    else (record { last_scan_at = some now; debounce_timer = none }, true)
