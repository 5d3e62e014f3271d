-- ===== src/Budget/Trace.antt =====
-- src/lib/budget.ts: a KeeperBudget under any sequence of calls of its public methods.
use Prim.Native.String.{String}
use percolator_keeper.Prelude.{ℕ, Num, List, [], ◌∷◌}
use percolator_keeper.Budget.State.{TxType, TxResult, Budget}
use percolator_keeper.Budget.Halting.{halt_manually, resume}
use percolator_keeper.Budget.Admission.{can_spend}
use percolator_keeper.Budget.Settlement.{record_tx, adjust_for_realized_cost, begin_cycle, refresh}

pub data Call : Type 0 where
  spends : Num → TxType → Call
  records : Num → TxResult → Call
  adjusts : Num → Num → Call
  begins_cycle reads_stats : Call
  halts resumes : String → Call

-- A call at the time that the clock shows.
unfoldable pub step : Budget → ℕ × Call → Budget
step b (now, spends cost t) = (can_spend now cost t b).0
step b (now, records cost result) = record_tx now cost result b
step b (now, adjusts estimated realized) = adjust_for_realized_cost now estimated realized b
step b (now, begins_cycle) = begin_cycle now b
step b (now, reads_stats) = refresh now b
step b (now, halts reason) = halt_manually reason b
step b (now, resumes operator) = resume operator b

unfoldable pub run : Budget → List (ℕ × Call) → Budget
run b [] = b
run b (c ∷ cs) = run (step b c) cs
