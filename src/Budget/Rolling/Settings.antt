-- ===== src/Budget/Rolling/Settings.antt =====
-- src/lib/budget.ts: no call changes the configuration.
use percolator_keeper.Prelude.{
  ℕ, ◌≡◌, refl, ◌∙◌, pos, negsuc, Num, finite, nan, infinite, Option, List, [], ◌∷◌, arith, Bool,
}
use Prim.Native.String.{String}
use percolator_keeper.Budget.State.{
  TxType, TxResult, success, fail, reverted, drop, Config, HaltFile, Budget,
}
use percolator_keeper.Budget.Window.{roll_cycle_if_elapsed, prune_old}
use percolator_keeper.Budget.Halting.{
  halt, halt_manually, resume, persist_halt_state, clear_halt, new,
}
use percolator_keeper.Budget.Admission.{can_spend, check_cost, check_caps, reserve}
use percolator_keeper.Budget.Settlement.{
  record_tx, record_amount, book_result, book_spend, adjust_for_realized_cost, adjust_amounts,
  begin_cycle, refresh, release, count_attempt,
}
use percolator_keeper.Budget.Trace.{
  Call, spends, records, adjusts, begins_cycle, reads_stats, halts, resumes, step, run,
}

config-roll : (now : ℕ) (b : Budget) → (roll_cycle_if_elapsed now b).config ≡ b.config
unfolding roll_cycle_if_elapsed
config-roll now b = ground arith

pub config-refresh : (now : ℕ) (b : Budget) → (refresh now b).config ≡ b.config
unfolding refresh prune_old
config-refresh now b = config-roll now b

config-check_caps : (b : Budget) (n : ℕ) (t : TxType) → (check_caps b n t).0.config ≡ b.config
unfolding check_caps reserve halt persist_halt_state
config-check_caps b n t = ground arith

config-can_spend :
    (now : ℕ) (cost : Num) (t : TxType) (b : Budget) → (can_spend now cost t b).0.config ≡ b.config
unfolding can_spend check_cost halt persist_halt_state prune_old
config-can_spend now (finite (pos n)) t b =
    ground (
      arith,
      config-check_caps (prune_old now (roll_cycle_if_elapsed now b)) n t,
      config-roll now b,
    )
config-can_spend now (finite (negsuc n)) t b = ground arith
config-can_spend now nan t b = ground arith
config-can_spend now infinite t b = ground arith

config-record_amount :
    (now n : ℕ) (result : TxResult) (b : Budget) → (record_amount now n result b).config ≡ b.config
unfolding record_amount prune_old book_result book_spend count_attempt release
config-record_amount now n success b = config-roll now b
config-record_amount now n fail b = config-roll now b
config-record_amount now n reverted b = config-roll now b
config-record_amount now n drop b = config-roll now b

config-step : (b : Budget) (now : ℕ) (c : Call) → (step b (now, c)).config ≡ b.config
unfolding step record_tx adjust_for_realized_cost adjust_amounts prune_old halt_manually halt resume
    persist_halt_state clear_halt begin_cycle
config-step b now (spends cost t) = config-can_spend now cost t b
config-step b now (records (finite (pos n)) result) = config-record_amount now n result b
config-step b now (records (finite (negsuc n)) result) = refl
config-step b now (records nan result) = refl
config-step b now (records infinite result) = refl
config-step b now (adjusts (finite (pos e)) (finite (pos r))) = config-roll now _
config-step b now (adjusts (finite (pos e)) (finite (negsuc r))) = refl
config-step b now (adjusts (finite (pos e)) nan) = refl
config-step b now (adjusts (finite (pos e)) infinite) = refl
config-step b now (adjusts (finite (negsuc e)) r) = refl
config-step b now (adjusts nan r) = refl
config-step b now (adjusts infinite r) = refl
config-step b now begins_cycle = refl
config-step b now reads_stats = config-refresh now b
config-step b now (halts reason) = ground arith
config-step b now (resumes name) = ground arith

pub config-run : (b : Budget) (cs : List (ℕ × Call)) → (run b cs).config ≡ b.config
unfolding run
config-run b [] = refl
config-run b ((now, c) ∷ cs) = config-run (step b (now, c)) cs ∙ config-step b now c

pub config-new :
    (config : Config) (path : Option String) (file : HaltFile) (disk_works : Bool)
    → (new config path file disk_works).config ≡ config
unfolding new
config-new config path file disk_works = ground arith
