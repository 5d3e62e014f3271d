-- ===== src/Budget/Latch.antt =====
-- src/lib/budget.ts: the latch. What halts the budget, and what a halt does to later calls.
use percolator_keeper.Prelude.{
  ℕ, ◌≡◌, refl, pos, negsuc, Num, finite, nan, infinite, Bool, true, false, Option, List, [], ◌∷◌,
  arith, All, ap, ◌∙◌,
}
use percolator_keeper.Budget.State.{
  TxType, TxResult, success, fail, reverted, drop, HaltKind, Reason, Budget,
}
use percolator_keeper.Budget.Window.{roll_cycle_if_elapsed, prune_old}
use percolator_keeper.Budget.Halting.{halt, halt_manually}
use percolator_keeper.Budget.Admission.{can_spend}
use percolator_keeper.Budget.Settlement.{
  record_tx, record_amount, book_result, adjust_for_realized_cost, adjust_amounts, begin_cycle,
  refresh, release, count_attempt,
}
use percolator_keeper.Budget.Trace.{
  Call, spends, records, adjusts, begins_cycle, reads_stats, halts, resumes, step, run,
}

-- The latch and its cause.
abbrev pub latch : Budget → Bool × Option HaltKind × Option Reason
latch b = (b.is_halted, b.halt_kind, b.halt_reason)

latch-roll : (now : ℕ) (b : Budget) → latch (roll_cycle_if_elapsed now b) ≡ latch b
unfolding roll_cycle_if_elapsed
latch-roll now b = ground arith

latch-book_result :
    (now n : ℕ) (result : TxResult) (b : Budget) → latch (book_result now n result b) ≡ latch b
unfolding book_result
latch-book_result now n success b = refl
latch-book_result now n fail b = refl
latch-book_result now n reverted b = refl
latch-book_result now n drop b = refl

-- Settling a send, reconciling it, a new cycle and a report leave the latch alone.
latch-record_tx :
    (now : ℕ) (cost : Num) (result : TxResult) (b : Budget)
    → latch (record_tx now cost result b) ≡ latch b
unfolding record_tx record_amount prune_old release count_attempt
latch-record_tx now (finite (pos n)) result b = latch-book_result now n result _ ∙ latch-roll now b
latch-record_tx now (finite (negsuc n)) result b = refl
latch-record_tx now nan result b = refl
latch-record_tx now infinite result b = refl

latch-adjust :
    (now : ℕ) (estimated realized : Num) (b : Budget)
    → latch (adjust_for_realized_cost now estimated realized b) ≡ latch b
unfolding adjust_for_realized_cost adjust_amounts prune_old
latch-adjust now (finite (pos e)) (finite (pos r)) b = latch-roll now _
latch-adjust now (finite (pos e)) (finite (negsuc r)) b = refl
latch-adjust now (finite (pos e)) nan b = refl
latch-adjust now (finite (pos e)) infinite b = refl
latch-adjust now (finite (negsuc e)) r b = refl
latch-adjust now nan r b = refl
latch-adjust now infinite r b = refl

pub latch-refresh : (now : ℕ) (b : Budget) → latch (refresh now b) ≡ latch b
unfolding refresh prune_old
latch-refresh now b = latch-roll now b

abbrev pub IsNoResume : ℕ × Call → Type 0
IsNoResume (now, resumes name) = ⊥
IsNoResume (now, _) = Unit {0}

halt_halted :
    (kind : HaltKind) (reason : Reason) (b : Budget) → b.is_halted ≡ true → halt kind reason b ≡ b
unfolding halt
halt_halted kind reason b h = rw h

pub can_spend_halted :
    (now : ℕ) (cost : Num) (t : TxType) (b : Budget)
    → b.is_halted ≡ true
    → can_spend now cost t b ≡ (b, false)
unfolding can_spend
can_spend_halted now cost t b h = rw h

step-latch :
    (b : Budget) (c : ℕ × Call) → IsNoResume c → b.is_halted ≡ true → latch (step b c) ≡ latch b
unfolding step halt_manually begin_cycle
step-latch b (now, spends cost t) q h = ap (λ r. latch r.0) (can_spend_halted now cost t b h)
step-latch b (now, records cost result) q h = latch-record_tx now cost result b
step-latch b (now, adjusts e r) q h = latch-adjust now e r b
step-latch b (now, begins_cycle) q h = refl
step-latch b (now, reads_stats) q h = latch-refresh now b
step-latch b (now, halts reason) q h = ap latch (halt_halted _ _ b h)
step-latch b (now, resumes name) q h = absurd q

run-latch :
    (b : Budget) (cs : List (ℕ × Call))
    → All IsNoResume cs
    → b.is_halted ≡ true
    → latch (run b cs) ≡ latch b
unfolding run
run-latch b [] q h = refl
run-latch b (c ∷ cs) q h =
    let same = step-latch b c q.0 h in run-latch (step b c) cs q.1 (ap (λ l. l.0) same ∙ h) ∙ same

-- Once the budget is halted, every sequence of calls without a resume leaves it halted for the same
-- kind and reason, and every later `canSpend` refuses and changes nothing.
pub latched_until_resume :
    (b : Budget) (cs : List (ℕ × Call)) (now : ℕ) (cost : Num) (t : TxType)
    → All IsNoResume cs
    → b.is_halted ≡ true
    → (latch (run b cs) ≡ latch b) × (can_spend now cost t (run b cs) ≡ (run b cs, false))
latched_until_resume b cs now cost t q h =
    let same = run-latch b cs q h in
    (same, can_spend_halted now cost t (run b cs) (ap (λ l. l.0) same ∙ h))
