-- ===== src/Budget/Rolling/Refinement.antt =====
-- src/lib/budget.ts: the running sums refine the history of booked amounts.
use Prim.Native.String.{String}
use mathlib.Core.List.{append-nil, append_assoc}
use percolator_keeper.Prelude.{
  ℕ, ◌≤◌, ◌≡◌, refl, sym, ap, subst, ◌∙◌, inl, inr, ℤ, pos, negsuc, finite, nan, infinite, Bool,
  Option, List, [], ◌∷◌, ◌++◌, Bool-cases,
}
use percolator_keeper.Budget.State.{
  TxResult, success, fail, reverted, drop, SpendEvent, Budget, Config, HaltFile, empty_ledger,
}
use percolator_keeper.Budget.Window.{prune_ledger, book}
use percolator_keeper.Budget.Halting.{halt_manually, new}
use percolator_keeper.Budget.Settlement.{
  record_tx, record_amount, adjust_for_realized_cost, adjust_amounts, adjust_ledger, is_zero,
  refresh,
}
use percolator_keeper.Budget.Trace.{
  Call, spends, records, adjusts, begins_cycle, reads_stats, halts, resumes, step, run,
}
use percolator_keeper.Budget.Ledger.{
  total_within, Tracks, Tracks-later, Tracks-book, Tracks-prune, Tracks-sum,
}
use percolator_keeper.Budget.Rolling.{
  Window, age_of, ledger_of, entry, booked_amount, applied_change, booked_change, booked, history,
  IsMonotone, last_time, IsKept,
}
use percolator_keeper.Budget.Rolling.Frames.{
  ledger-new, ledger-begin_cycle, ledger-refresh, ledger-resume, ledger-halt, IsKept-can_spend,
  ledger-adjust, ledger-record, ledger-record_drop,
}

abbrev TracksBudget : Window → ℕ → List SpendEvent → Budget → Type 0
TracksBudget w time h b = Tracks (age_of w) time h (ledger_of w b)

module _ (w : Window) {time now : ℕ} {h : List SpendEvent} (b : Budget) (mono : time ≤ now) where
  -- A call that books nothing keeps the invariant.
  Tracks-kept :
      (b' : Budget) → IsKept w now b b' → TracksBudget w time h b → TracksBudget w now (h ++ []) b'
  Tracks-kept b' (inl e) tracked =
      subst (λ l. Tracks (age_of w) now (h ++ []) l) (sym e)
        (subst (λ g. Tracks (age_of w) now g (ledger_of w b)) (sym (append-nil h))
          (Tracks-later mono tracked))
  Tracks-kept b' (inr e) tracked =
      subst (λ l. Tracks (age_of w) now (h ++ []) l) (sym e)
        (subst (λ g. Tracks (age_of w) now g (prune_ledger (age_of w) now (ledger_of w b)))
          (sym (append-nil h)) (Tracks-prune (Tracks-later mono tracked)))

  -- A call that books an amount and prunes keeps it.
  Tracks-booked :
      (b' : Budget) (amount : ℤ)
      → ledger_of w b' ≡ prune_ledger (age_of w) now (book now amount (ledger_of w b))
      → TracksBudget w time h b
      → TracksBudget w now (h ++ entry now amount) b'
  Tracks-booked b' amount e tracked =
      subst (λ l. Tracks (age_of w) now (h ++ entry now amount) l) (sym e)
        (Tracks-prune (Tracks-book amount (Tracks-later mono tracked)))

  Tracks-record :
      (n : ℕ) (result : TxResult)
      → TracksBudget w time h b
      → TracksBudget w now (h ++ booked_amount now n result) (record_amount now n result b)
  Tracks-record n success tracked =
      Tracks-booked _ (pos n) (ledger-record w now n success b (λ e. cc)) tracked
  Tracks-record n fail tracked =
      Tracks-booked _ (pos n) (ledger-record w now n fail b (λ e. cc)) tracked
  Tracks-record n reverted tracked =
      Tracks-booked _ (pos n) (ledger-record w now n reverted b (λ e. cc)) tracked
  Tracks-record n drop tracked = Tracks-kept _ (inr (ledger-record_drop w now n b)) tracked

  Tracks-adjust :
      (e r : ℕ)
      → TracksBudget w time h b
      → TracksBudget w now
          (h ++ booked_change now (applied_change (ledger_of w b) e r))
          (adjust_amounts now e r b)
  unfolding adjust_ledger
  Tracks-adjust e r tracked = elim (Bool-cases (is_zero (applied_change (ledger_of w b) e r))) [
    | inl z ↦ rw z (Tracks-kept _ (inr (ledger-adjust w now e r b ∙ rw z)) tracked)
    | inr z ↦ rw z (Tracks-booked _ _ (ledger-adjust w now e r b ∙ rw z) tracked)
  ]

-- Every call keeps the invariant.
step-Tracks :
    (w : Window) {time : ℕ} {h : List SpendEvent} (b : Budget) (now : ℕ) (c : Call)
    → time ≤ now
    → TracksBudget w time h b
    → TracksBudget w now (h ++ booked w b (now, c)) (step b (now, c))
unfolding step record_tx adjust_for_realized_cost halt_manually
step-Tracks w b now (spends cost t) m tracked =
    Tracks-kept w b m _ (IsKept-can_spend w now cost t b) tracked
step-Tracks w b now (records (finite (pos n)) result) m tracked =
    Tracks-record w b m n result tracked
step-Tracks w b now (records (finite (negsuc n)) result) m tracked =
    Tracks-kept w b m b (inl refl) tracked
step-Tracks w b now (records nan result) m tracked = Tracks-kept w b m b (inl refl) tracked
step-Tracks w b now (records infinite result) m tracked = Tracks-kept w b m b (inl refl) tracked
step-Tracks w b now (adjusts (finite (pos e)) (finite (pos r))) m tracked =
    Tracks-adjust w b m e r tracked
step-Tracks w b now (adjusts (finite (pos e)) (finite (negsuc r))) m tracked =
    Tracks-kept w b m b (inl refl) tracked
step-Tracks w b now (adjusts (finite (pos e)) nan) m tracked =
    Tracks-kept w b m b (inl refl) tracked
step-Tracks w b now (adjusts (finite (pos e)) infinite) m tracked =
    Tracks-kept w b m b (inl refl) tracked
step-Tracks w b now (adjusts (finite (negsuc e)) r) m tracked =
    Tracks-kept w b m b (inl refl) tracked
step-Tracks w b now (adjusts nan r) m tracked = Tracks-kept w b m b (inl refl) tracked
step-Tracks w b now (adjusts infinite r) m tracked = Tracks-kept w b m b (inl refl) tracked
step-Tracks w b now begins_cycle m tracked =
    Tracks-kept w b m _ (inl (ledger-begin_cycle w now b)) tracked
step-Tracks w b now reads_stats m tracked =
    Tracks-kept w b m _ (inr (ledger-refresh w now b)) tracked
step-Tracks w b now (halts reason) m tracked =
    Tracks-kept w b m _ (inl (ledger-halt w _ _ b)) tracked
step-Tracks w b now (resumes name) m tracked =
    Tracks-kept w b m _ (inl (ledger-resume w name b)) tracked

run-Tracks :
    (w : Window) (time : ℕ) (h : List SpendEvent) (b : Budget) (cs : List (ℕ × Call))
    → IsMonotone time cs
    → TracksBudget w time h b
    → TracksBudget w (last_time time cs) (h ++ history w b cs) (run b cs)
unfolding run history
run-Tracks w time h b [] m tracked =
    subst (λ g. TracksBudget w time g b) (sym (append-nil h)) tracked
run-Tracks w time h b ((now, c) ∷ cs) m tracked =
    subst (λ g. TracksBudget w (last_time now cs) g (run (step b (now, c)) cs))
      (append_assoc h (booked w b (now, c)) (history w (step b (now, c)) cs))
      (run-Tracks w now (h ++ booked w b (now, c)) (step b (now, c)) cs m.1
        (step-Tracks w b now c m.0 tracked))

-- Whatever is called, by a clock that does not go back, the sum that a check of the budget compares
-- with its hour cap is the sum of all that was booked in the last hour; likewise for the day.
pub rolling_sum :
    (w : Window) (config : Config) (path : Option String) (file : HaltFile) (disk_works : Bool)
    (cs : List (ℕ × Call)) (now : ℕ)
    → IsMonotone 0 cs
    → last_time 0 cs ≤ now
    → let b = new config path file disk_works in
      (ledger_of w (refresh now (run b cs))).sum ≡ total_within (age_of w) now (history w b cs)
rolling_sum w config path file disk_works cs now m later =
    ap (λ l. l.sum) (ledger-refresh w now (run b cs))
    ∙ Tracks-sum (Tracks-later later (run-Tracks w 0 [] b cs m start))
  where
    b : Budget
    b = new config path file disk_works

    empty : (age : ℕ) → Tracks age 0 [] empty_ledger
    empty age = record { exact = refl; sorted = tt; past = tt; same = λ t q. refl }

    start : TracksBudget w 0 [] b
    start =
        subst (λ l. Tracks (age_of w) 0 [] l) (sym (ledger-new w config path file disk_works))
          (empty (age_of w))
