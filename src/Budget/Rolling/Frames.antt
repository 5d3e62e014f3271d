-- ===== src/Budget/Rolling/Frames.antt =====
-- src/lib/budget.ts: what each call does to the hour and the day ledger.
use Prim.Native.String.{String}
use percolator_keeper.Prelude.{
  ℕ, ◌≡◌, refl, ap, ◌∙◌, ◌≢◌, inl, inr, pos, negsuc, ◌-ℤ◌, Num, finite, nan, infinite, Bool, Option,
  arith, Bool-cases,
}
use percolator_keeper.Budget.State.{
  TxType, TxResult, success, fail, reverted, drop, Budget, Config, HaltFile, hour_ms, day_ms,
  empty_ledger, HaltKind, Reason, non_finite_cost, bad_cost,
}
use percolator_keeper.Budget.Window.{roll_cycle_if_elapsed, prune_old, prune_ledger, book}
use percolator_keeper.Budget.Halting.{halt, resume, persist_halt_state, clear_halt, new}
use percolator_keeper.Budget.Admission.{can_spend, check_cost, check_caps, reserve}
use percolator_keeper.Budget.Settlement.{
  record_amount, book_result, book_spend, adjust_amounts, adjust_ledger, begin_cycle, refresh,
  release, count_attempt,
}
use percolator_keeper.Budget.Latch.{can_spend_halted}
use percolator_keeper.Budget.Caps.{can_spend_live}
use percolator_keeper.Budget.Rolling.{Window, hourly, daily, age_of, ledger_of, IsKept}

pub ledger-roll :
    (w : Window) (now : ℕ) (b : Budget) → ledger_of w (roll_cycle_if_elapsed now b) ≡ ledger_of w b
unfolding roll_cycle_if_elapsed
ledger-roll hourly now b = ground arith
ledger-roll daily now b = ground arith

pub ledger-prune_old :
    (w : Window) (now : ℕ) (b : Budget)
    → ledger_of w (prune_old now b) ≡ prune_ledger (age_of w) now (ledger_of w b)
unfolding prune_old
ledger-prune_old hourly now b = refl
ledger-prune_old daily now b = refl

pub ledger-refresh :
    (w : Window) (now : ℕ) (b : Budget)
    → ledger_of w (refresh now b) ≡ prune_ledger (age_of w) now (ledger_of w b)
unfolding refresh
ledger-refresh w now b =
    ledger-prune_old w now (roll_cycle_if_elapsed now b)
    ∙ ap (prune_ledger (age_of w) now) (ledger-roll w now b)

pub ledger-halt :
    (w : Window) (kind : HaltKind) (reason : Reason) (b : Budget)
    → ledger_of w (halt kind reason b) ≡ ledger_of w b
unfolding halt persist_halt_state
ledger-halt hourly kind reason b = ground arith
ledger-halt daily kind reason b = ground arith

pub ledger-resume :
    (w : Window) (name : String) (b : Budget) → ledger_of w (resume name b) ≡ ledger_of w b
unfolding resume clear_halt
ledger-resume hourly name b = ground arith
ledger-resume daily name b = ground arith

ledger-check_caps :
    (w : Window) (b : Budget) (n : ℕ) (t : TxType)
    → ledger_of w (check_caps b n t).0 ≡ ledger_of w b
unfolding check_caps reserve halt persist_halt_state
ledger-check_caps hourly b n t = ground arith
ledger-check_caps daily b n t = ground arith

pub IsKept-can_spend :
    (w : Window) (now : ℕ) (cost : Num) (t : TxType) (b : Budget)
    → IsKept w now b (can_spend now cost t b).0
unfolding can_spend check_cost
IsKept-can_spend w now (finite (pos n)) t b = elim (Bool-cases b.is_halted) [
  | inl h ↦ inl (ap (ledger_of w) (ap (λ r. r.0) (can_spend_halted now (finite (pos n)) t b h)))
  | inr h ↦ inr (
      ap (λ r. ledger_of w r.0) (can_spend_live b now n t h)
      ∙ ledger-check_caps w (refresh now b) n t
      ∙ ledger-refresh w now b)
]
IsKept-can_spend w now (finite (negsuc n)) t b =
    inl (ground (arith, ledger-halt w non_finite_cost (bad_cost (finite (negsuc n)) t) b))
IsKept-can_spend w now nan t b =
    inl (ground (arith, ledger-halt w non_finite_cost (bad_cost nan t) b))
IsKept-can_spend w now infinite t b =
    inl (ground (arith, ledger-halt w non_finite_cost (bad_cost infinite t) b))

ledger-book_spend :
    (w : Window) (now n : ℕ) (b : Budget)
    → ledger_of w (book_spend now n b) ≡ book now (pos n) (ledger_of w b)
unfolding book_spend
ledger-book_spend hourly now n b = refl
ledger-book_spend daily now n b = refl

ledger-book_result :
    (w : Window) (now n : ℕ) (result : TxResult) (b : Budget)
    → result ≢ drop
    → ledger_of w (book_result now n result b) ≡ book now (pos n) (ledger_of w b)
unfolding book_result book_spend
ledger-book_result hourly now n success b h = refl
ledger-book_result hourly now n fail b h = refl
ledger-book_result hourly now n reverted b h = refl
ledger-book_result hourly now n drop b h = absurd (h refl)
ledger-book_result daily now n success b h = refl
ledger-book_result daily now n fail b h = refl
ledger-book_result daily now n reverted b h = refl
ledger-book_result daily now n drop b h = absurd (h refl)

ledger-release :
    (w : Window) (n now : ℕ) (b : Budget)
    → ledger_of w (count_attempt (release n (roll_cycle_if_elapsed now b))) ≡ ledger_of w b
unfolding count_attempt release
ledger-release hourly n now b = ledger-roll hourly now b
ledger-release daily n now b = ledger-roll daily now b

pub ledger-record :
    (w : Window) (now n : ℕ) (result : TxResult) (b : Budget)
    → result ≢ drop
    → ledger_of w (record_amount now n result b)
      ≡ prune_ledger (age_of w) now (book now (pos n) (ledger_of w b))
unfolding record_amount
ledger-record w now n result b h =
    let b' = count_attempt (release n (roll_cycle_if_elapsed now b)) in
    ledger-prune_old w now (book_result now n result b')
    ∙ ap (prune_ledger (age_of w) now)
        (ledger-book_result w now n result b' h ∙ ap (book now (pos n)) (ledger-release w n now b))

pub ledger-record_drop :
    (w : Window) (now n : ℕ) (b : Budget)
    → ledger_of w (record_amount now n drop b) ≡ prune_ledger (age_of w) now (ledger_of w b)
unfolding record_amount book_result
ledger-record_drop w now n b =
    ledger-prune_old w now (count_attempt (release n (roll_cycle_if_elapsed now b)))
    ∙ ap (prune_ledger (age_of w) now) (ledger-release w n now b)

pub ledger-adjust :
    (w : Window) (now e r : ℕ) (b : Budget)
    → ledger_of w (adjust_amounts now e r b)
      ≡ prune_ledger (age_of w) now (adjust_ledger now (pos r -ℤ pos e) (ledger_of w b))
unfolding adjust_amounts prune_old
ledger-adjust hourly now e r b =
    ap (λ l. prune_ledger hour_ms now (adjust_ledger now (pos r -ℤ pos e) l))
      (ledger-roll hourly now _)
ledger-adjust daily now e r b =
    ap (λ l. prune_ledger day_ms now (adjust_ledger now (pos r -ℤ pos e) l))
      (ledger-roll daily now _)

pub ledger-begin_cycle :
    (w : Window) (now : ℕ) (b : Budget) → ledger_of w (begin_cycle now b) ≡ ledger_of w b
unfolding begin_cycle
ledger-begin_cycle hourly now b = refl
ledger-begin_cycle daily now b = refl

pub ledger-new :
    (w : Window) (config : Config) (path : Option String) (file : HaltFile) (disk_works : Bool)
    → ledger_of w (new config path file disk_works) ≡ empty_ledger
unfolding new
ledger-new hourly config path file disk_works = ground arith
ledger-new daily config path file disk_works = ground arith
