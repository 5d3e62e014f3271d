-- ===== src/Budget/Landing.antt =====
-- src/lib/budget.ts: what each result of a send does to the accounts, and to the success rate.
use percolator_keeper.Prelude.{
  ℕ, ◌+◌, ◌-◌, ◌≡◌, refl, sym, pos, negsuc, Num, finite, nan, infinite, Bool, true, false, arith,
  subst, suc, List, [], ◌∷◌, ◌++◌, if◌then◌else◌,
}
use percolator_keeper.Budget.State.{
  TxResult, success, fail, reverted, drop, TxRecord, TxWindow, Budget,
}
use percolator_keeper.Budget.Window.{roll_cycle_if_elapsed, prune_old, prune_window, prune_records}
use percolator_keeper.Budget.Settlement.{
  record_tx, record_amount, book_result, book_spend, push_record, refresh, release, count_attempt,
}

window-roll : (now : ℕ) (b : Budget) → (roll_cycle_if_elapsed now b).tx_window ≡ b.tx_window
unfolding roll_cycle_if_elapsed
window-roll now b = ground arith

-- A revert landed, and a drop never reached the chain: neither moves the success rate. The window
-- after settling such a send is the window that a mere report at that time would see.
pub reverted_keeps_rate :
    (now n : ℕ) (b : Budget)
    → ((record_tx now (finite (pos n)) reverted b).tx_window ≡ (refresh now b).tx_window)
      × ((record_tx now (finite (pos n)) drop b).tx_window ≡ (refresh now b).tx_window)
unfolding record_tx record_amount refresh prune_old book_result book_spend count_attempt release
    roll_cycle_if_elapsed
reverted_keeps_rate now n b = ground arith

-- What a result books of the amount.
abbrev pub spent : TxResult → ℕ → ℕ
spent drop n = 0
spent _ n = n

-- Every result but a drop books the amount in the cycle; a drop books nothing. Every result counts
-- as an attempt and gives back the amount and the slot that were reserved.
pub record_tx_accounts :
    (now n : ℕ) (result : TxResult) (b : Budget)
    → let b' = record_tx now (finite (pos n)) result b in
      let r = roll_cycle_if_elapsed now b in
      (b'.cycle_spend ≡ r.cycle_spend + spent result n)
      × (b'.cycle_tx_count ≡ r.cycle_tx_count + 1)
      × (b'.reserved_lamports ≡ r.reserved_lamports - n)
      × (b'.reserved_tx_count ≡ r.reserved_tx_count - 1)
unfolding record_tx record_amount prune_old book_result book_spend count_attempt release
record_tx_accounts now n success b = (refl, refl, refl, refl)
record_tx_accounts now n fail b = (refl, refl, refl, refl)
record_tx_accounts now n reverted b = (refl, refl, refl, refl)
record_tx_accounts now n drop b = (omega arith, refl, refl, refl)

abbrev pub count_landed : List TxRecord → ℕ
count_landed [] = 0
count_landed (r ∷ rs) = if r.landed then suc (count_landed rs) else count_landed rs

abbrev pub count_failed : List TxRecord → ℕ
count_failed [] = 0
count_failed (r ∷ rs) = if r.landed then count_failed rs else suc (count_failed rs)

-- The two counters of the window count its records.
pub record IsCounted (w : TxWindow) : Type 0 where
  pub landed : w.successes ≡ count_landed w.records
  pub failed : w.failures ≡ count_failed w.records

prune_records-IsCounted :
    (age now : ℕ) (rs : List TxRecord) (s f : ℕ)
    → s ≡ count_landed rs
    → f ≡ count_failed rs
    → IsCounted (prune_records age now rs s f)
unfolding prune_records
prune_records-IsCounted age now [] s f hs hf = record { landed = hs; failed = hf }
prune_records-IsCounted age now (r ∷ rs) s f hs hf = ground (
  arith,
  prune_records-IsCounted age now rs (s - 1) f,
  prune_records-IsCounted age now rs s (f - 1),
)

pub prune_window-IsCounted :
    (age now : ℕ) (w : TxWindow) → IsCounted w → IsCounted (prune_window age now w)
unfolding prune_window
prune_window-IsCounted age now w c =
    prune_records-IsCounted age now w.records w.successes w.failures c.landed c.failed

count_landed-append :
    (rs ss : List TxRecord) → count_landed (rs ++ ss) ≡ count_landed rs + count_landed ss
count_landed-append [] ss = omega arith
count_landed-append (r ∷ rs) ss = ground (arith, count_landed-append rs ss)

count_failed-append :
    (rs ss : List TxRecord) → count_failed (rs ++ ss) ≡ count_failed rs + count_failed ss
count_failed-append [] ss = omega arith
count_failed-append (r ∷ rs) ss = ground (arith, count_failed-append rs ss)

push_record-IsCounted :
    (now : ℕ) (landed : Bool) (w : TxWindow) → IsCounted w → IsCounted (push_record now landed w)
unfolding push_record
push_record-IsCounted now true w c = omega (
  arith,
  count_landed-append w.records (record { ts = now; landed = true } ∷ []),
  count_failed-append w.records (record { ts = now; landed = true } ∷ []),
  c.landed,
  c.failed,
)
push_record-IsCounted now false w c = omega (
  arith,
  count_landed-append w.records (record { ts = now; landed = false } ∷ []),
  count_failed-append w.records (record { ts = now; landed = false } ∷ []),
  c.landed,
  c.failed,
)

-- Settling a send keeps the counters equal to the counts of the records that are kept.
pub record_tx-IsCounted :
    (now : ℕ) (cost : Num) (result : TxResult) (b : Budget)
    → IsCounted b.tx_window
    → IsCounted (record_tx now cost result b).tx_window
unfolding record_tx record_amount prune_old book_result book_spend count_attempt release
record_tx-IsCounted now (finite (pos n)) success b c =
    prune_window-IsCounted _ now _
      (push_record-IsCounted now true _ (subst IsCounted (sym (window-roll now b)) c))
record_tx-IsCounted now (finite (pos n)) fail b c =
    prune_window-IsCounted _ now _
      (push_record-IsCounted now false _ (subst IsCounted (sym (window-roll now b)) c))
record_tx-IsCounted now (finite (pos n)) reverted b c =
    prune_window-IsCounted _ now _ (subst IsCounted (sym (window-roll now b)) c)
record_tx-IsCounted now (finite (pos n)) drop b c =
    prune_window-IsCounted _ now _ (subst IsCounted (sym (window-roll now b)) c)
record_tx-IsCounted now (finite (negsuc n)) result b c = c
record_tx-IsCounted now nan result b c = c
record_tx-IsCounted now infinite result b c = c
