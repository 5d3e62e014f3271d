-- ===== src/Crank/Selection.antt =====
-- src/services/crank.ts: which markets a cycle cranks, and what it counts.
use percolator_keeper.Prelude.{
  ℕ, zero, suc, ◌+◌, ◌≤◌, ◌<◌, ◌≡◌, refl, sym, ap, ◌∙◌, ◌↔◌, true, false, Option, none, some, List,
  [], ◌∷◌, ◌++◌, if◌then◌else◌, length, take, drop, arith, take-append-drop, length-drop,
}
use percolator_keeper.Crank.{MarketCrankState, CrankResult, success, skipped, failed}
use percolator_keeper.Crank.Choice.{
  Intervals, is_due, is_foreign, has_portfolio, Place, permanent, foreign, unprovisioned, paused,
  not_due, place, Tally, new_tally, tally_place, select_markets, skipped_of, BatchResult,
  new_batch_result, count_outcome, count_outcomes, process_rounds, process_batched,
}

abbrev pub interval_of : Intervals → MarketCrankState → ℕ
interval_of iv s = if s.is_active then iv.interval_ms else iv.inactive_interval_ms

-- A market is cranked in a cycle exactly if it is not permanently skipped, has no other oracle
-- authority, has the keeper's portfolio, has failed less than ten times in a row, and its interval has
-- passed since its last crank.
pub place-cranks_iff :
    (iv : Intervals) (now keeper : ℕ) (s : MarketCrankState)
    → (place iv now keeper s ≡ Place.to_crank) ↔ (
        (s.permanently_skipped ≡ false)
        × (is_foreign keeper s.market.oracle_authority ≡ false)
        × (has_portfolio s.keeper_portfolio ≡ true)
        × (s.consecutive_failures < 10)
        × (s.last_crank_time + interval_of iv s ≤ now))
unfolding place is_due
place-cranks_iff iv now keeper s = ground arith

length-snoc : {A : Type 0} (xs : List A) (x : A) → length (xs ++ (x ∷ [])) ≡ length xs + 1
length-snoc [] x = omega arith
length-snoc (y ∷ ys) x = omega (arith, length-snoc ys x)

-- What a tally has counted.
abbrev pub counted : Tally → ℕ
counted t = skipped_of t + length t.to_crank

tally_place-counted :
    (p : Place) (key : ℕ) (t : Tally) → counted (tally_place p key t) ≡ counted t + 1
unfolding tally_place
tally_place-counted permanent key t = omega arith
tally_place-counted foreign key t = omega arith
tally_place-counted unprovisioned key t = omega arith
tally_place-counted paused key t = omega arith
tally_place-counted not_due key t = omega arith
tally_place-counted Place.to_crank key t = omega (arith, length-snoc t.to_crank key)

select_markets-counted :
    (iv : Intervals) (now keeper : ℕ) (markets : List (ℕ × MarketCrankState)) (t : Tally)
    → counted (select_markets iv now keeper markets t).1 ≡ counted t + length markets
unfolding select_markets
select_markets-counted iv now keeper [] t = omega arith
select_markets-counted iv now keeper ((key, s) ∷ rest) t =
    let p = place iv now keeper s in
    omega (
      arith,
      tally_place-counted p key t,
      select_markets-counted iv now keeper rest (tally_place p key t),
    )

count_outcomes-append :
    (fn : ℕ → Option CrankResult) (xs ys : List ℕ) (r : BatchResult)
    → count_outcomes fn (xs ++ ys) r ≡ count_outcomes fn ys (count_outcomes fn xs r)
unfolding count_outcomes
count_outcomes-append fn [] ys r = refl
count_outcomes-append fn (x ∷ xs) ys r = count_outcomes-append fn xs ys (count_outcome x (fn x) r)

process_rounds-IsSequential :
    (fn : ℕ → Option CrankResult) (batch_size n : ℕ) (items : List ℕ) (r : BatchResult)
    → 0 < batch_size
    → length items ≤ n
    → process_rounds fn batch_size n items r ≡ count_outcomes fn items r
unfolding process_rounds count_outcomes
process_rounds-IsSequential fn batch_size zero [] r b h = refl
process_rounds-IsSequential fn batch_size zero (x ∷ xs) r b h = absurd (omega (arith, h))
process_rounds-IsSequential fn batch_size (suc n) [] r b h =
    process_rounds-IsSequential fn batch_size n [] r b (omega arith)
process_rounds-IsSequential fn batch_size (suc n) (x ∷ xs) r b h =
    let items = x ∷ xs in
    process_rounds-IsSequential fn batch_size n (drop batch_size items)
      (count_outcomes fn (take batch_size items) r) b
      (omega (arith, h, b, length-drop batch_size items))
    ∙ sym (count_outcomes-append fn (take batch_size items) (drop batch_size items) r)
    ∙ ap (λ l. count_outcomes fn l r) (take-append-drop batch_size items)

-- Batches of any positive size count what one pass over the items counts.
pub batches_are_sequential :
    (fn : ℕ → Option CrankResult) (batch_size : ℕ) (items : List ℕ)
    → 0 < batch_size
    → process_batched fn batch_size items ≡ count_outcomes fn items new_batch_result
unfolding process_batched
batches_are_sequential fn batch_size items b =
    process_rounds-IsSequential fn batch_size (length items) items new_batch_result b (omega arith)

abbrev pub ended_of : BatchResult → ℕ
ended_of r = r.succeeded + r.failed + r.skipped

count_outcome-ended :
    (item : ℕ) (o : Option CrankResult) (r : BatchResult)
    → ended_of (count_outcome item o r) ≡ ended_of r + 1
unfolding count_outcome
count_outcome-ended item (some success) r = omega arith
count_outcome-ended item (some skipped) r = omega arith
count_outcome-ended item (some failed) r = omega arith
count_outcome-ended item none r = omega arith

count_outcomes-ended :
    (fn : ℕ → Option CrankResult) (items : List ℕ) (r : BatchResult)
    → ended_of (count_outcomes fn items r) ≡ ended_of r + length items
unfolding count_outcomes
count_outcomes-ended fn [] r = omega arith
count_outcomes-ended fn (x ∷ xs) r =
    omega
      (arith, count_outcome-ended x (fn x) r, count_outcomes-ended fn xs (count_outcome x (fn x) r))

-- Every tracked market is counted once in the result of a cycle, as a success, a failure or a skip,
-- whatever the cranks return or throw, for any positive batch size.
pub cycle_totals :
    (iv : Intervals) (now keeper batch_size : ℕ) (markets : List (ℕ × MarketCrankState))
    (crank : ℕ → Option CrankResult)
    → 0 < batch_size
    → let tally = (select_markets iv now keeper markets new_tally).1 in
      ended_of (process_batched crank batch_size tally.to_crank) + skipped_of tally ≡ length markets
cycle_totals iv now keeper batch_size markets crank b =
    let tally = (select_markets iv now keeper markets new_tally).1 in
    omega (
      arith,
      ap ended_of (batches_are_sequential crank batch_size tally.to_crank b),
      count_outcomes-ended crank tally.to_crank new_batch_result,
      select_markets-counted iv now keeper markets new_tally,
    )
