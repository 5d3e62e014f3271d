-- ===== src/Crank/Choice.antt =====
-- src/services/crank.ts: the markets that a cycle takes, the batches of their cranks, and the markets of
-- the fee pass.
use percolator_keeper.Prelude.{
  ℕ, zero, suc, ◌+◌, Bool, true, false, not, Option, none, some, List, [], ◌∷◌, ◌++◌, leb, ◌==◌,
  if◌then◌else◌, length, take, drop,
}
use percolator_keeper.Crank.{CrankResult, MarketCrankState, success, skipped, failed}

pub record Intervals : Type 0 where
  pub interval_ms : ℕ
  pub inactive_interval_ms : ℕ

unfoldable pub is_due : Intervals → ℕ → MarketCrankState → Bool
is_due iv now s =
    leb (s.last_crank_time + (if s.is_active then iv.interval_ms else iv.inactive_interval_ms)) now

abbrev pub max_consecutive_failures : ℕ
max_consecutive_failures = 10

-- A market with an oracle authority that is not the keeper.
abbrev pub is_foreign : ℕ → Option ℕ → Bool
is_foreign keeper none = false
is_foreign keeper (some authority) = not (keeper == authority)

abbrev pub has_portfolio : Option ℕ → Bool
has_portfolio none = false
has_portfolio (some p) = true

-- What becomes of a market in a cycle.
pub data Place : Type 0 where
  permanent foreign unprovisioned paused not_due to_crank : Place

-- The tests of the loop of `crankAll`, in their order.
unfoldable pub place : Intervals → ℕ → ℕ → MarketCrankState → Place
unfolding is_due
place iv now keeper s =
    if s.permanently_skipped
    then permanent
    else if is_foreign keeper s.market.oracle_authority
    then foreign
    else if not (has_portfolio s.keeper_portfolio)
    then unprovisioned
    else if leb max_consecutive_failures s.consecutive_failures
    then paused
    else if not (is_due iv now s)
    then not_due
    else to_crank

pub record Tally : Type 0 where
  pub permanent_count : ℕ
  pub foreign_count : ℕ
  pub no_portfolio_count : ℕ
  pub failures_count : ℕ
  pub not_due_count : ℕ
  pub to_crank : List ℕ

abbrev pub new_tally : Tally
new_tally = record {
  permanent_count = 0;
  foreign_count = 0;
  no_portfolio_count = 0;
  failures_count = 0;
  not_due_count = 0;
  to_crank = [];
}

unfoldable pub tally_place : Place → ℕ → Tally → Tally
tally_place permanent key t = record t { permanent_count = t.permanent_count + 1 }
tally_place foreign key t = record t { foreign_count = t.foreign_count + 1 }
tally_place unprovisioned key t = record t { no_portfolio_count = t.no_portfolio_count + 1 }
tally_place paused key t = record t { failures_count = t.failures_count + 1 }
tally_place not_due key t = record t { not_due_count = t.not_due_count + 1 }
tally_place to_crank key t = record t { to_crank = t.to_crank ++ (key ∷ []) }

unfoldable pub mark_foreign : Place → MarketCrankState → MarketCrankState
mark_foreign foreign s = record s { foreign_oracle_skipped = true }
mark_foreign _ s = s

unfoldable pub select_markets :
    Intervals → ℕ → ℕ → List (ℕ × MarketCrankState) → Tally → List (ℕ × MarketCrankState) × Tally
unfolding tally_place mark_foreign place
select_markets iv now keeper [] t = ([], t)
select_markets iv now keeper ((key, s) ∷ rest) t =
    let p = place iv now keeper s in
    let (left, tally) = select_markets iv now keeper rest (tally_place p key t) in
    ((key, mark_foreign p s) ∷ left, tally)

abbrev pub skipped_of : Tally → ℕ
skipped_of t =
    t.permanent_count + t.foreign_count + t.no_portfolio_count + t.failures_count + t.not_due_count

pub record BatchResult : Type 0 where
  pub succeeded : ℕ
  pub failed : ℕ
  pub skipped : ℕ
  pub errors : List ℕ

abbrev pub new_batch_result : BatchResult
new_batch_result = record { succeeded = 0; failed = 0; skipped = 0; errors = [] }

-- The outcome of an item; `none` is a throw.
unfoldable pub count_outcome : ℕ → Option CrankResult → BatchResult → BatchResult
count_outcome item (some success) r = record r { succeeded = r.succeeded + 1 }
count_outcome item (some skipped) r = record r { skipped = r.skipped + 1 }
count_outcome item (some failed) r = record r { failed = r.failed + 1 }
count_outcome item none r = record r { failed = r.failed + 1; errors = r.errors ++ (item ∷ []) }

unfoldable pub count_outcomes : (ℕ → Option CrankResult) → List ℕ → BatchResult → BatchResult
unfolding count_outcome
count_outcomes fn [] r = r
count_outcomes fn (item ∷ items) r = count_outcomes fn items (count_outcome item (fn item) r)

-- The batches from `items` on, with `n` rounds left.
unfoldable pub process_rounds :
    (ℕ → Option CrankResult) → ℕ → ℕ → List ℕ → BatchResult → BatchResult
unfolding count_outcomes
process_rounds fn batch_size zero items r = r
process_rounds fn batch_size (suc n) items r =
    process_rounds fn batch_size n (drop batch_size items)
      (count_outcomes fn (take batch_size items) r)

-- A batch size of at least 1 needs no more rounds than there are items.
unfoldable pub process_batched : (ℕ → Option CrankResult) → ℕ → List ℕ → BatchResult
unfolding process_rounds
process_batched fn batch_size items =
    process_rounds fn batch_size (length items) items new_batch_result

unfoldable pub select_fee_crank_markets : List MarketCrankState → List (ℕ × ℕ)
select_fee_crank_markets [] = []
select_fee_crank_markets (s ∷ rest) =
    let out = select_fee_crank_markets rest in
    if s.permanently_skipped then out else (s.market.slab_address, s.market.program_id) ∷ out
