-- ===== src/Liquidation/Submit/Rechecked.antt =====
-- src/services/liquidation.ts: what holds of a liquidation that is sent.
use percolator_keeper.Prelude.{
  ℕ, ◌+◌, ◌-◌, ◌*◌, ◌/◌, ◌≤◌, ◌<◌, ◌≡◌, refl, subst, pos, ◌≤ℤ◌, Bool, true, false, Option, none,
  some, arith,
}
use percolator_keeper.Risk.{
  Layout, Parsed, parsed, too_short, corrupted, out_of_bounds, parse_v17_risk_params,
}
use percolator_keeper.Liquidation.{
  Portfolio, evaluate_v17_portfolio_health, conservative_equity, bps_multiplier,
}
use percolator_keeper.Liquidation.Prices.{resolve_v17_wrapper_price}
use percolator_keeper.Liquidation.Submit.{
  FreshRead, read_failed, not_on_chain, portfolio_only, both_read, FreshMarket, v17, SendEnd,
  Service, market_of, drift_exceeds, has_active, bankrupt_size, liquidatable_size, size_by_params,
  recheck_price, recheck_v17, passes_checks, liquidate, is_some,
}

-- The price has moved by at most the limit since the scan, where a limit and a scan price are set.
abbrev pub IsNear : ℕ → ℕ → ℕ → Type 0
IsNear max_drift_bps scan fresh =
    0 < max_drift_bps
    → 0 < scan
    → ((fresh - scan) * bps_multiplier < (max_drift_bps + 1) * scan)
      × ((scan - fresh) * bps_multiplier < (max_drift_bps + 1) * scan)

quotient_bound : (a d m : ℕ) → 0 < d → a / d ≤ m → a < (m + 1) * d
quotient_bound a d m h q = grind arith

drift-IsNear :
    (max_drift_bps scan fresh : ℕ)
    → drift_exceeds max_drift_bps scan fresh ≡ false
    → IsNear max_drift_bps scan fresh
unfolding drift_exceeds
drift-IsNear max_drift_bps scan fresh h a b = (
  ground (arith, h, quotient_bound ((fresh - scan) * 10_000) scan max_drift_bps b),
  ground (arith, h, quotient_bound ((scan - fresh) * 10_000) scan max_drift_bps b),
)

-- The portfolio is one to liquidate by the parameters that were read again: by the evaluation, where
-- they parse; else, where they are corrupted, only without equity.
abbrev pub IsOwed : Layout → Portfolio → FreshMarket → ℕ → Parsed → Type 0
IsOwed l pf f price (parsed p) =
    (evaluate_v17_portfolio_health (market_of l f.bytes p price) pf).liquidatable ≡ true
IsOwed l pf f price (corrupted _) = conservative_equity pf ≤ℤ pos 0
IsOwed l pf f price too_short = ⊥
IsOwed l pf f price out_of_bounds = ⊥

size-IsOwed :
    (l : Layout) (pf : Portfolio) (f : FreshMarket) (price : ℕ) (r : Parsed)
    → is_some (size_by_params l pf f price r) ≡ true
    → IsOwed l pf f price r
unfolding size_by_params liquidatable_size bankrupt_size
size-IsOwed l pf f price (parsed p) h = ground (arith, h)
size-IsOwed l pf f price (corrupted m) h = ground (arith, h)
size-IsOwed l pf f price too_short h = absurd (ground (arith, h))
size-IsOwed l pf f price out_of_bounds h = absurd (ground (arith, h))

-- What the checks of a v17 portfolio establish.
pub record IsRechecked (l : Layout) (drift : Option ℕ) (scan : ℕ) (read : FreshRead) : Type 0 where
  pub portfolio : Portfolio
  pub fresh : FreshMarket
  pub limit : ℕ
  pub was_read : read ≡ both_read portfolio fresh
  pub limit_set : drift ≡ some limit
  pub has_leg : has_active portfolio.legs ≡ true
  pub has_price : 0 < resolve_v17_wrapper_price fresh.wrapper fresh.now_sec
  pub is_near : IsNear limit scan (resolve_v17_wrapper_price fresh.wrapper fresh.now_sec)
  pub owed :
      IsOwed l portfolio fresh
        (resolve_v17_wrapper_price fresh.wrapper fresh.now_sec)
        (parse_v17_risk_params l fresh.bytes)

recheck_price-facts :
    (l : Layout) (limit scan : ℕ) (pf : Portfolio) (f : FreshMarket) (price : ℕ)
    → is_some (recheck_price l (some limit) scan pf f price) ≡ true
    → (0 < price)
      × (drift_exceeds limit scan price ≡ false)
      × (is_some (size_by_params l pf f price (parse_v17_risk_params l f.bytes)) ≡ true)
unfolding recheck_price
recheck_price-facts l limit scan pf f price h = ground (arith, h)

recheck_price-limit :
    (l : Layout) (drift : Option ℕ) (scan : ℕ) (pf : Portfolio) (f : FreshMarket) (price : ℕ)
    → is_some (recheck_price l drift scan pf f price) ≡ true
    → (limit : ℕ) × (drift ≡ some limit)
unfolding recheck_price
recheck_price-limit l none scan pf f price h = absurd (ground (arith, h))
recheck_price-limit l (some limit) scan pf f price h = (limit, refl)

recheck_both :
    (l : Layout) (drift : Option ℕ) (scan : ℕ) (pf : Portfolio) (f : FreshMarket)
    → is_some (recheck_v17 l drift scan (both_read pf f)) ≡ true
    → (has_active pf.legs ≡ true)
      × (is_some (recheck_price l drift scan pf f (resolve_v17_wrapper_price f.wrapper f.now_sec))
          ≡ true)
unfolding recheck_v17
recheck_both l drift scan pf f h = ground (arith, h)

recheck_v17-IsRechecked :
    (l : Layout) (drift : Option ℕ) (scan : ℕ) (read : FreshRead)
    → is_some (recheck_v17 l drift scan read) ≡ true
    → IsRechecked l drift scan read
unfolding recheck_v17
recheck_v17-IsRechecked l drift scan read_failed h = absurd (ground (arith, h))
recheck_v17-IsRechecked l drift scan not_on_chain h = absurd (ground (arith, h))
recheck_v17-IsRechecked l drift scan (portfolio_only pf) h = absurd (ground (arith, h))
recheck_v17-IsRechecked l drift scan (both_read pf f) h =
    let price = resolve_v17_wrapper_price f.wrapper f.now_sec in
    let (leg, passed) = recheck_both l drift scan pf f h in
    let (limit, set) = recheck_price-limit l drift scan pf f price passed in
    let (priced, near, sized) =
      recheck_price-facts l limit scan pf f price
        (subst (λ d. is_some (recheck_price l d scan pf f price) ≡ true) set passed) in
    record {
      portfolio = pf;
      fresh = f;
      limit = limit;
      was_read = refl;
      limit_set = set;
      has_leg = leg;
      has_price = priced;
      is_near = drift-IsNear limit scan price near;
      owed = size-IsOwed l pf f price (parse_v17_risk_params l f.bytes) sized;
    }

liquidate-v17_facts :
    (l : Layout) (drift : Option ℕ) (scan : ℕ) (has_slot : Bool) (q : ℕ) (read : FreshRead)
    (sent : SendEnd) (s : Service)
    → s.submit_attempts < (liquidate l drift scan has_slot (v17 q read) sent s).0.submit_attempts
    → (0 < q) × (has_slot ≡ true) × (is_some (recheck_v17 l drift scan read) ≡ true)
unfolding liquidate passes_checks
liquidate-v17_facts l drift scan has_slot q read sent s h = ground (arith, h)

-- An attempt on a v17 portfolio is counted, and so a transaction handed to the sender, only after the
-- portfolio and its market were read again, the portfolio still has a leg, the new price is not 0 and
-- has moved by at most the drift limit since the scan, and the portfolio is still one to liquidate.
pub attempt-IsRechecked :
    (l : Layout) (drift : Option ℕ) (scan : ℕ) (has_slot : Bool) (q : ℕ) (read : FreshRead)
    (sent : SendEnd) (s : Service)
    → s.submit_attempts < (liquidate l drift scan has_slot (v17 q read) sent s).0.submit_attempts
    → IsRechecked l drift scan read
attempt-IsRechecked l drift scan has_slot q read sent s h =
    let (_, _, passed) = liquidate-v17_facts l drift scan has_slot q read sent s h in
    recheck_v17-IsRechecked l drift scan read passed
