-- ===== src/Tests/CycleTests.antt =====
-- A cycle of the liquidation service at a concrete input: three markets, where every scan finds two
-- candidates and the gate sends those of an even number.
use percolator_keeper.Prelude.{
  ℕ, ◌+◌, ◌%◌, ◌≡◌, refl, Bool, Option, some, List, [], ◌∷◌, ◌==◌, empty_set,
}
use percolator_keeper.Liquidation.Gate.{new_gate}
use percolator_keeper.Liquidation.Cycle.{Keeper, scan_and_liquidate_all}
use percolator_keeper.Liquidation.Cycle.Log.{Act, scanned}
use percolator_keeper.Liquidation.Cycle.Accounting.{IsAccounted, cycle-IsAccounted}
use percolator_keeper.Liquidation.Cycle.Coverage.{every_market_is_scanned}

abbrev keeper : Keeper
keeper = record { gate = new_gate; permanently_skipped = empty_set; scan_count = 20 }

abbrev markets : List ℕ
markets = 11 ∷ 12 ∷ 13 ∷ []

abbrev scan : ℕ → Keeper → Keeper × Option (List ℕ)
scan m k = (k, some (m ∷ (m + 1) ∷ []))

abbrev gated : ℕ → ℕ → Keeper → Keeper × Bool
gated m x k = (k, x % 2 == 0)

cycle-IsAccounted_example :
    (acts : List (Act ℕ)) × IsAccounted scan gated keeper acts
      (scan_and_liquidate_all scan gated markets keeper)
cycle-IsAccounted_example = cycle-IsAccounted scan gated markets keeper

every_market_is_scanned_example :
    (acts : List (Act ℕ)) × (scanned acts ≡ markets)
    × IsAccounted scan gated keeper acts (scan_and_liquidate_all scan gated markets keeper)
every_market_is_scanned_example =
    every_market_is_scanned scan gated (λ m k h. h) (λ m x k h. h) markets keeper (λ p. refl)
