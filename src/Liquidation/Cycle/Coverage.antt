-- ===== src/Liquidation/Cycle/Coverage.antt =====
-- src/services/liquidation.ts: the batches of scanAndLiquidateAll leave no market out.
use mathlib.Core.List.{append-nil, append_assoc}
use percolator_keeper.Prelude.{
  ℕ, zero, suc, ◌+◌, ◌*◌, ◌/◌, ◌≤◌, ◌≡◌, refl, sym, ap, subst, ◌∙◌, Bool, false, Option, List, [],
  ◌∷◌, ◌++◌, length, take, drop, NumberSet, arith, length-drop, take-append-drop,
}
use percolator_keeper.Liquidation.Cycle.{
  batch_size, Keeper, Cycle, begin_scan_cycle, new_cycle, without_skipped, run_batch, run_batches,
  scan_and_liquidate_all,
}
use percolator_keeper.Liquidation.Cycle.Log.{Act, scans, hands, scanned, keeper_after}
use percolator_keeper.Liquidation.Cycle.Accounting.{IsSettled, IsAccounted, run_batch-IsSettled}

-- No market is marked as skipped.
abbrev pub IsUnmarked : Keeper → Type 0
IsUnmarked k = (p : ℕ) → k.permanently_skipped p ≡ false

without_skipped-all :
    (skipped : NumberSet) (ms : List ℕ)
    → ((p : ℕ) → skipped p ≡ false)
    → without_skipped skipped ms ≡ ms
unfolding without_skipped
without_skipped-all skipped [] h = refl
without_skipped-all skipped (m ∷ ms) h = ground (arith, h m, without_skipped-all skipped ms h)

module _ {C : Type 0} (scan : ℕ → Keeper → Keeper × Option (List C))
    (gated : ℕ → C → Keeper → Keeper × Bool)
    (scan_marks_none : (m : ℕ) (k : Keeper) → IsUnmarked k → IsUnmarked (scan m k).0)
    (gated_marks_none : (m : ℕ) (x : C) (k : Keeper)
      → IsUnmarked k
      → IsUnmarked (gated m x k).0) where
  keeper_after-IsUnmarked :
      (start : Keeper) (acts : List (Act C))
      → IsUnmarked start
      → IsUnmarked (keeper_after scan gated start acts)
  keeper_after-IsUnmarked start [] h = h
  keeper_after-IsUnmarked start (scans m ∷ acts) h =
      scan_marks_none m (keeper_after scan gated start acts) (keeper_after-IsUnmarked start acts h)
  keeper_after-IsUnmarked start (hands m x ∷ acts) h =
      gated_marks_none m x (keeper_after scan gated start acts)
        (keeper_after-IsUnmarked start acts h)

  run_batches-scans :
      (start : Keeper) (n : ℕ) (entries : List ℕ) (c : Cycle) (acts : List (Act C)) (seen : List ℕ)
      → IsUnmarked start
      → IsSettled scan gated start acts c seen
      → length entries ≤ n * 10
      → (after : List (Act C)) × IsSettled scan gated start after
          (run_batches scan gated n entries c)
          (seen ++ entries)
  unfolding run_batches
  run_batches-scans start zero [] c acts seen u h b = (acts, rw (append-nil seen) h)
  run_batches-scans start zero (m ∷ ms) c acts seen u h b = absurd (omega (arith, b))
  run_batches-scans start (suc n) entries c acts seen u h b =
      let batch = take batch_size entries in
      let unmarked = subst IsUnmarked (sym h.0) (keeper_after-IsUnmarked start acts u) in
      let (middle, settled) = run_batch-IsSettled scan gated start batch c acts seen h in
      let (after, done) =
        run_batches-scans start n (drop batch_size entries) (run_batch scan gated batch c) middle
          (seen ++ batch) u
          (subst
            (λ ms. IsSettled scan gated start middle (run_batch scan gated batch c) (seen ++ ms))
            (without_skipped-all c.keeper.permanently_skipped batch unmarked) settled)
          (ground (arith, b, length-drop batch_size entries)) in
      (
        after,
        subst
            (IsSettled scan gated start after
              (run_batches scan gated n (drop batch_size entries) (run_batch scan gated batch c)))
            (append_assoc seen batch (drop batch_size entries)
              ∙ ap (λ l. seen ++ l) (take-append-drop batch_size entries))
            done,
      )

  -- Where no market is marked as skipped before, and neither the scans nor the gate mark one, the scans
  -- of a cycle are those of all its markets, each once and in their order; the candidates that it hands
  -- on are the first 256 that these scans find, and its counts are those of these scans and calls.
  pub every_market_is_scanned :
      (entries : List ℕ) (k : Keeper)
      → IsUnmarked k
      → (acts : List (Act C)) × (scanned acts ≡ entries)
        × IsAccounted scan gated k acts (scan_and_liquidate_all scan gated entries k)
  unfolding scan_and_liquidate_all begin_scan_cycle
  every_market_is_scanned entries k h =
      let start = begin_scan_cycle k in
      let (acts, (reached, hand, sends, counts, finds, sees)) =
        run_batches-scans start ((length entries + 9) / batch_size) entries (new_cycle start) [] []
          (λ p. ground (arith, h p)) (refl, refl, refl, refl, refl, refl) (omega arith) in
      (
        acts,
        sees,
        (
          ap (λ (b : Keeper). record b { scan_count = b.scan_count + 1 }) reached,
          hand,
          sends,
          counts,
          finds,
        ),
      )
