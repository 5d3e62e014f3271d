-- ===== src/Liquidation/Cycle/Accounting.antt =====
-- src/services/liquidation.ts: what scanAndLiquidateAll hands on and counts.
use mathlib.Core.List.{append-nil, append_assoc}
use percolator_keeper.Prelude.{
  ℕ, zero, suc, ◌+◌, ◌/◌, ◌≡◌, refl, sym, ap, ◌∙◌, Bool, Option, List, [], ◌∷◌, ◌++◌, length, take,
  drop,
}
use percolator_keeper.Liquidation.Cycle.{
  batch_size, Keeper, Cycle, begin_scan_cycle, new_cycle, without_skipped, scan_batch, run_batch,
  run_batches, scan_and_liquidate_all,
}
use percolator_keeper.Liquidation.Cycle.Log.{
  Act, scans, given, all_given, scanned, handed, keeper_after, found, sent,
}
use percolator_keeper.Liquidation.Cycle.Dealing.{deal_results}

module _ {C : Type 0} (scan : ℕ → Keeper → Keeper × Option (List C))
    (gated : ℕ → C → Keeper → Keeper × Bool) (start : Keeper) where
  scan_stage :
      (ms : List ℕ) (k : Keeper) (acts : List (Act C))
      → k ≡ keeper_after scan gated start acts
      → let r = scan_batch scan ms k in
        (after : List (Act C)) × (r.0 ≡ keeper_after scan gated start after)
        × (handed after ≡ handed acts)
        × (found scan gated start after ≡ found scan gated start acts ++ all_given r.1)
        × (sent scan gated start after ≡ sent scan gated start acts)
        × (scanned after ≡ scanned acts ++ ms)
  unfolding scan_batch
  scan_stage [] k acts e = (
    acts,
    e,
    refl,
    sym (append-nil (found scan gated start acts)),
    refl,
    sym (append-nil (scanned acts)),
  )
  scan_stage (m ∷ ms) k acts e =
      let (after, reached, hand, finds, sends, sees) =
        scan_stage ms (scan m k).0 (scans m ∷ acts) (ap (λ b. (scan m b).0) e) in
      let rest = scan_batch scan ms (scan m k).0 in
      (
        after,
        reached,
        hand,
        finds
            ∙ append_assoc (found scan gated start acts)
                (given m (scan m (keeper_after scan gated start acts)).1) (all_given rest.1)
            ∙ ap (λ b. found scan gated start acts ++ (given m (scan m b).1 ++ all_given rest.1))
                (sym e),
        sends,
        sees ∙ append_assoc (scanned acts) (m ∷ []) ms,
      )

  -- Between two batches.
  abbrev pub IsSettled : List (Act C) → Cycle → List ℕ → Type 0
  IsSettled acts c seen =
      (c.keeper ≡ keeper_after scan gated start acts)
      × (handed acts ≡ take 256 (found scan gated start acts))
      × (c.liquidated ≡ sent scan gated start acts)
      × (c.processed ≡ length (handed acts))
      × (c.candidate_count ≡ length (found scan gated start acts))
      × (scanned acts ≡ seen)

  pub run_batch-IsSettled :
      (batch : List ℕ) (c : Cycle) (acts : List (Act C)) (seen : List ℕ)
      → IsSettled acts c seen
      → (after : List (Act C)) × IsSettled after
          (run_batch scan gated batch c)
          (seen ++ without_skipped c.keeper.permanently_skipped batch)
  unfolding run_batch
  run_batch-IsSettled batch c acts seen (k, h, l, p, n, s) =
      let markets = without_skipped c.keeper.permanently_skipped batch in
      let r = scan_batch scan markets c.keeper in
      let (middle, reached, hand, finds, sends, sees) = scan_stage markets c.keeper acts k in
      let (after, (k2, h2, f2, l2, p2, s2), n2) =
        deal_results scan gated start r.1 (record c { keeper = r.0 }) middle
          (found scan gated start acts) (seen ++ markets)
          (
            reached,
            hand ∙ h,
            finds,
            l ∙ sym sends,
            p ∙ ap length (sym hand),
            sees ∙ ap (λ b. b ++ markets) s,
          )
          n in
      let all = f2 ∙ append-nil (found scan gated start acts ++ all_given r.1) in
      (after, (k2, h2 ∙ ap (take 256) (sym all), l2, p2, n2 ∙ ap length (sym all), s2))

module _ {C : Type 0} (scan : ℕ → Keeper → Keeper × Option (List C))
    (gated : ℕ → C → Keeper → Keeper × Bool) where
  -- A whole cycle from the keeper `k` as the acts, the last of which is first.
  abbrev pub IsAccounted : Keeper → List (Act C) → Cycle → Type 0
  IsAccounted k acts c =
      let start = begin_scan_cycle k in
      let after = keeper_after scan gated start acts in
      (c.keeper ≡ record after { scan_count = after.scan_count + 1 })
      × (handed acts ≡ take 256 (found scan gated start acts))
      × (c.liquidated ≡ sent scan gated start acts)
      × (c.processed ≡ length (handed acts))
      × (c.candidate_count ≡ length (found scan gated start acts))

  run_batches-IsSettled :
      (start : Keeper) (n : ℕ) (entries : List ℕ) (c : Cycle) (acts : List (Act C)) (seen : List ℕ)
      → IsSettled scan gated start acts c seen
      → (after : List (Act C)) × (all : List ℕ) × IsSettled scan gated start after
          (run_batches scan gated n entries c)
          all
  unfolding run_batches
  run_batches-IsSettled start zero entries c acts seen h = (acts, seen, h)
  run_batches-IsSettled start (suc n) entries c acts seen h =
      let batch = take batch_size entries in
      let (middle, settled) = run_batch-IsSettled scan gated start batch c acts seen h in
      run_batches-IsSettled start n (drop batch_size entries) (run_batch scan gated batch c) middle
        (seen ++ without_skipped c.keeper.permanently_skipped batch) settled

  -- Whatever the scans and the gate do, a cycle is a sequence of scans and of calls of the gate, each on
  -- the keeper that the one before leaves. The calls are those of the first 256 candidates that the
  -- scans of this cycle find, each once, in their order and with its market. The cycle reports as
  -- liquidated how many of these calls gave a signature, as processed how many there were, and as
  -- candidates how many the scans found.
  pub cycle-IsAccounted :
      (entries : List ℕ) (k : Keeper)
      → (acts : List (Act C)) × IsAccounted k acts (scan_and_liquidate_all scan gated entries k)
  unfolding scan_and_liquidate_all
  cycle-IsAccounted entries k =
      let start = begin_scan_cycle k in
      let (acts, all, (reached, hand, sends, counts, finds, sees)) =
        run_batches-IsSettled start ((length entries + 9) / batch_size) entries (new_cycle start) []
          [] (refl, refl, refl, refl, refl, refl) in
      (
        acts,
        (
          ap (λ (b : Keeper). record b { scan_count = b.scan_count + 1 }) reached,
          hand,
          sends,
          counts,
          finds,
        ),
      )
